-- ===== src/Search/Values.antt =====
-- The values of JSON.parse that adapters/search.js looks into, with JavaScript's truth of a value and
-- its access to a property.
use cuttle_db.Prelude.{Bool, true, false, not, [], ◌∷◌, Option, none, some, if◌then◌else◌, Text}
use cuttle_db.Text.{text_eq}

-- `N` is the type of numbers. No key stands twice among the fields.
mutual
  pub data Json (N : Type 0) : Type 0 where
    null : Json N
    bool : Bool → Json N
    number : N → Json N
    string : Text → Json N
    array : Items N → Json N
    object : Fields N → Json N

  pub data Items (N : Type 0) : Type 0 where
    nil : Items N
    item : Json N → Items N → Items N

  pub data Fields (N : Type 0) : Type 0 where
    end : Fields N
    field : Text → Json N → Fields N → Fields N

module _ {N : Type 0} (is_zero : N → Bool) where
  unfoldable pub truthy : Json N → Bool
  truthy null = false
  truthy (bool b) = b
  truthy (number n) = not (is_zero n)
  truthy (string []) = false
  truthy (string (c ∷ s)) = true
  truthy (array xs) = true
  truthy (object fs) = true

module _ {N : Type 0} where
  unfoldable pub named : Text → Fields N → Option (Json N)
  unfolding text_eq
  named name end = none
  named name (field k j fs) = if text_eq k name then some j else named name fs

  -- `j.name`, with `none` for undefined; `j` is not null.
  unfoldable pub property : Text → Json N → Option (Json N)
  unfolding named
  property name (object fs) = named name fs
  property name j = none
