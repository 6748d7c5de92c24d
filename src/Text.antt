-- ===== src/Text.antt =====
-- The operations of JavaScript's `String.prototype` that the SDK uses, on lists of code units. The
-- separators that the SDK splits by and searches for are single code units.
pub mod Laws
use mathlib.Core.Option
use cuttle_db.Prelude.{
  ℕ, zero, suc, Bool, true, false, ◌&&◌, List, [], ◌∷◌, ◌++◌, Option, none, some, ◌==◌,
  if◌then◌else◌, Text,
}

-- `s.indexOf(c)`, with `none` for -1.
unfoldable pub index_of : ℕ → Text → Option ℕ
index_of c [] = none
index_of c (x ∷ s) = if x == c then some 0 else Option.map suc (index_of c s)

-- `s.startsWith(p)`.
unfoldable pub starts_with : Text → Text → Bool
starts_with [] s = true
starts_with (x ∷ p) [] = false
starts_with (x ∷ p) (y ∷ s) = x == y && starts_with p s

-- `s.endsWith(c)`.
unfoldable pub ends_with : ℕ → Text → Bool
ends_with c [] = false
ends_with c (x ∷ []) = x == c
ends_with c (x ∷ y ∷ s) = ends_with c (y ∷ s)

-- `s.slice(0, -1)`.
unfoldable pub drop_last : Text → Text
drop_last [] = []
drop_last (x ∷ []) = []
drop_last (x ∷ y ∷ s) = x ∷ drop_last (y ∷ s)

-- The first part gets one more code unit in front.
abbrev pub onto_first : ℕ → List Text → List Text
onto_first x [] = (x ∷ []) ∷ []
onto_first x (p ∷ ps) = (x ∷ p) ∷ ps

-- `s.split(c)`: one part more than there are separators.
unfoldable pub split : ℕ → Text → List Text
split c [] = [] ∷ []
split c (x ∷ s) = let rest = split c s in if x == c then [] ∷ rest else onto_first x rest

-- `parts.join(sep)`.
unfoldable pub join : Text → List Text → Text
join sep [] = []
join sep (p ∷ []) = p
join sep (p ∷ q ∷ ps) = p ++ (sep ++ join sep (q ∷ ps))

-- `s.replaceAll(c, by)`.
unfoldable pub replace_all : ℕ → Text → Text → Text
replace_all c by [] = []
replace_all c by (x ∷ s) = (if x == c then by else x ∷ []) ++ replace_all c by s

-- Equality of strings.
unfoldable pub text_eq : Text → Text → Bool
text_eq [] [] = true
text_eq (x ∷ s) (y ∷ t) = x == y && text_eq s t
text_eq [] (y ∷ t) = false
text_eq (x ∷ s) [] = false
