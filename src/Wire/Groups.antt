-- ===== src/Wire/Groups.antt =====
-- `parseGbComponent` and `parseGroupBy` of adapters/cuttledb.js. An index into an entry is the rest
-- of the entry from there on.
pub mod Fuel
pub mod RoundTrip
use cuttle_db.Prelude.{
  ℕ, zero, suc, ◌+◌, Bool, ◌&&◌, ◌||◌, not, List, [], ◌∷◌, ◌++◌, Option, none, some, ◌==◌,
  if◌then◌else◌, get_elem?, take, drop, length, Result, ok, ◌>>=◌, Text, text,
}
use cuttle_db.Text.{index_of}
use cuttle_db.Wire.Body.{bracketed}
use cuttle_db.Wire.Results.{items}

-- A component of a key, over the floating-point numbers `F`.
pub data Component (F : Type 0) : Type 0 where
  num : F → Component F
  str : Text → Component F

-- A key with one component is that component, and an array otherwise.
pub data Key (F : Type 0) : Type 0 where
  one : Component F → Key F
  many : List (Component F) → Key F

pub record Group (F : Type 0) : Type 0 where
  pub key : Key F
  pub value : F

-- The unquoted component in front, and what stands behind it.
unfoldable pub span_raw : Text → Text × Text
span_raw [] = ([], [])
span_raw (c ∷ s) =
    let (raw, rest) = span_raw s in if c == b'|' || c == b':' then ([], c ∷ s) else (c ∷ raw, rest)

-- `s.slice(i + 1)`, the next index, and the terminator, which is `none` at the end.
abbrev pub behind : Text → Text × Option ℕ
behind [] = ([], none)
behind (c ∷ s) = (s, some c)

-- Parameters are `Number` on strings and `Number.isFinite`.
module _ {F : Type 0} (number : Text → F) (finite : F → Bool) where
  unfoldable pub raw_component : Text → Component F
  raw_component [] = str []
  raw_component (c ∷ raw) = let n = number (c ∷ raw) in if finite n then num n else str (c ∷ raw)

  -- The component, the entry from the next index on, and the terminator.
  unfoldable pub quoted : Text → Option ℕ → Component F × (Text × Option ℕ)
  quoted s none = (str s, ([], none))
  quoted s (some end) = (str (take end s), behind (drop (end + 1) s))

  unfoldable pub unquoted : Text → Component F × (Text × Option ℕ)
  unfolding span_raw raw_component
  unquoted s = let (raw, rest) = span_raw s in (raw_component raw, behind rest)

  unfoldable pub parse_gb_component : Text → Component F × (Text × Option ℕ)
  unfolding quoted unquoted index_of
  parse_gb_component [] = unquoted []
  parse_gb_component (c ∷ s) = if c == b'"' then quoted s (index_of b'"' s) else unquoted (c ∷ s)

  unfoldable pub is_colon : Option ℕ → Bool
  is_colon none = Bool.false
  is_colon (some c) = c == b':'

  -- The `while` loop over an entry: the components, and the text of the value.
  unfoldable pub entry_loop : ℕ → Text → List (Component F) × Text
  unfolding parse_gb_component is_colon
  entry_loop zero s = ([], [])
  entry_loop (suc fuel) [] = ([], [])
  entry_loop (suc fuel) (c ∷ s) =
      let (comp, (next, term)) = parse_gb_component (c ∷ s) in
      let (comps, value) = entry_loop fuel next in
      if is_colon term then (comp ∷ [], next) else (comp ∷ comps, value)

  unfoldable pub group_key : Component F → List (Component F) → Key F
  group_key c [] = one c
  group_key c (d ∷ ds) = many (c ∷ d ∷ ds)

  unfoldable pub group_of : List (Component F) × Text → List (Group F)
  unfolding group_key
  group_of ([], value) = []
  group_of (c ∷ cs, value) = record { key = group_key c cs; value = number value } ∷ []

  -- An empty entry, and one without a component, is passed over. Each round of the loop takes at
  -- least one code unit, so the length is fuel enough.
  unfoldable pub parse_entries : List Text → List (Group F)
  unfolding entry_loop group_of
  parse_entries [] = []
  parse_entries (e ∷ es) = group_of (entry_loop (length e) e) ++ parse_entries es

  unfoldable pub parse_group_by : Text → Result (List (Group F))
  unfolding bracketed items parse_entries
  parse_group_by body = do
    inner ← bracketed (text "groupby result") body
    ok (parse_entries (items inner))
