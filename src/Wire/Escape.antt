-- ===== src/Wire/Escape.antt =====
-- `encodeValue` of adapters/cuttledb.js, and the text of an `INSERT` row.
use mathlib.Core.List.{flat_map}
use cuttle_db.Prelude.{
  ℕ, List, [], ◌∷◌, ◌++◌, map, ◌≡◌, refl, ◌∙◌, arith, ◌==◌, if◌then◌else◌, Text,
}
use cuttle_db.Text.{join, replace_all}
use cuttle_db.Text.Laws.{replace_all-append}

-- A cell value, by the strings that `String` gives for it: a vector by those of its elements.
pub data Cell : Type 0 where
  scalar : Text → Cell
  vector : List Text → Cell

-- The four passes of `replaceAll`, the backslash first.
unfoldable pub escape : Text → Text
unfolding replace_all
escape s = replace_all b'\n' (b'\\' ∷ b'n' ∷ []) (
    replace_all b'\r' (b'\\' ∷ b'r' ∷ [])
      (replace_all b',' (b'\\' ∷ b',' ∷ []) (replace_all b'\\' (b'\\' ∷ b'\\' ∷ []) s)))

unfoldable pub encode_value : Cell → Text
unfolding escape join
encode_value (vector vs) = join (b'|' ∷ []) vs
encode_value (scalar s) = escape s

-- `values.map(encodeValue).join(",")`.
unfoldable pub encode_row : List Cell → Text
unfolding encode_value
encode_row values = join (b',' ∷ []) (map encode_value values)

-- What the four passes together make of one code unit.
unfoldable pub hide : ℕ → Text
hide c =
    if c == b'\\'
    then b'\\' ∷ b'\\' ∷ []
    else if c == b','
    then b'\\' ∷ b',' ∷ []
    else if c == b'\r'
    then b'\\' ∷ b'r' ∷ []
    else if c == b'\n'
    then b'\\' ∷ b'n' ∷ []
    else c ∷ []

escape-append : (s t : Text) → escape (s ++ t) ≡ escape s ++ escape t
unfolding escape
escape-append s t = unfold escape in simp replace_all-append

escape_one : (c : ℕ) → escape (c ∷ []) ≡ hide c
unfolding escape hide
escape_one c = ground arith

-- No pass touches what an earlier pass wrote: the passes are one substitution.
pub escape-hide : (s : Text) → escape s ≡ flat_map hide s
unfolding flat_map
escape-hide [] = unfold escape in refl
escape-hide (c ∷ s) = escape-append (c ∷ []) s ∙ rw (escape_one, escape-hide s)
