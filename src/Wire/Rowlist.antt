-- ===== src/Wire/Rowlist.antt =====
-- `splitWireRows` and `parseRowlist` of adapters/cuttledb.js.
pub mod RoundTrip
use cuttle_db.Prelude.{
  true, false, List, [], ◌∷◌, ◌++◌, map, ◌==◌, if◌then◌else◌, Result, ok, ◌>>=◌, Text, text,
}
use cuttle_db.Wire.Body.{bracketed}
use cuttle_db.Wire.Row.{split_wire_row}

abbrev finish : List Text → Text → List Text
finish out cur = out ++ cur ∷ []

-- An escape is copied as it stands, for `splitWireRow` to decode.
unfoldable pub rows_loop : Text → List Text → Text → List Text
rows_loop [] out cur = finish out cur
rows_loop (c ∷ []) out cur =
    if c == b';' then finish (out ++ cur ∷ []) [] else finish out (cur ++ c ∷ [])
rows_loop (c ∷ esc ∷ s) out cur = elim (c == b'\\') [
  | true ↦ rows_loop s out (cur ++ c ∷ esc ∷ [])
  | false ↦ elim (c == b';') [
    | true ↦ rows_loop (esc ∷ s) (out ++ cur ∷ []) []
    | false ↦ rows_loop (esc ∷ s) out (cur ++ c ∷ [])
  ]
]

unfoldable pub split_wire_rows : Text → List Text
unfolding rows_loop
split_wire_rows s = rows_loop s [] []

-- `if (!inner) return []`, and the two splits.
unfoldable pub rows_of : Text → List (List Text)
unfolding split_wire_rows split_wire_row
rows_of [] = []
rows_of (c ∷ s) = map split_wire_row (split_wire_rows (c ∷ s))

unfoldable pub parse_rowlist : Text → Result (List (List Text))
unfolding bracketed rows_of
parse_rowlist body = do inner ← bracketed (text "row list") body; ok (rows_of inner)
