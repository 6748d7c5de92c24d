-- ===== src/Wire/Rowlist/RoundTrip.antt =====
-- `parseRowlist` reads back every row list that follows the escape contract.
use mathlib.Core.List.{flat_map}
use cuttle_db.Prelude.{
  ℕ, List, [], ◌∷◌, ◌++◌, map, append_assoc, append-nil, ◌≡◌, ◌≢◌, refl, ◌∙◌, arith, All, ok, Text,
  text,
}
use cuttle_db.Text.{join}
use cuttle_db.Text.Laws.{join-ne-nil}
use cuttle_db.Wire.Body.{bracketed_lem}
use cuttle_db.Wire.Contract.{
  contract_one, contract_cell, contract_row, contract_rows, Guarded, nil, plain, escaped,
  contract_cell-Spells, contract_row-Guarded,
}
use cuttle_db.Wire.Row.{split_wire_row}
use cuttle_db.Wire.Row.RoundTrip.{split_wire_row-join}
use cuttle_db.Wire.Row.Spelling.{map-SpellsAll}
use cuttle_db.Wire.Rowlist.{rows_loop, split_wire_rows, rows_of, parse_rowlist}

module _ (out : List Text) (cur : Text) where
  rows_loop_plain :
      (c : ℕ) (s : Text)
      → c ≢ b'\\'
      → c ≢ b';'
      → rows_loop (c ∷ s) out cur ≡ rows_loop s out (cur ++ c ∷ [])
  unfolding rows_loop
  rows_loop_plain c [] p q = ground arith
  rows_loop_plain c (e ∷ s) p q = ground arith

  rows_loop_semicolon : (s : Text) → rows_loop (b';' ∷ s) out cur ≡ rows_loop s (out ++ cur ∷ []) []
  unfolding rows_loop
  rows_loop_semicolon [] = refl
  rows_loop_semicolon (e ∷ s) = refl

  rows_loop_escaped :
      (e : ℕ) (s : Text)
      → rows_loop (b'\\' ∷ e ∷ s) out cur ≡ rows_loop s out (cur ++ b'\\' ∷ e ∷ [])
  unfolding rows_loop
  rows_loop_escaped e s = refl

rows_loop-Guarded :
    {w : Text} (out : List Text) (cur rest : Text)
    → Guarded w
    → rows_loop (w ++ rest) out cur ≡ rows_loop rest out (cur ++ w)
rows_loop-Guarded out cur rest nil = rw append-nil
rows_loop-Guarded out cur rest (plain {c} {w} p q h) =
    rows_loop_plain out cur c (w ++ rest) p q
    ∙ rows_loop-Guarded out (cur ++ c ∷ []) rest h
    ∙ rw append_assoc
rows_loop-Guarded out cur rest (escaped {w} e h) =
    rows_loop_escaped out cur e (w ++ rest)
    ∙ rows_loop-Guarded out (cur ++ b'\\' ∷ e ∷ []) rest h
    ∙ rw append_assoc

rows_loop_end : (out : List Text) (cur : Text) → rows_loop [] out cur ≡ out ++ cur ∷ []
unfolding rows_loop
rows_loop_end out cur = refl

rows_loop-join :
    (f : List Text → Text)
    → ((row : List Text) → Guarded (f row))
    → (row : List Text) (rows : List (List Text)) (out : List Text)
    → rows_loop (join (b';' ∷ []) (map f (row ∷ rows))) out [] ≡ out ++ map f (row ∷ rows)
unfolding join
rows_loop-join f g row [] out =
    rw append-nil at (rows_loop-Guarded out [] [] (g row) ∙ rows_loop_end out (f row))
rows_loop-join f g row (next ∷ rows) out =
    rows_loop-Guarded out [] _ (g row)
    ∙ rows_loop_semicolon out (f row) _
    ∙ rows_loop-join f g next rows (out ++ f row ∷ [])
    ∙ rw append_assoc

map-split_wire_row :
    (rows : List (List Text))
    → All (λ row. row ≢ []) rows
    → map split_wire_row (map contract_row rows) ≡ rows
map-split_wire_row [] h = refl
map-split_wire_row (row ∷ rows) h = rw (
  split_wire_row-join _ row (map-SpellsAll contract_cell contract_cell-Spells row) h.0,
  map-split_wire_row rows h.1,
)

rows_of-ne-nil : (s : Text) → s ≢ [] → rows_of s ≡ map split_wire_row (split_wire_rows s)
rows_of-ne-nil [] ne = absurd (ne refl)
rows_of-ne-nil (c ∷ s) ne = unfold rows_of in refl

contract_cell-ne-nil : (c : ℕ) (s : Text) → contract_cell (c ∷ s) ≢ []
unfolding contract_cell contract_one flat_map
contract_cell-ne-nil c s = ground arith

contract_rows-ne-nil :
    (row : List Text) (rows : List (List Text))
    → row ≢ []
    → row ∷ rows ≢ ([] ∷ []) ∷ []
    → contract_rows (row ∷ rows) ≢ []
unfolding contract_rows
contract_rows-ne-nil row (r ∷ rows) p q =
    join-ne-nil b';' _ (contract_row r) (map contract_row rows)
contract_rows-ne-nil [] [] p q = absurd (p refl)
contract_rows-ne-nil (t ∷ u ∷ row) [] p q =
    join-ne-nil b',' _ (contract_cell u) (map contract_cell row)
contract_rows-ne-nil ((c ∷ s) ∷ []) [] p q = contract_cell-ne-nil c s
contract_rows-ne-nil ([] ∷ []) [] p q = absurd (q refl)

split_wire_rows-contract_rows :
    (row : List Text) (rows : List (List Text))
    → split_wire_rows (contract_rows (row ∷ rows)) ≡ map contract_row (row ∷ rows)
unfolding split_wire_rows contract_rows
split_wire_rows-contract_rows row rows =
    rows_loop-join contract_row contract_row-Guarded row rows []

-- A row list printed by the escape contract is read back, whatever its cells hold, if each row has
-- a cell. The one exception is the list whose only row is one empty cell: it prints as `[]`.
pub parse_rowlist-contract_rows :
    (rows : List (List Text))
    → All (λ row. row ≢ []) rows
    → rows ≢ ([] ∷ []) ∷ []
    → parse_rowlist (b'[' ∷ (contract_rows rows ++ b']' ∷ [])) ≡ ok rows
unfolding parse_rowlist
parse_rowlist-contract_rows [] h ne = unfold contract_rows in refl
parse_rowlist-contract_rows (row ∷ rows) h ne = rw (
  bracketed_lem (text "row list") (contract_rows (row ∷ rows)),
  rows_of-ne-nil _ (contract_rows-ne-nil row rows h.0 ne),
  split_wire_rows-contract_rows row rows,
  map-split_wire_row (row ∷ rows) h,
)
