-- ===== src/Client/RoundTrip.antt =====
-- `insert` and `get` over a server that keeps to the escape contract of PROTOCOL.md.
use mathlib.Core.List.{cons-ne-nil}
use cuttle_db.Prelude.{
  ℕ, ◌^◌, ◌<◌, Bool, true, false, List, [], ◌∷◌, ◌++◌, append-nil, map, ◌≡◌, ◌≢◌, refl, ap, ◌∙◌,
  All, ok, Text, text,
}
use cuttle_db.Client.Exec.{Transport, pure}
use cuttle_db.Client.Rows.{insert, insert_command, get}
use cuttle_db.Client.Send.{words, send_ok, unwrap-ok}
use cuttle_db.Number.{Number, int, parse_int, decimal}
use cuttle_db.Number.RoundTrip.{parse_int-decimal}
use cuttle_db.Text.{join}
use cuttle_db.Wire.Contract.{contract_cell, contract_row, contract_cell-Spells}
use cuttle_db.Wire.Escape.{Cell, encode_row}
use cuttle_db.Wire.Row.{split_wire_row}
use cuttle_db.Wire.Row.RoundTrip.{IsClean, shown, encode_value-SpellsAll, split_wire_row-join}
use cuttle_db.Wire.Row.Spelling.{SpellsAll, map-SpellsAll}

-- A table of the server behind a transport, with the rows that it accepts in a state: for instance
-- those with its number of cells, whose cells have its types and keep its constraints. It reads every
-- spelling of a row of at least one cell, answers INSERT of a row that it accepts by the row's
-- number, and GET of that row by the cells, spelled by the contract.
pub record Table {S : Type 0} (t : Transport S) (hid tid : ℕ) : Type 0 where
  pub decode : Text → List Text
  pub decodes : (ws ss : List Text) → SpellsAll ws ss → ss ≢ [] → decode (join (b',' ∷ []) ws) ≡ ss
  pub accepts : Text → S → Bool
  pub row_id : Text → S → ℕ
  pub row_id_small : (csv : Text) (s : S) → accepts csv s ≡ true → row_id csv s < 2 ^ 53
  pub inserted : Text → S → S
  pub inserts :
      (csv : Text) (s : S)
      → accepts csv s ≡ true
      → t.send (words (text "INSERT" ∷ decimal hid ∷ decimal tid ∷ csv ∷ [])) s
        ≡ (ok (text "+OK " ++ decimal (row_id csv s)), inserted csv s)
  pub gets :
      (csv : Text) (s : S)
      → accepts csv s ≡ true
      → t.send
          (words (text "GET" ∷ decimal hid ∷ decimal tid ∷ decimal (row_id csv s) ∷ []))
          (inserted csv s)
        ≡ (ok (text "+OK " ++ contract_row (decode csv)), inserted csv s)

map-shown-ne-nil : (vs : List Cell) → vs ≢ [] → map shown vs ≢ []
map-shown-ne-nil [] ne = absurd (ne refl)
map-shown-ne-nil (v ∷ vs) ne = cons-ne-nil (shown v) (map shown vs)

split_wire_row-contract_row : (ss : List Text) → ss ≢ [] → split_wire_row (contract_row ss) ≡ ss
split_wire_row-contract_row ss ne =
    split_wire_row-join (map contract_cell ss) ss
      (map-SpellsAll contract_cell contract_cell-Spells ss) ne

module _ {S : Type 0} (t : Transport S) (hid tid : ℕ) (v : Table t hid tid) (values : List Cell)
    (s : S) where
  abbrev pub new_row : ℕ
  new_row = v.row_id (encode_row values) s

  abbrev pub behind : S
  behind = v.inserted (encode_row values) s

  -- `insert` returns the number of the new row.
  insert-Table :
      v.accepts (encode_row values) s ≡ true
      → insert t hid tid values s ≡ (ok (int false new_row), behind)
  unfolding insert insert_command
  insert-Table a =
      rw
        (send_ok t _ _ (decimal new_row) s behind (v.inserts (encode_row values) s a)
          (unwrap-ok (decimal new_row)))
        (ap (λ (n : Number). pure n behind) read_back)
    where
      read_back : parse_int (decimal new_row) ≡ int false new_row
      read_back =
          rw append-nil at
            (parse_int-decimal new_row [] (v.row_id_small (encode_row values) s a) tt)

  decoded : values ≢ [] → All IsClean values → v.decode (encode_row values) ≡ map shown values
  unfolding encode_row
  decoded ne clean =
      v.decodes _ _ (encode_value-SpellsAll values clean) (map-shown-ne-nil values ne)

  get-Table :
      v.accepts (encode_row values) s ≡ true
      → values ≢ []
      → All IsClean values
      → get t hid tid new_row behind ≡ (ok (map shown values), behind)
  unfolding get
  get-Table a ne clean =
      rw
        (send_ok t _ _ (contract_row (v.decode (encode_row values))) behind behind
          (v.gets (encode_row values) s a)
          (unwrap-ok (contract_row (v.decode (encode_row values)))))
        (ap (λ (row : List Text). pure row behind)
          (ap (λ (row : List Text). split_wire_row (contract_row row)) (decoded ne clean)
            ∙ split_wire_row-contract_row (map shown values) (map-shown-ne-nil values ne)))

  -- After `insert` of at least one cell, a row that the table accepts, `get` of the row whose number it returned gives the strings
  -- back, whatever they hold, and each vector as its elements joined by bars.
  pub get-insert :
      v.accepts (encode_row values) s ≡ true
      → values ≢ []
      → All IsClean values
      → (insert t hid tid values s ≡ (ok (int false new_row), behind))
        × (get t hid tid new_row behind ≡ (ok (map shown values), behind))
  get-insert a ne clean = (insert-Table a, get-Table a ne clean)
