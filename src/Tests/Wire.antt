-- ===== src/Tests/Wire.antt =====
-- The readers and writers of the wire format at concrete inputs.
use cuttle_db.Prelude.{◌++◌, false, true, List, [], ◌∷◌, ◌≡◌, refl, arith, ok, err, map, Text, text}
use cuttle_db.Number.{nan, int, is_digit, parse_int, decimal}
use cuttle_db.Number.RoundTrip.{parse_int-decimal}
use cuttle_db.Wire.Contract.{contract_rows}
use cuttle_db.Wire.Escape.{Cell, scalar, vector, encode_row}
use cuttle_db.Wire.Row.{split_wire_row}
use cuttle_db.Wire.Row.RoundTrip.{shown, split_wire_row-encode_row}
use cuttle_db.Wire.Rowlist.{parse_rowlist}
use cuttle_db.Wire.Rowlist.RoundTrip.{parse_rowlist-contract_rows}

parse_int_runs :
    (parse_int (text " -12x") ≡ int true 12)
    × (parse_int (text "x") ≡ nan)
    × (parse_int (text "+7") ≡ int false 7)
    × (parse_int (text "-0") ≡ int true 0)
    × (parse_int (text "9007199254740993") ≡ int false 9007199254740992)
unfolding parse_int
parse_int_runs = (refl, refl, refl, refl, refl)

decimal_runs : decimal 1024 ≡ text "1024"
unfolding decimal
decimal_runs = refl

abbrev cells : List Cell
cells = scalar (text "a,b\\;\r\n") ∷ vector (text "1" ∷ text "0.5" ∷ []) ∷ scalar [] ∷ []

encode_row_runs : encode_row cells ≡ text "a\\,b\\\\;\\r\\n,1|0.5,"
unfolding encode_row
encode_row_runs = refl

split_wire_row_runs : split_wire_row (text "a\\q,\\n\\") ≡ text "aq" ∷ text "\n\\" ∷ []
unfolding split_wire_row
split_wire_row_runs = refl

parse_rowlist_runs :
    (parse_rowlist (text "[a,1;b\\;,2]")
      ≡ ok ((text "a" ∷ text "1" ∷ []) ∷ (text "b;" ∷ text "2" ∷ []) ∷ []))
    × (parse_rowlist (text "[]") ≡ ok [])
    × (parse_rowlist (text "x]") ≡ err (text "bad row list: x]"))
unfolding parse_rowlist
parse_rowlist_runs = (refl, refl, refl)

parse_int-decimal_example : parse_int (decimal 1024 ++ text ";7") ≡ int false 1024
unfolding is_digit
parse_int-decimal_example = parse_int-decimal 1024 (text ";7") (omega arith) refl

split_wire_row-encode_row_example : split_wire_row (encode_row cells) ≡ map shown cells
split_wire_row-encode_row_example = split_wire_row-encode_row cells (cc) (omega arith)

abbrev rows : List (List Text)
rows = (text "a;b" ∷ text "\\" ∷ []) ∷ ([] ∷ []) ∷ []

parse_rowlist-contract_rows_example :
    parse_rowlist (b'[' ∷ (contract_rows rows ++ b']' ∷ [])) ≡ ok rows
parse_rowlist-contract_rows_example = parse_rowlist-contract_rows rows ((cc), ((cc), tt)) (cc)
