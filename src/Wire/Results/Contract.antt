-- ===== src/Wire/Results/Contract.antt =====
-- How the server writes the answers that Wire/Results reads, after PROTOCOL.md: items with
-- semicolons between them, in brackets. A row that is missing on one side of a join is -1.
use cuttle_db.Prelude.{true, false, ℕ, List, [], ◌∷◌, ◌++◌, Option, none, some, Text, text}
use cuttle_db.Number.{Number, int, decimal}
use cuttle_db.Text.{join}

abbrev pub in_brackets : List Text → Text
in_brackets items = b'[' ∷ (join (b';' ∷ []) items ++ b']' ∷ [])

unfoldable pub side : Option ℕ → Text
unfolding decimal
side none = text "-1"
side (some n) = decimal n

-- The number that stands for one side of a joined pair.
unfoldable pub side_number : Option ℕ → Number
side_number none = int true 1
side_number (some n) = int false n

unfoldable pub pair : Option ℕ × Option ℕ → Text
unfolding side
pair (l, r) = side l ++ (b',' ∷ side r)

unfoldable pub scored : {F : Type 0} → (F → Text) → ℕ × F → Text
unfolding decimal
scored print_float (n, f) = decimal n ++ (b':' ∷ print_float f)

unfoldable pub logged : ℕ × (ℕ × Text) → Text
unfolding decimal
logged (ts, (n, op)) = decimal ts ++ (b':' ∷ (decimal n ++ (b':' ∷ op)))
