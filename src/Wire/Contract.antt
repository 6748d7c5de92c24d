-- ===== src/Wire/Contract.antt =====
-- The escape contract of PROTOCOL.md, by which the server writes a STRING cell: five code units are
-- escaped. An independent description of what the readers of adapters/cuttledb.js are to undo.
use mathlib.Core.List.{flat_map}
use cuttle_db.Prelude.{
  ℕ, ◌||◌, [], ◌∷◌, ◌++◌, ◌≢◌, inl, inr, arith, ◌==◌, if◌then◌else◌, Bool-cases, List, map, Text,
}
use cuttle_db.Text.{join}
use cuttle_db.Wire.Row.{unescape}
use cuttle_db.Wire.Row.Spelling.{SpellsOne, letter, Spells, flat_map-Spells}

unfoldable pub contract_one : ℕ → Text
contract_one c =
    if c == b'\\' || c == b',' || c == b';' || c == b'\r' || c == b'\n'
    then b'\\' ∷ letter c ∷ []
    else c ∷ []

unfoldable pub contract_cell : Text → Text
unfolding contract_one flat_map
contract_cell = flat_map contract_one

abbrev pub contract_row : List Text → Text
contract_row row = join (b',' ∷ []) (map contract_cell row)

-- A row list as the server prints it, without its brackets.
unfoldable pub contract_rows : List (List Text) → Text
unfolding contract_cell join
contract_rows rows = join (b';' ∷ []) (map contract_row rows)

-- A text in which no semicolon stands bare.
pub data Guarded : Text → Type 0 where
  nil : Guarded []
  plain : {c : ℕ} {w : Text} → c ≢ b'\\' → c ≢ b';' → Guarded w → Guarded (c ∷ w)
  escaped : {w : Text} (e : ℕ) → Guarded w → Guarded (b'\\' ∷ e ∷ w)

contract_one-SpellsOne : (c : ℕ) → SpellsOne (contract_one c) c
unfolding contract_one unescape
contract_one-SpellsOne c =
    elim (Bool-cases (c == b'\\' || c == b',' || c == b';' || c == b'\r' || c == b'\n')) [
      | inl special ↦ inr (letter c, ground arith, ground arith)
      | inr other ↦ inl (ground arith, ground arith, ground arith)
    ]

pub contract_cell-Spells : (s : Text) → Spells (contract_cell s) s
unfolding contract_cell
contract_cell-Spells s = flat_map-Spells contract_one contract_one-SpellsOne s

pub Guarded-append : {v w : Text} → Guarded v → Guarded w → Guarded (v ++ w)
Guarded-append nil k = k
Guarded-append (plain p q h) k = plain p q (Guarded-append h k)
Guarded-append (escaped e h) k = escaped e (Guarded-append h k)

contract_one-Guarded : (c : ℕ) → Guarded (contract_one c)
unfolding contract_one
contract_one-Guarded c =
    elim (Bool-cases (c == b'\\' || c == b',' || c == b';' || c == b'\r' || c == b'\n')) [
      | inl special ↦ rw special (escaped (letter c) nil)
      | inr other ↦ rw other (plain (ground arith) (ground arith) nil)
    ]

pub contract_cell-Guarded : (s : Text) → Guarded (contract_cell s)
unfolding contract_cell flat_map
contract_cell-Guarded [] = nil
contract_cell-Guarded (c ∷ s) = Guarded-append (contract_one-Guarded c) (contract_cell-Guarded s)

pub contract_row-Guarded : (row : List Text) → Guarded (contract_row row)
unfolding join
contract_row-Guarded [] = nil
contract_row-Guarded (s ∷ []) = contract_cell-Guarded s
contract_row-Guarded (s ∷ t ∷ row) =
    Guarded-append (contract_cell-Guarded s)
      (plain (λ e. omega (arith, e)) (λ e. omega (arith, e)) (contract_row-Guarded (t ∷ row)))
