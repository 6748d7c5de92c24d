-- ===== src/Tests/Client.antt =====
-- The class `CuttleDB` over small servers.
use cuttle_db.Prelude.{
  ℕ, false, ◌⊎◌, inl, Option, some, none, List, [], ◌∷◌, ◌++◌, map, drop, ◌≡◌, refl, arith, ok, err,
  if◌then◌else◌, Text, text, leb, length,
}
use cuttle_db.Client.Exec.{Exec, Transport}
use cuttle_db.Client.KeyValues.{print_pairs, info-print_pairs}
use cuttle_db.Client.Schema.{Properties, info}
use cuttle_db.Client.Rows.{insert, get}
use cuttle_db.Client.RoundTrip.{Table, behind, get-insert}
use cuttle_db.Client.Send.{words}
use cuttle_db.Client.Transaction.{transaction}
use cuttle_db.Client.Transaction.Atomic.{TxServer, Atomic, transaction-Atomic}
use cuttle_db.Number.{int, decimal}
use cuttle_db.Text.{text_eq, starts_with}
use cuttle_db.Wire.Contract.{contract_row}
use cuttle_db.Wire.Escape.{encode_row, Cell, scalar}
use cuttle_db.Wire.Row.{split_wire_row}
use cuttle_db.Wire.Row.RoundTrip.{shown, split_wire_row-join}

-- A server with one number for its rows, and transactions.
pub record Small : Type 0 where
  pub value : ℕ
  pub saved : Option ℕ

abbrev pub on_begin : Option ℕ → ℕ → Text × Small
on_begin none n = (text "+OK", record { value = n; saved = some n })
on_begin (some m) n = (text "-ERR already in tx", record { value = n; saved = some m })

abbrev pub on_commit : Option ℕ → ℕ → Text × Small
on_commit (some m) n = (text "+OK 1", record { value = n; saved = none })
on_commit none n = (text "-ERR not in tx", record { value = n; saved = none })

abbrev pub on_rollback : Option ℕ → ℕ → Text × Small
on_rollback (some m) n = (text "+OK 1", record { value = m; saved = none })
on_rollback none n = (text "-ERR not in tx", record { value = n; saved = none })

abbrev pub answer : Text → Small → Text × Small
answer cmd s =
    if text_eq cmd (text "BEGIN")
    then on_begin s.saved s.value
    else if text_eq cmd (text "COMMIT")
    then on_commit s.saved s.value
    else if text_eq cmd (text "ROLLBACK")
    then on_rollback s.saved s.value
    else (text "-ERR bad", s)

abbrev small : Transport Small
small = record {
  send = λ cmd s. let (out, s') = answer cmd s in (ok out, s');
  send_batch = λ cmds s. (ok [], s);
}

pub small_begins :
    (s : Small)
    → s.saved ≡ none
    → small.send (text "BEGIN") s ≡ (ok (text "+OK"), record s { saved = some s.value })
unfolding text_eq
small_begins s h = ground arith

pub small_commits :
    (s : Small) (old : ℕ)
    → s.saved ≡ some old
    → ((n : Text) × (small.send (text "COMMIT") s
          ≡ (ok (text "+OK " ++ n), record s { saved = none })))
      ⊎ ((e : Text) × (small.send (text "COMMIT") s ≡ (ok (text "-ERR " ++ e), s)))
unfolding text_eq
small_commits s old h = inl (text "1", ground arith)

pub small_rolls_back :
    (s : Small) (old : ℕ)
    → s.saved ≡ some old
    → ((small.send (text "ROLLBACK") s).1.value ≡ old)
      × ((small.send (text "ROLLBACK") s).1.saved ≡ none)
unfolding text_eq
small_rolls_back s old h = ground arith

abbrev small_server : TxServer small ℕ
small_server = record {
  rows = λ s. s.value;
  snapshot = λ s. s.saved;
  begun = λ s. record s { saved = some s.value };
  begins = small_begins;
  begun_rows = λ s. refl;
  begun_snapshot = λ s. refl;
  committed = λ s. record s { saved = none };
  commits = small_commits;
  committed_rows = λ s. refl;
  committed_snapshot = λ s. refl;
  rolls_back = small_rolls_back;
}

abbrev pub at_rest : Small
at_rest = record { value = 3; saved = none }

-- It changes the rows and throws.
abbrev failing : Exec Small ℕ
failing s = (err (text "no"), record s { value = 8 })

transaction-Atomic_example :
    Atomic small small_server at_rest
      (record at_rest { value = 8; saved = some 3 })
      (transaction small failing at_rest)
transaction-Atomic_example = transaction-Atomic small small_server failing at_rest refl refl

transaction_runs : transaction small failing at_rest ≡ (err (text "no"), at_rest)
unfolding transaction text_eq
transaction_runs = refl

-- A server with one row.
abbrev pub one_row : Transport Text
one_row = record {
  send = λ cmd s.
      if starts_with (text "INSERT 0 0 ") cmd
      then (ok (text "+OK 0"), drop 11 cmd)
      else (ok (text "+OK " ++ contract_row (split_wire_row s)), s);
  send_batch = λ cmds s. (ok [], s);
}

pub one_row_inserts :
    (csv s : Text)
    → one_row.send (words (text "INSERT" ∷ decimal 0 ∷ decimal 0 ∷ csv ∷ [])) s
      ≡ (ok (text "+OK " ++ decimal 0), csv)
unfolding words decimal starts_with
one_row_inserts csv s = refl

pub one_row_gets :
    (csv s : Text)
    → one_row.send (words (text "GET" ∷ decimal 0 ∷ decimal 0 ∷ decimal 0 ∷ [])) csv
      ≡ (ok (text "+OK " ++ contract_row (split_wire_row csv)), csv)
unfolding words decimal starts_with
one_row_gets csv s = refl

abbrev pub one_row_table : Table one_row 0 0
one_row_table = record {
  decode = split_wire_row;
  decodes = split_wire_row-join;
  accepts = λ csv s. leb (length (split_wire_row csv)) 2;
  row_id = λ csv s. 0;
  row_id_small = λ csv s a. omega arith;
  inserted = λ csv s. csv;
  inserts = λ csv s a. one_row_inserts csv s;
  gets = λ csv s a. one_row_gets csv s;
}

abbrev pub values : List Cell
values = scalar (text "x,y\n") ∷ []

row_comes_back :
    (insert one_row 0 0 values [] ≡ (ok (int false 0), behind one_row 0 0 one_row_table values []))
    × (get one_row 0 0 0 (behind one_row 0 0 one_row_table values [])
        ≡ (ok (map shown values), behind one_row 0 0 one_row_table values []))
unfolding split_wire_row encode_row
row_comes_back = get-insert one_row 0 0 one_row_table values [] refl (cc) (omega arith)

-- A server that answers everything by its description.
abbrev description : Properties
description = (text "version", text "1.0") ∷ (text "motto", text "a=b") ∷ (text "note", []) ∷ []

abbrev describing : Transport ℕ
describing = record {
  send = λ cmd s. (ok (text "+OK " ++ print_pairs description), s);
  send_batch = λ cmds s. (ok [], s);
}

info-print_pairs_example : info describing 5 ≡ (ok description, 5)
unfolding text_eq
info-print_pairs_example =
    info-print_pairs describing description 5 5
      (
        (omega arith, omega arith, omega arith, refl),
        ((omega arith, omega arith, omega arith, refl), ((omega arith, omega arith, tt, refl), tt)),
      )
      ((refl, (refl, tt)), ((refl, tt), (tt, tt))) refl
