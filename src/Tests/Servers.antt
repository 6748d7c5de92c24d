-- ===== src/Tests/Servers.antt =====
-- Servers for the tests, and the ways between them and a client.
use mathlib.Core.List.{cons-ne-nil}
use cuttle_db.Prelude.{
  ℕ, length, true, false, inl, inr, Option, none, some, List, [], ◌∷◌, ◌++◌, map, append-nil, ◌≡◌,
  refl, ap, arith, ok, Bool-cases, if◌then◌else◌, All, All-append, Lacks, Text, text, drop, leb,
}
use cuttle_db.Client.OneLine.{flat_map-Lacks}
use cuttle_db.Client.RoundTrip.{Table}
use cuttle_db.Client.Transaction.Atomic.{TxServer}
use cuttle_db.Link.{Server, IsLine, IsServer, direct}
use cuttle_db.Link.Tcp
use cuttle_db.Link.Tcp.{Network, flat, tcp_link}
use cuttle_db.Link.Ws
use cuttle_db.Link.Ws.{Framing, ws_link}
use cuttle_db.Number.{decimal}
use cuttle_db.Client.Send.{words}
use cuttle_db.Text.{starts_with, text_eq}
use cuttle_db.Text.Laws.{join-Lacks}
use cuttle_db.Transport.Router.{fresh_router}
use cuttle_db.Transport.Router.Settles.{fresh-Models}
use cuttle_db.Transport.Tcp.{Tcp, fresh_tcp}
use cuttle_db.Transport.Ws.{Ws}
use cuttle_db.Tests.Client.{
  answer, on_begin, on_commit, on_rollback, Small, small_begins, small_commits, small_rolls_back,
}
use cuttle_db.Wire.Contract.{contract_one, contract_cell, contract_row}
use cuttle_db.Wire.Row.{split_wire_row}
use cuttle_db.Wire.Row.RoundTrip.{split_wire_row-join}

pub contract_one-Lacks : (c : ℕ) → Lacks b'\n' (contract_one c)
unfolding contract_one
contract_one-Lacks c = ground arith

pub contract_cells-Lacks : (row : List Text) → All (Lacks b'\n') (map contract_cell row)
unfolding contract_cell
contract_cells-Lacks [] = tt
contract_cells-Lacks (s ∷ row) =
    (flat_map-Lacks b'\n' contract_one contract_one-Lacks s, contract_cells-Lacks row)

pub contract_row-Lacks : (row : List Text) → Lacks b'\n' (contract_row row)
contract_row-Lacks row =
    join-Lacks b'\n' (b',' ∷ []) (map contract_cell row) (omega arith, tt)
      (contract_cells-Lacks row)

-- The server of one row, which tells the client of each insert.
abbrev pub row_answer : Text → Text → Text × Text
row_answer cmd s =
    if starts_with (text "INSERT 0 0 ") cmd
    then (text "+OK 0", drop 11 cmd)
    else (text "+OK " ++ contract_row (split_wire_row s), s)

abbrev pub row_server : Server Text
row_server = record {
  answer = row_answer;
  events = λ cmd s. if starts_with (text "INSERT 0 0 ") cmd then text ">EVT 0 0 0 INS" ∷ [] else [];
}

-- A line that is no event.
abbrev pub IsAnswer : Text → Type 0
IsAnswer l = (starts_with (text ">EVT ") l ≡ false) × IsLine l

pub row_answer-IsAnswer : (cmd s : Text) → IsAnswer (row_answer cmd s).0
unfolding starts_with
row_answer-IsAnswer cmd s = elim (Bool-cases (starts_with (text "INSERT 0 0 ") cmd)) [
  | inl e ↦ rw e (refl, (omega arith, cons-ne-nil _ _))
  | inr e ↦ rw e (
    refl,
    (
      All-append _ (text "+OK ") _ (omega arith) (contract_row-Lacks (split_wire_row s)),
      cons-ne-nil _ _,
    ),
  )
]

pub row_events :
    (cmd s : Text)
    → All (λ e. starts_with (text ">EVT ") e ≡ true) (row_server.events cmd s)
      × All IsLine (row_server.events cmd s)
unfolding starts_with
row_events cmd s = elim (Bool-cases (starts_with (text "INSERT 0 0 ") cmd)) [
  | inl e ↦ rw e ((refl, tt), ((omega arith, cons-ne-nil _ _), tt))
  | inr e ↦ rw e (tt, tt)
]

pub row_server-IsServer : IsServer row_server
row_server-IsServer = record {
  reply = λ l s. (row_answer-IsAnswer l s).0;
  reply_line = λ l s. (row_answer-IsAnswer l s).1;
  event = λ l s. (row_events l s).0;
  event_line = λ l s. (row_events l s).1;
}

-- Every byte comes alone.
abbrev pub single_bytes : Text → List Text
single_bytes [] = []
single_bytes (c ∷ b) = (c ∷ []) ∷ single_bytes b

pub single_bytes-whole : (b : Text) → flat (single_bytes b) ≡ b
single_bytes-whole [] = refl
single_bytes-whole (c ∷ b) = ap (λ (s : Text). c ∷ s) (single_bytes-whole b)

abbrev pub halting : Network
halting = record { chop = λ b. ([], single_bytes b); whole = single_bytes-whole }

abbrev pub together : Framing
together = record { group = λ ls. ls ∷ []; whole = λ ls. append-nil ls }

pub row_inserts :
    (csv s : Text)
    → (direct row_server).send (words (text "INSERT" ∷ decimal 0 ∷ decimal 0 ∷ csv ∷ [])) s
      ≡ (ok (text "+OK " ++ decimal 0), csv)
unfolding direct starts_with words decimal
row_inserts csv s = refl

pub row_gets :
    (csv s : Text)
    → (direct row_server).send (words (text "GET" ∷ decimal 0 ∷ decimal 0 ∷ decimal 0 ∷ [])) csv
      ≡ (ok (text "+OK " ++ contract_row (split_wire_row csv)), csv)
unfolding direct starts_with words decimal
row_gets csv s = refl

-- The table 0 of handle 0 is the row, with two columns at most.
unfoldable pub row_table : Table (direct row_server) 0 0
unfolding direct
row_table = record {
  decode = split_wire_row;
  decodes = split_wire_row-join;
  accepts = λ csv s. leb (length (split_wire_row csv)) 2;
  row_id = λ csv s. 0;
  row_id_small = λ csv s a. omega arith;
  inserted = λ csv s. csv;
  inserts = λ csv s a. row_inserts csv s;
  gets = λ csv s a. row_gets csv s;
}

abbrev pub open_tcp : Tcp
open_tcp = record fresh_tcp { connected = true }

pub open_tcp-Ready : Tcp.Ready open_tcp
open_tcp-Ready = record { connected = refl; empty = refl; idle = (0, fresh-Models) }

-- The server of transactions, which sends no events.
abbrev pub tx_server : Server Small
tx_server = record { answer = answer; events = λ cmd s. [] }

pub on_begin-IsAnswer : (saved : Option ℕ) (n : ℕ) → IsAnswer (on_begin saved n).0
unfolding starts_with
on_begin-IsAnswer none n = (refl, (omega arith, cons-ne-nil _ _))
on_begin-IsAnswer (some m) n = (refl, (omega arith, cons-ne-nil _ _))

pub on_commit-IsAnswer : (saved : Option ℕ) (n : ℕ) → IsAnswer (on_commit saved n).0
unfolding starts_with
on_commit-IsAnswer none n = (refl, (omega arith, cons-ne-nil _ _))
on_commit-IsAnswer (some m) n = (refl, (omega arith, cons-ne-nil _ _))

pub on_rollback-IsAnswer : (saved : Option ℕ) (n : ℕ) → IsAnswer (on_rollback saved n).0
unfolding starts_with
on_rollback-IsAnswer none n = (refl, (omega arith, cons-ne-nil _ _))
on_rollback-IsAnswer (some m) n = (refl, (omega arith, cons-ne-nil _ _))

pub answer-IsAnswer : (cmd : Text) (s : Small) → IsAnswer (answer cmd s).0
unfolding starts_with
answer-IsAnswer cmd s = elim (Bool-cases (text_eq cmd (text "BEGIN"))) [
  | inl e ↦ rw e (on_begin-IsAnswer s.saved s.value)
  | inr e ↦ elim (Bool-cases (text_eq cmd (text "COMMIT"))) [
    | inl e' ↦ rw (e, e') (on_commit-IsAnswer s.saved s.value)
    | inr e' ↦ elim (Bool-cases (text_eq cmd (text "ROLLBACK"))) [
      | inl e'' ↦ rw (e, e', e'') (on_rollback-IsAnswer s.saved s.value)
      | inr e'' ↦ rw (e, e', e'') (refl, (omega arith, cons-ne-nil _ _))
    ]
  ]
]

pub tx_server-IsServer : IsServer tx_server
tx_server-IsServer = record {
  reply = λ l s. (answer-IsAnswer l s).0;
  reply_line = λ l s. (answer-IsAnswer l s).1;
  event = λ l s. tt;
  event_line = λ l s. tt;
}

unfoldable pub tx_rows : TxServer (direct tx_server) ℕ
unfolding direct
tx_rows = record {
  rows = λ s. s.value;
  snapshot = λ s. s.saved;
  begun = λ s. record s { saved = some s.value };
  begins = small_begins;
  begun_rows = λ s. refl;
  begun_snapshot = λ s. refl;
  committed = λ s. record s { saved = none };
  commits = small_commits;
  committed_rows = λ s. refl;
  committed_snapshot = λ s. refl;
  rolls_back = small_rolls_back;
}

abbrev pub open_ws : Ws
open_ws = record { connected = true; router = fresh_router; calls = [] }

pub open_ws-Ready : Ws.Ready open_ws
open_ws-Ready = record { connected = refl; idle = (0, fresh-Models) }
