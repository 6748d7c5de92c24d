-- ===== src/Tests/Link.antt =====
-- The class `CuttleDB` over its transports, with small servers at the other end.
use mathlib.Core.List.{cons-ne-nil}
use cuttle_db.Prelude.{
  ◌⊎◌, ℕ, false, some, List, [], ◌∷◌, ◌++◌, map, ◌≡◌, refl, arith, ok, err, Lacks, Text, text,
}
use cuttle_db.Client.Exec.{Exec}
use cuttle_db.Client.Methods.{transaction_over, get-insert_over}
use cuttle_db.Client.OneLine.{OneLine, commands-OneLine}
use cuttle_db.Client.Queries.{find, find_command}
use cuttle_db.Client.Rows.{
  insert_batch, insert, get, insert_command, update_row_str_command, update_where_str_command,
}
use cuttle_db.Client.Simulation.{Simulates, Carries}
use cuttle_db.Client.Transaction.{transaction}
use cuttle_db.Client.Transaction.Atomic.{Atomic}
use cuttle_db.Link.{direct}
use cuttle_db.Link.BatchInsert.{insert_each, insert_batch-insert_each}
use cuttle_db.Link.Injection.{find-two}
use cuttle_db.Link.Tcp
use cuttle_db.Link.Tcp.{Network, flat, tcp_link}
use cuttle_db.Link.Tcp.Refines.{tcp_link-Carries}
use cuttle_db.Link.Ws
use cuttle_db.Link.Ws.{Framing, ws_link}
use cuttle_db.Link.Ws.Refines.{ws_link-Carries}
use cuttle_db.Number.{int, decimal}
use cuttle_db.Client.Send.{words}
use cuttle_db.Text.{starts_with}
use cuttle_db.Transport.Ws.{Ws}
use cuttle_db.Tests.Client.{Small, at_rest, values}
use cuttle_db.Wire.Row.{split_wire_row}
use cuttle_db.Wire.Escape.{encode_row, Cell, scalar, vector}
use cuttle_db.Wire.Row.RoundTrip.{shown}
use cuttle_db.Tests.Servers.{
  row_answer, row_server, row_server-IsServer, halting, together, row_table, open_tcp,
  open_tcp-Ready, tx_server, tx_server-IsServer, tx_rows, open_ws, open_ws-Ready,
}

tcp_link-Carries_example :
    Carries Tcp.Ready (Lacks b'\n') (tcp_link row_server halting) (direct row_server)
tcp_link-Carries_example = tcp_link-Carries row_server row_server-IsServer halting

ws_link-Carries_example :
    Carries Ws.Ready (Lacks b'\n') (ws_link row_server together) (direct row_server)
ws_link-Carries_example = ws_link-Carries row_server row_server-IsServer together

get-insert_over_example :
    let out = insert (tcp_link row_server halting) 0 0 values (open_tcp, []) in
    (out.0 ≡ ok (int false 0))
    × ((get (tcp_link row_server halting) 0 0 0 out.1).0 ≡ ok (map shown values))
unfolding row_table split_wire_row encode_row
get-insert_over_example =
    get-insert_over Tcp.Ready (tcp_link row_server halting) (direct row_server)
      (tcp_link-Carries row_server row_server-IsServer halting) 0 0 row_table values open_tcp []
      open_tcp-Ready refl (cons-ne-nil _ _) (omega arith) (tt, tt)

abbrev failing : Exec Small ℕ
failing s = (err (text "no"), record s { value = 8 })

-- It changes the rows and throws, whatever the connection.
abbrev failing_over : Exec (Ws × Small) ℕ
failing_over (l, s) = (err (text "no"), (l, record s { value = 8 }))

failing-Simulates : Simulates Ws.Ready failing_over failing
failing-Simulates l s y = record { result = refl; server = refl; ready = y }

transaction_over_example :
    let out = transaction (ws_link tx_server together) failing_over (open_ws, at_rest) in
    Atomic
      (direct tx_server)
      tx_rows
      at_rest
      (failing (record at_rest { saved = some 3 })).1
      (out.0, out.1.1)
    × Ws.Ready out.1.0
unfolding tx_rows
transaction_over_example =
    transaction_over Ws.Ready (ws_link tx_server together) (direct tx_server)
      (ws_link-Carries tx_server tx_server-IsServer together) failing_over failing failing-Simulates
      tx_rows open_ws at_rest open_ws-Ready refl refl

commands-OneLine_example :
    OneLine (insert_command 0 1 (scalar (text "a\nb") ∷ vector (text "1.5" ∷ []) ∷ []))
    × OneLine (update_row_str_command 0 1 2 3 (scalar (text "a\r\nWIPE")))
    × OneLine (update_where_str_command 0 1 3 (scalar (text "a\r\nWIPE")) 4 (text "==") (text "5"))
commands-OneLine_example =
    commands-OneLine 0 1 2 3 4 (scalar (text "a\nb") ∷ vector (text "1.5" ∷ []) ∷ [])
      (scalar (text "a\r\nWIPE")) (text "==") (text "5")
      (tt, (((omega arith, omega arith), tt), tt)) tt (omega arith, omega arith)
      (omega arith, omega arith)

find-two_example :
    (find
      (tcp_link row_server halting)
      0
      0
      0
      (text "x" ++ b'\n' ∷ text "INSERT 0 0 bad")
      (open_tcp, text "good")).1.1
    ≡ (row_answer
        (text "INSERT 0 0 bad")
        (row_answer (find_command 0 0 0 (text "x")) (text "good")).1).1
find-two_example =
    find-two row_server row_server-IsServer halting 0 0 0 (text "x") (text "INSERT 0 0 bad")
      open_tcp (text "good") open_tcp-Ready (omega arith) (omega arith)

find_injects :
    (find
      (tcp_link row_server halting)
      0
      0
      0
      (text "x" ++ b'\n' ∷ text "INSERT 0 0 bad")
      (open_tcp, text "good")).1.1
    ≡ text "bad"
unfolding find_command starts_with words decimal
find_injects = find-two_example

abbrev two_rows : List (List Cell)
two_rows = values ∷ (scalar (text "a") ∷ scalar (text "b\n") ∷ []) ∷ []

insert_batch-insert_each_example :
    let (batch, (l, s)) = insert_batch (tcp_link row_server halting) 0 0 two_rows (open_tcp, []) in
    let (each, s') = insert_each (direct row_server) 0 0 two_rows [] in
    (batch ≡ each) × (((e : Text) × (each ≡ err e)) ⊎ (s ≡ s')) × Tcp.Ready l
insert_batch-insert_each_example =
    insert_batch-insert_each Tcp.Ready (tcp_link row_server halting) row_server
      (tcp_link-Carries row_server row_server-IsServer halting) 0 0 values
      ((scalar (text "a") ∷ scalar (text "b\n") ∷ []) ∷ []) open_tcp [] open_tcp-Ready
      ((tt, tt), ((tt, (tt, tt)), tt))
