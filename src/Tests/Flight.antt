-- ===== src/Tests/Flight.antt =====
-- A command and a batch in flight together over TCP.
use cuttle_db.Prelude.{
  List, [], ◌∷◌, ◌++◌, append-nil, ◌≡◌, refl, sym, arith, length, drop, Text, text,
}
use cuttle_db.Link.Flight.{Call, command, commands, Run, opens, later, sequential}
use cuttle_db.Link.Flight.Fits.{rejected}
use cuttle_db.Link.Flight.Tcp.{call, sent, World, Step, calls, reads, arrives, registers, start}
use cuttle_db.Link.Flight.Tcp.Order.{settles_in_order, settles_all, failure-rejects, finishes}
use cuttle_db.Link.Tcp.{written}
use cuttle_db.Text.{starts_with, join}
use cuttle_db.Tests.Servers.{row_server, row_server-IsServer}
use cuttle_db.Transport.Router.{Log, request, request_batch}
use cuttle_db.Transport.Tcp.Pipeline.{frame}
use cuttle_db.Transport.Tcp.{on_failure, on_event, on_data, send, send_batch}

abbrev pub stores : Text
stores = text "INSERT 0 0 7"

abbrev pub fetches : Text
fetches = text "GET 0 0 0"

abbrev pub two_calls : List Call
two_calls = command stores ∷ commands fetches (fetches ∷ []) ∷ []

abbrev after_call : Call → World Text → World Text
after_call c w = record w { tcp = call c w.tcp; unread = w.unread ++ sent w.tcp (call c w.tcp) }

abbrev listening : World Text
listening = let w = start row_server [] in record w { tcp = on_event 7 w.tcp }

abbrev both_called : World Text
both_called = after_call (commands fetches (fetches ∷ [])) (after_call (command stores) listening)

both_called-Run : Run (Step row_server) (start row_server []) two_calls both_called
unfolding send request join on_event
both_called-Run =
    later (later (later opens (registers 7)) (calls (command stores) refl (omega arith, tt)))
      (calls (commands fetches (fetches ∷ [])) refl (omega arith, (omega arith, tt)))

-- The server reads a line.
abbrev after_read : Text → Text → World Text → World Text
after_read cmd rest w = record w {
  unread = rest;
  flying =
      w.flying ++ frame (row_server.events cmd w.server ++ (row_server.answer cmd w.server).0 ∷ []);
  server = (row_server.answer cmd w.server).1;
}

-- The client gets half of the event that comes before the answer.
abbrev half_arrived : World Text
half_arrived =
    let w = after_read stores (fetches ++ (b'\n' ∷ fetches ++ b'\n' ∷ [])) both_called in
    record w { tcp = on_data (text ">EVT 0 0") w.tcp; flying = drop 8 w.flying }

half_arrived-Run : Run (Step row_server) (start row_server []) two_calls half_arrived
unfolding send send_batch request request_batch join on_event written starts_with
half_arrived-Run =
    later
      (later both_called-Run
        (reads stores (fetches ++ (b'\n' ∷ fetches ++ b'\n' ∷ [])) (omega arith) refl))
      (arrives (text ">EVT 0 0") _ refl)

abbrev all_arrived : World Text
all_arrived =
    let w = after_read fetches [] (after_read fetches (fetches ++ b'\n' ∷ []) half_arrived) in
    record w { tcp = on_data w.flying w.tcp; flying = [] }

all_arrived-Run : Run (Step row_server) (start row_server []) two_calls all_arrived
all_arrived-Run =
    later
      (later (later half_arrived-Run (reads fetches (fetches ++ b'\n' ∷ []) (omega arith) refl))
        (reads fetches [] (omega arith) refl))
      (arrives _ [] (sym (append-nil _)))

settles_in_order_example :
    (half_arrived.tcp.router.created ≡ length two_calls)
    × (coming : Log) × ((sequential row_server 0 two_calls []).0
        ≡ half_arrived.tcp.router.settled ++ coming)
settles_in_order_example = settles_in_order row_server row_server-IsServer [] half_arrived-Run

settles_all_example :
    (all_arrived.tcp.router.settled ≡ (sequential row_server 0 two_calls []).0)
    × (all_arrived.tcp.router.waiters ≡ [])
    × (all_arrived.server ≡ (sequential row_server 0 two_calls []).1)
settles_all_example = settles_all row_server row_server-IsServer [] all_arrived-Run refl refl

finishes_example :
    (w : World Text) × Run (Step row_server) (start row_server []) two_calls w
    × (w.tcp.router.settled ≡ (sequential row_server 0 two_calls []).0)
    × (w.tcp.router.waiters ≡ [])
    × (w.server ≡ (sequential row_server 0 two_calls []).1)
finishes_example = finishes row_server row_server-IsServer [] half_arrived-Run

failure-rejects_example :
    let router = (on_failure (text "gone") half_arrived.tcp).router in
    (router.waiters ≡ [])
    × (coming : Log) × ((sequential row_server 0 two_calls []).0
        ≡ half_arrived.tcp.router.settled ++ coming)
    × (router.settled ≡ half_arrived.tcp.router.settled ++ rejected (text "gone") coming)
failure-rejects_example =
    failure-rejects row_server row_server-IsServer [] (text "gone") half_arrived-Run
