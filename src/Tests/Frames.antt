-- ===== src/Tests/Frames.antt =====
-- A command and a batch in flight together over a WebSocket.
use cuttle_db.Prelude.{List, [], ◌∷◌, ◌++◌, ◌≡◌, refl, length, Text, text}
use cuttle_db.Link.Flight.{Call, command, commands, Run, opens, later, sequential}
use cuttle_db.Link.Flight.Fits.{rejected}
use cuttle_db.Link.Flight.Ws.{call, sent, World, Step, calls, reads, frames, arrives, start}
use cuttle_db.Link.Flight.Ws.Order.{closing-rejects, frames_settle_all}
use cuttle_db.Link.Ws as Link
use cuttle_db.Text.{starts_with}
use cuttle_db.Tests.Flight.{stores, fetches, two_calls}
use cuttle_db.Tests.Servers.{row_server, row_server-IsServer}
use cuttle_db.Transport.Router.{Log, request, request_batch}
use cuttle_db.Transport.Tcp.Pipeline.{frame}
use cuttle_db.Transport.Ws.{on_close, on_message, send, send_batch}

abbrev after_call : Call → World Text → World Text
after_call c w = record w { ws = call c w.ws; unread = w.unread ++ sent w.ws (call c w.ws) }

abbrev both_called : World Text
both_called =
    after_call (commands fetches (fetches ∷ [])) (after_call (command stores) (start row_server []))

both_called-Run : Run (Step row_server) (start row_server []) two_calls both_called
unfolding send request
both_called-Run =
    later (later opens (calls (command stores) refl)) (calls (commands fetches (fetches ∷ [])) refl)

-- The server reads a frame.
abbrev after_read : Text → List Text → World Text → World Text
after_read cmd rest w = record w {
  unread = rest;
  unsent = w.unsent ++ (row_server.events cmd w.server ++ (row_server.answer cmd w.server).0 ∷ []);
  server = (row_server.answer cmd w.server).1;
}

abbrev all_read : World Text
all_read =
    after_read fetches []
      (after_read fetches (fetches ∷ []) (after_read stores (fetches ∷ fetches ∷ []) both_called))

all_read-Run : Run (Step row_server) (start row_server []) two_calls all_read
unfolding send send_batch request request_batch Link.commands
all_read-Run =
    later
      (later (later both_called-Run (reads stores (fetches ∷ fetches ∷ []) refl))
        (reads fetches (fetches ∷ []) refl))
      (reads fetches [] refl)

-- The first frame has the event and the first answer, and the second those of the batch.
abbrev half_arrived : World Text
half_arrived =
    let first = text ">EVT 0 0 0 INS" ∷ text "+OK 0" ∷ [] in
    let rest =
      ((row_server.answer fetches (text "7")).0 ∷ (row_server.answer fetches (text "7")).0 ∷ []) in
    record all_read { ws = on_message (frame first) all_read.ws; unsent = []; flying = rest ∷ [] }

half_arrived-Run : Run (Step row_server) (start row_server []) two_calls half_arrived
unfolding starts_with
half_arrived-Run =
    later
      (later (later all_read-Run (frames (text ">EVT 0 0 0 INS" ∷ text "+OK 0" ∷ []) _ refl))
        (frames _ [] refl))
      (arrives (text ">EVT 0 0 0 INS" ∷ text "+OK 0" ∷ []) _ refl)

abbrev all_arrived : World Text
all_arrived = record half_arrived {
  ws =
      on_message
        (frame (
          (row_server.answer fetches (text "7")).0 ∷ (row_server.answer fetches (text "7")).0 ∷ []))
        half_arrived.ws;
  flying = [];
}

all_arrived-Run : Run (Step row_server) (start row_server []) two_calls all_arrived
all_arrived-Run = later half_arrived-Run (arrives _ [] refl)

closing-rejects_example :
    let router = (on_close half_arrived.ws).router in
    (half_arrived.ws.router.created ≡ length two_calls)
    × (router.waiters ≡ [])
    × (coming : Log) × ((sequential row_server 0 two_calls []).0
        ≡ half_arrived.ws.router.settled ++ coming)
    × (router.settled ≡ half_arrived.ws.router.settled ++ rejected (text "WebSocket closed") coming)
closing-rejects_example = closing-rejects row_server row_server-IsServer [] half_arrived-Run

frames_settle_all_example :
    (all_arrived.ws.router.settled ≡ (sequential row_server 0 two_calls []).0)
    × (all_arrived.ws.router.waiters ≡ [])
    × (all_arrived.server ≡ (sequential row_server 0 two_calls []).1)
frames_settle_all_example =
    frames_settle_all row_server row_server-IsServer [] all_arrived-Run refl refl refl
