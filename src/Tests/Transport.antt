-- ===== src/Tests/Transport.antt =====
-- The transports at concrete inputs.
use cuttle_db.Prelude.{
  ℕ, none, ok, err, true, false, ◌||◌, some, List, [], ◌∷◌, ◌++◌, ◌≡◌, refl, arith, Text, text,
  ◌==◌, map,
}
use cuttle_db.Number.{int, parse_int}
use cuttle_db.Text.{split, starts_with}
use cuttle_db.Transport.Router.{
  fresh_router, line, lines, failed, request_batch, is_settled, route, strip_cr, member,
  add_listener, remove_listener, without, broadcast,
}
use cuttle_db.Number.{nan, int, parse_int}
use cuttle_db.Transport.Tcp.Throws.{on_data_or_throw, on_data_or_throw-first}
use cuttle_db.Transport.Router.Events.{
  read_event, Happening, acts, listens, unlistens, happen, happen_all, calls_of, follow, Distinct,
}
use cuttle_db.Transport.Router.Hears.{happen_all-hears}
use cuttle_db.Transport.Router.Lost.{empty_batch_hangs}
use cuttle_db.Transport.Router.Pending.{Agrees}
use cuttle_db.Transport.Router.Queue.{
  Action, ask, ask_batch, arrive, break, act_all, perform, perform_all,
}
use cuttle_db.Transport.Router.Refines.{perform_all-Agrees}
use cuttle_db.Transport.Router.Settles.{
  idle, fresh-Models, has_waiter, settled_or_waiting, break-settles,
}
use cuttle_db.Transport.Tcp
use cuttle_db.Transport.Tcp.{Tcp, on_data, send_batch, fresh_tcp}
use cuttle_db.Transport.Tcp.Pipeline.{frame, send_batch-on_data}
use cuttle_db.Transport.Tcp.{write, on_failure}
use cuttle_db.Transport.Tcp.Closed.{
  Use, sends, batches, registers, closes, use_all, send-on_failure,
}
use cuttle_db.Transport.Tcp.Stream.{process, trimmed, on_data-split, on_data-append}
use cuttle_db.Transport.Tcp.{route_stripped}
use cuttle_db.Client.Session.{on}
use cuttle_db.Transport.Connect.{
  TcpEvent, tcp_attempt, tcp_run, FrameData, WsEvent, ws_event, ws_run,
}
use cuttle_db.Transport.Connect.First.{connect-first}
use cuttle_db.Transport.Ws
use cuttle_db.Transport.Ws.{Ws, on_message}
use cuttle_db.Transport.Ws.Frames.{on_message-on_data}

abbrev open_tcp : Tcp
open_tcp = record fresh_tcp { connected = true }

abbrev open_ws : Ws
open_ws = record { connected = true; router = fresh_router; calls = [] }

-- A single command, then a batch of two; an event comes between their replies.
abbrev asked : Tcp
asked =
    (send_batch (text "PING" ∷ text "COUNT 0 0" ∷ [])
      (Tcp.on_event 9 (Tcp.send (text "HELLO") open_tcp).1)).1

abbrev answers : Text
answers = text "+OK hi\r\n+OK PONG\r\n>EVT 0 1 5 INS\r\n+OK 3\r\n+O"

answers_settle :
    ((on_data answers asked).router.settled
      ≡ (0, line (text "+OK hi")) ∷ (1, lines (text "+OK PONG" ∷ text "+OK 3" ∷ [])) ∷ [])
    × ((on_data answers asked).buf ≡ text "+O")
    × ((on_data answers asked).router.heard
        ≡ (
          9,
          record {
            hid = int false 0;
            tid = int false 1;
            row_id = int false 5;
            op = some (text "INS");
          },
        )
          ∷ [])
unfolding on_data route strip_cr starts_with Tcp.send send_batch Tcp.on_event parse_int split
answers_settle = (refl, refl, refl)

-- What the server answers to the empty line of an empty batch goes to the next request.
empty_batch_shifts :
    (on_data
      (text "-ERR empty\r\n")
      (Tcp.send (text "PING") (send_batch [] open_tcp).1).1).router.settled
    ≡ (1, line (text "-ERR empty")) ∷ []
unfolding on_data route strip_cr starts_with Tcp.send send_batch
empty_batch_shifts = refl

on_data-split_example : on_data answers asked ≡ (
    let (rest, router) =
      process (λ line. route (trimmed line)) (split b'\n' (asked.buf ++ answers)) asked.router in
    record asked { buf = rest; router = router })
on_data-split_example = on_data-split answers asked

on_data-append_example :
    on_data (text "OK 1\r\n") (on_data (text "+") asked) ≡ on_data (text "+OK 1\r\n") asked
on_data-append_example = on_data-append (text "+") (text "OK 1\r\n") asked

abbrev run : List Action
run = ask ∷ ask_batch 1 ∷ arrive (text "+OK 1") ∷ arrive (text "+OK 2") ∷ break (text "gone") ∷ []

perform_all-Agrees_example : Agrees fresh_router (perform_all run fresh_router) (act_all run idle)
perform_all-Agrees_example = perform_all-Agrees run fresh_router idle fresh-Models

-- The callback 7 is registered twice, and hears the first of two events once.
abbrev heard_once : List Happening
heard_once =
    listens 7
    ∷ (listens 8
        ∷ (listens 7
            ∷ (acts (arrive (text ">EVT 0 0 1 INS"))
                ∷ (unlistens 7 ∷ (acts (arrive (text ">EVT 0 0 2 INS")) ∷ [])))))

happen_all-hears_example :
    let (on, out) = follow 7 false heard_once in
    Distinct (happen_all heard_once fresh_router).listeners
    × (member 7 (happen_all heard_once fresh_router).listeners ≡ on)
    × (calls_of 7 (happen_all heard_once fresh_router).heard ≡ [] ++ out)
unfolding member calls_of
happen_all-hears_example = happen_all-hears 7 heard_once fresh_router tt

heard_once_is_one :
    ((follow 7 false heard_once).1 ≡ read_event (text ">EVT 0 0 1 INS") ∷ [])
    × ((happen_all heard_once fresh_router).listeners ≡ 8 ∷ [])
unfolding follow happen_all happen add_listener member without remove_listener perform route
    starts_with broadcast
heard_once_is_one = (refl, refl)

-- The second of three listeners throws on the event, and the reply behind it stays in the buffer.
abbrev listened : Tcp
listened = record asked { router = record asked.router { listeners = 7 ∷ 8 ∷ 9 ∷ [] } }

abbrev calm : Tcp
calm = record asked { router = record asked.router { listeners = 7 ∷ [] } }

abbrev event_reply : Text
event_reply = text ">EVT 0 0 1 INS\n+OK\n"

on_data_or_throw-first_example :
    (on_data_or_throw (λ cb. cb == 8) answers calm ≡ (on_data answers calm, false))
    × (on_data_or_throw (λ cb. cb == 8) event_reply (record listened { buf = [] }) ≡ (
      record listened {
        buf = text "+OK\n";
        router = record listened.router {
          heard =
              listened.router.heard
              ++ map (λ (c : ℕ). (c, read_event (trimmed (text ">EVT 0 0 1 INS")))) (7 ∷ 8 ∷ []);
        };
      },
      true,
    ))
unfolding starts_with
on_data_or_throw-first_example =
    on_data_or_throw-first (λ cb. cb == 8) calm answers (record listened { buf = [] }) event_reply
      (text ">EVT 0 0 1 INS") (text "+OK\n") (7 ∷ []) 8 (9 ∷ []) (refl, tt) refl (omega arith) refl
      refl (refl, tt) refl

-- A line with two words has one number.
short_event_runs :
    read_event (text ">EVT 5") ≡ record { hid = int false 5; tid = nan; row_id = nan; op = none }
unfolding split parse_int
short_event_runs = refl

run_settles :
    (perform_all run fresh_router).settled
    ≡ (0, line (text "+OK 1")) ∷ (1, failed (text "gone")) ∷ []
unfolding perform_all starts_with
run_settles = refl

batch_is_settled :
    (has_waiter 1 (perform_all run fresh_router).waiters
      || is_settled 1 (perform_all run fresh_router).settled)
    ≡ true
unfolding perform_all starts_with
batch_is_settled = settled_or_waiting run 1 (omega arith)

break-settles_example :
    ((perform_all (run ++ break (text "shut") ∷ []) fresh_router).waiters ≡ [])
    × (is_settled 1 (perform_all (run ++ break (text "shut") ∷ []) fresh_router).settled ≡ true)
unfolding perform_all starts_with
break-settles_example = break-settles run (text "shut") 1 (omega arith)

empty_batch_hangs_example :
    is_settled 0 (perform_all run (request_batch 0 fresh_router).1).settled ≡ false
empty_batch_hangs_example = empty_batch_hangs run fresh_router idle fresh-Models

abbrev replies : List Text
replies = text "+OK 0" ∷ text "-ERR bad" ∷ []

batch_resolves :
    (on_data (frame replies) (send_batch (text "OPEN" ∷ text "x" ∷ []) open_tcp).1).router.settled
    ≡ [] ++ ((send_batch (text "OPEN" ∷ text "x" ∷ []) open_tcp).0, lines replies) ∷ []
unfolding starts_with
batch_resolves =
    send_batch-on_data (text "OPEN") (text "x" ∷ []) replies 0 open_tcp fresh-Models refl refl
      (refl, (refl, tt)) (omega arith) refl

frame_is_chunk :
    (on_message (frame replies) open_ws).router ≡ (on_data (frame replies) open_tcp).router
frame_is_chunk =
    on_message-on_data replies open_ws open_tcp refl refl (omega arith) ((cc), ((cc), tt))

-- An error before the connection, and one behind it.
abbrev tcp_reports : List TcpEvent
tcp_reports =
    TcpEvent.data_came (text "+OK\n") ∷ TcpEvent.broke (text "refused") ∷ TcpEvent.connected ∷ []

abbrev ws_reports : List WsEvent
ws_reports = WsEvent.opened ∷ WsEvent.failed ∷ WsEvent.closed ∷ []

abbrev latin : List ℕ → Text
latin bytes = bytes

connect-first_example :
    ((tcp_run tcp_reports tcp_attempt).promise ≡ some (err (text "refused")))
    × ((ws_run latin ws_reports (record {
      transport = record { connected = false; router = fresh_router; calls = [] };
      promise = none;
    })).promise
        ≡ some (ok tt))
connect-first_example =
    connect-first latin tcp_reports ws_reports
      (record { connected = false; router = fresh_router; calls = [] }) refl

-- A frame of bytes is decoded, and goes the way of a text.
frame_runs :
    (ws_event latin (WsEvent.message (FrameData.array_buffer (text "+OK 1"))) (record {
      transport = (Ws.send (text "PING") open_ws).1;
      promise = none;
    })).transport.router.settled
    ≡ (0, line (text "+OK 1")) ∷ []
unfolding ws_event Ws.send on_message split strip_cr route starts_with
frame_runs = refl

on_runs :
    ((on Tcp.on_event (text "event") 9 open_tcp).1.router.listeners ≡ 9 ∷ [])
    × ((on Tcp.on_event (text "close") 9 open_tcp).0 ≡ err (text "unknown event: close"))
unfolding on Tcp.on_event
on_runs = (refl, refl)

-- What the client does on the socket that has closed.
abbrev afterwards : List Use
afterwards = sends (text "PING") ∷ (batches (text "OPEN") [] ∷ (registers 7 ∷ (closes ∷ [])))

send-on_failure_example :
    let (p, t) = Tcp.send (text "HELLO") (on_failure (text "socket closed") open_tcp) in
    (t.calls ≡ [] ++ write (text "HELLO" ++ b'\n' ∷ []) ∷ [])
    × (is_settled p (use_all afterwards t).router.settled ≡ false)
send-on_failure_example =
    send-on_failure (text "socket closed") (text "HELLO") afterwards open_tcp idle fresh-Models refl
