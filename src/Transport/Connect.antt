-- ===== src/Transport/Connect.antt =====
-- `connect` of the two transports: what the runtime reports of the socket, in the order in which it
-- comes, up to the promise of `connect` and behind it.
pub mod First
use cuttle_db.Prelude.{
  ℕ, Bool, true, false, List, [], ◌∷◌, Option, none, some, if◌then◌else◌, ok, err, Text, text,
}
use cuttle_db.Prelude.Outcome.{Result}
use cuttle_db.Transport.Tcp.{Tcp, fresh_tcp, on_connect, on_data, on_failure}
use cuttle_db.Transport.Ws.{Ws, on_open, on_message, on_close}

-- Only the first `resolve` or `reject` of a promise counts.
abbrev pub settle_once : Result (Unit {0}) → Option (Result (Unit {0})) → Option (Result (Unit {0}))
settle_once r none = some r
settle_once r (some first) = some first

pub data TcpEvent : Type 0 where
  connected : TcpEvent
  data_came : Text → TcpEvent
  broke : Text → TcpEvent
  closed : TcpEvent

pub record TcpAttempt : Type 0 where
  pub transport : Tcp
  -- The callback of `createConnection` has run, so the handlers are there.
  pub listening : Bool
  pub promise : Option (Result (Unit {0}))

abbrev pub tcp_attempt : TcpAttempt
tcp_attempt = record { transport = fresh_tcp; listening = false; promise = none }

abbrev pub if_listening : (Tcp → Tcp) → TcpAttempt → TcpAttempt
if_listening f a = if a.listening then record a { transport = f a.transport } else a

-- An error rejects the promise of `connect`, and goes to the handler if that is there.
unfoldable pub tcp_event : TcpEvent → TcpAttempt → TcpAttempt
unfolding on_connect on_data on_failure
tcp_event connected a = record {
  transport = on_connect a.transport;
  listening = true;
  promise = settle_once (ok tt) a.promise;
}
tcp_event (data_came chunk) a = if_listening (on_data chunk) a
tcp_event (broke e) a =
    if_listening (on_failure e) (record a { promise = settle_once (err e) a.promise })
tcp_event closed a = if_listening (on_failure (text "connection closed")) a

unfoldable pub tcp_run : List TcpEvent → TcpAttempt → TcpAttempt
unfolding tcp_event
tcp_run [] a = a
tcp_run (e ∷ es) a = tcp_run es (tcp_event e a)

-- What a message of a WebSocket holds.
pub data FrameData : Type 0 where
  string : Text → FrameData
  array_buffer : List ℕ → FrameData

pub data WsEvent : Type 0 where
  opened : WsEvent
  message : FrameData → WsEvent
  failed : WsEvent
  closed : WsEvent

pub record WsAttempt : Type 0 where
  pub transport : Ws
  pub promise : Option (Result (Unit {0}))

-- `TextDecoder` is a parameter.
module _ (decode : List ℕ → Text) where
  unfoldable pub frame_text : FrameData → Text
  frame_text (string s) = s
  frame_text (array_buffer bytes) = decode bytes

  unfoldable pub ws_event : WsEvent → WsAttempt → WsAttempt
  unfolding frame_text on_open on_message on_close
  ws_event opened a = record {
    transport = on_open a.transport;
    promise = settle_once (ok tt) a.promise;
  }
  ws_event (message d) a = record a { transport = on_message (frame_text d) a.transport }
  ws_event failed a =
      if a.transport.connected
      then a
      else record a { promise = settle_once (err (text "WebSocket connect failed")) a.promise }
  ws_event closed a = record a { transport = on_close a.transport }

  unfoldable pub ws_run : List WsEvent → WsAttempt → WsAttempt
  unfolding ws_event
  ws_run [] a = a
  ws_run (e ∷ es) a = ws_run es (ws_event e a)
