-- ===== src/Link/Flight/Ws.antt =====
-- Calls in flight over `WsTransport`: the server reads a command from each frame and may send events
-- of its own, and puts as many of its lines into one frame as it likes.
pub mod Steps
pub mod Order
use cuttle_db.Prelude.{ℕ, true, List, [], ◌∷◌, ◌++◌, ◌≡◌, length, drop, Text}
use cuttle_db.Link.{Server, IsLine}
use cuttle_db.Link.Flight.{Call, command, commands}
use cuttle_db.Link.Ws as Link
use cuttle_db.Transport.Router.{is_event, fresh_router}
use cuttle_db.Transport.Tcp.Pipeline.{frame}
use cuttle_db.Transport.Ws.{Ws, send, send_batch, on_event, off_event, on_message}

abbrev pub call : Call → Ws → Ws
call (command cmd) w = (send cmd w).1
call (commands cmd cmds) w = (send_batch (cmd ∷ cmds) w).1

-- The texts of the frames that a call gave the socket.
abbrev pub sent : Ws → Ws → List Text
sent before w = Link.commands (drop (length before.calls) w.calls)

pub record World (S : Type 0) : Type 0 where
  pub ws : Ws
  -- The frames that the server has not read.
  pub unread : List Text
  -- The lines that the server has not sent.
  pub unsent : List Text
  -- The lines of each frame that the client has not got.
  pub flying : List (List Text)
  pub server : S

module _ {S : Type 0} (v : Server S) where
  -- One step, and the calls that the client makes in it.
  pub data Step (w : World S) : List Call → World S → Type 0 where
    calls :
        (c : Call)
        → w.ws.connected ≡ true
        → Step w
            (c ∷ [])
            (record w { ws = call c w.ws; unread = w.unread ++ sent w.ws (call c w.ws) })
    reads :
        (cmd : Text) (rest : List Text)
        → w.unread ≡ cmd ∷ rest
        → Step w [] (record w {
          unread = rest;
          unsent = w.unsent ++ (v.events cmd w.server ++ (v.answer cmd w.server).0 ∷ []);
          server = (v.answer cmd w.server).1;
        })
    tells :
        (e : Text)
        → is_event e ≡ true
        → IsLine e
        → Step w [] (record w { unsent = w.unsent ++ e ∷ [] })
    frames :
        (ls rest : List Text)
        → w.unsent ≡ ls ++ rest
        → Step w [] (record w { unsent = rest; flying = w.flying ++ ls ∷ [] })
    arrives :
        (ls : List Text) (rest : List (List Text))
        → w.flying ≡ ls ∷ rest
        → Step w [] (record w { ws = on_message (frame ls) w.ws; flying = rest })
    registers : (cb : ℕ) → Step w [] (record w { ws = on_event cb w.ws })
    removes : (cb : ℕ) → Step w [] (record w { ws = off_event cb w.ws })

  abbrev pub start : S → World S
  start s = record {
    ws = record { connected = true; router = fresh_router; calls = [] };
    unread = [];
    unsent = [];
    flying = [];
    server = s;
  }
