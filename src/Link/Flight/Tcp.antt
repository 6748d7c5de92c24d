-- ===== src/Link/Flight/Tcp.antt =====
-- Calls in flight over `TcpTransport`: the server reads one line at a time and may send events of its
-- own, and the network delivers what it likes of the bytes on their way.
pub mod Lines
pub mod Steps
pub mod Order
use cuttle_db.Prelude.{ℕ, true, List, [], ◌∷◌, ◌++◌, ◌≡◌, length, drop, All, Lacks, Text}
use cuttle_db.Link.{Server, IsLine}
use cuttle_db.Link.Flight.{Call, command, commands, commands_of}
use cuttle_db.Link.Tcp.{written}
use cuttle_db.Transport.Router.{is_event}
use cuttle_db.Transport.Tcp.{Tcp, fresh_tcp, send, send_batch, on_event, off_event, on_data}
use cuttle_db.Transport.Tcp.Pipeline.{frame}

abbrev pub call : Call → Tcp → Tcp
call (command cmd) t = (send cmd t).1
call (commands cmd cmds) t = (send_batch (cmd ∷ cmds) t).1

-- The bytes that a call gave the socket.
abbrev pub sent : Tcp → Tcp → Text
sent before t = written (drop (length before.calls) t.calls)

pub record World (S : Type 0) : Type 0 where
  pub tcp : Tcp
  -- The bytes that the server has not read.
  pub unread : Text
  -- The bytes that the client has not got.
  pub flying : Text
  pub server : S

module _ {S : Type 0} (v : Server S) where
  -- One step, and the calls that the client makes in it.
  pub data Step (w : World S) : List Call → World S → Type 0 where
    calls :
        (c : Call)
        → w.tcp.connected ≡ true
        → All (Lacks b'\n') (commands_of c)
        → Step w
            (c ∷ [])
            (record w { tcp = call c w.tcp; unread = w.unread ++ sent w.tcp (call c w.tcp) })
    reads :
        (cmd rest : Text)
        → Lacks b'\n' cmd
        → w.unread ≡ cmd ++ b'\n' ∷ rest
        → Step w [] (record w {
          unread = rest;
          flying = w.flying ++ frame (v.events cmd w.server ++ (v.answer cmd w.server).0 ∷ []);
          server = (v.answer cmd w.server).1;
        })
    tells :
        (e : Text)
        → is_event e ≡ true
        → IsLine e
        → Step w [] (record w { flying = w.flying ++ frame (e ∷ []) })
    arrives :
        (chunk rest : Text)
        → w.flying ≡ chunk ++ rest
        → Step w [] (record w { tcp = on_data chunk w.tcp; flying = rest })
    registers : (cb : ℕ) → Step w [] (record w { tcp = on_event cb w.tcp })
    removes : (cb : ℕ) → Step w [] (record w { tcp = off_event cb w.tcp })

  abbrev pub start : S → World S
  start s = record {
    tcp = record fresh_tcp { connected = true };
    unread = [];
    flying = [];
    server = s;
  }
