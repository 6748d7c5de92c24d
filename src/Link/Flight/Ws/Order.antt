-- ===== src/Link/Flight/Ws/Order.antt =====
-- Whatever is in flight over a WebSocket, the calls settle as if they had been made one after the
-- other.
use cuttle_db.Prelude.{
  List, [], ◌∷◌, ◌++◌, append-nil, ◌≡◌, refl, sym, ap, subst, ◌∙◌, length, text, Text,
}
use cuttle_db.Link.{Server, IsServer}
use cuttle_db.Link.Flight.{Call, Run, later, sequential}
use cuttle_db.Link.Flight.Due.{quiet-Due, break-Due}
use cuttle_db.Link.Flight.Fits.{rejected}
use cuttle_db.Link.Flight.Ws.{World, Step, reads, frames, arrives, start}
use cuttle_db.Link.Flight.Ws.Steps.{Run-Open}
use cuttle_db.Link.Ws.{flat_lines}
use cuttle_db.Transport.Router.{Log}
use cuttle_db.Transport.Router.Queue.{perform}
use cuttle_db.Transport.Ws.{on_close}

module _ {S : Type 0} (v : Server S) (h : IsServer v) (s : S) where
  -- On a new WebSocket to a server that answers each command by one line that is no event, with
  -- calls in flight, whatever commands and batches of at least one were sent, also before earlier
  -- ones were answered, and however the reading of the server, its events, its putting of lines
  -- into frames, the arrival of frames and the changes of listeners came between: as many promises
  -- are made as calls, and when the socket closes, the calls that are settled already keep what the
  -- server alone gives when it takes the calls one after the other, every other call is rejected
  -- once with that error, in their order, and nothing waits.
  pub closing-rejects :
      {cs : List Call} {w : World S}
      → Run (Step v) (start v s) cs w
      → let router = (on_close w.ws).router in
        (w.ws.router.created ≡ length cs)
        × (router.waiters ≡ [])
        × (coming : Log) × ((sequential v 0 cs s).0 ≡ w.ws.router.settled ++ coming)
        × (router.settled ≡ w.ws.router.settled ++ rejected (text "WebSocket closed") coming)
  unfolding on_close perform
  closing-rejects {cs} {w} r =
      let o = Run-Open v h s r in
      let (idle, coming, now, settled) =
        break-Due v s cs w.ws.router w.server w.unread _ o.due (text "WebSocket closed") in
      (o.due.models.numbered ∙ o.due.made, idle, coming, now, settled)

  -- On a new WebSocket to a server that answers each command by one line that is no event, with
  -- calls in flight, whatever commands and batches of at least one were sent, also before earlier
  -- ones were answered, and however the reading of the server, its events, its putting of lines
  -- into frames, the arrival of frames and the changes of listeners came between: when the server
  -- has read every frame and every line of its has arrived, every call is settled with what the
  -- server alone gives when it takes the calls one after the other, in their order, nothing waits,
  -- and the server is in the state that it comes to alone.
  pub frames_settle_all :
      {cs : List Call} {w : World S}
      → Run (Step v) (start v s) cs w
      → w.unread ≡ []
      → w.unsent ≡ []
      → w.flying ≡ []
      → (w.ws.router.settled ≡ (sequential v 0 cs s).0)
        × (w.ws.router.waiters ≡ [])
        × (w.server ≡ (sequential v 0 cs s).1)
  frames_settle_all {cs} {w} r unread unsent flying =
      quiet-Due v s cs w.ws.router w.server w.unread _ (Run-Open v h s r).due unread
        (ap (λ (gs : List (List Text)). flat_lines gs ++ w.unsent) flying ∙ unsent)

  step_quietly :
      {cs : List Call} {w w' : World S}
      → Run (Step v) (start v s) cs w
      → Step v w [] w'
      → Run (Step v) (start v s) cs w'
  step_quietly {cs} {w' = w'} r step =
      subst (λ (made : List Call). Run (Step v) (start v s) made w') (append-nil cs) (later r step)

  read_all :
      (cmds : List Text) {cs : List Call} {w : World S}
      → Run (Step v) (start v s) cs w
      → w.unread ≡ cmds
      → (w' : World S) × Run (Step v) (start v s) cs w' × (w'.unread ≡ [])
  read_all [] {w = w} r e = (w, r, e)
  read_all (cmd ∷ cmds) r e = read_all cmds (step_quietly r (reads cmd cmds e)) refl

  get_all :
      (gs : List (List Text)) {cs : List Call} {w : World S}
      → Run (Step v) (start v s) cs w
      → w.unread ≡ []
      → w.unsent ≡ []
      → w.flying ≡ gs
      → (w' : World S) × Run (Step v) (start v s) cs w'
        × (w'.ws.router.settled ≡ (sequential v 0 cs s).0)
        × (w'.ws.router.waiters ≡ [])
        × (w'.server ≡ (sequential v 0 cs s).1)
  get_all [] {w = w} r a b e =
      let (settled, idle, server) = frames_settle_all r a b e in (w, r, settled, idle, server)
  get_all (g ∷ gs) r a b e = get_all gs (step_quietly r (arrives g gs e)) a b refl

  -- On a new WebSocket to a server that answers each command by one line that is no event, with
  -- calls in flight, whatever commands and batches of at least one were sent, also before earlier
  -- ones were answered, and however the reading of the server, its events, its putting of lines
  -- into frames, the arrival of frames and the changes of listeners came between: there are steps
  -- without a further call that settle every call with what the server alone gives when it takes
  -- the calls one after the other, leave nothing waiting, and bring the server to the state that it
  -- comes to alone.
  pub frames_finish :
      {cs : List Call} {w : World S}
      → Run (Step v) (start v s) cs w
      → (w' : World S) × Run (Step v) (start v s) cs w'
        × (w'.ws.router.settled ≡ (sequential v 0 cs s).0)
        × (w'.ws.router.waiters ≡ [])
        × (w'.server ≡ (sequential v 0 cs s).1)
  frames_finish {w = w} r =
      let (w', read, unread) = read_all w.unread r refl in
      let sent = step_quietly read (frames w'.unsent [] (sym (append-nil w'.unsent))) in
      get_all _ sent unread refl refl
