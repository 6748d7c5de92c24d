-- ===== src/Link/Flight/Tcp/Order.antt =====
-- Whatever is in flight over TCP, the calls settle as if they had been made one after the other.
use cuttle_db.Prelude.{
  List, [], ◌∷◌, ◌++◌, append-nil, ◌≡◌, refl, sym, ap, subst, ◌∙◌, length, All, Lacks, Text,
}
use cuttle_db.Link.{Server, IsServer}
use cuttle_db.Link.Flight.{Call, Run, later, sequential}
use cuttle_db.Link.Flight.Due.{quiet-Due, break-Due}
use cuttle_db.Link.Flight.Fits.{rejected}
use cuttle_db.Link.Flight.Tcp.{World, Step, reads, arrives, start}
use cuttle_db.Link.Flight.Tcp.Lines.{read, lines_text}
use cuttle_db.Link.Flight.Tcp.Steps.{Run-Open}
use cuttle_db.Transport.Router.{Log}
use cuttle_db.Transport.Router.Queue.{perform}
use cuttle_db.Transport.Tcp.{on_failure}

lines_text-nil : (cmds : List Text) → lines_text cmds ≡ [] → cmds ≡ []
lines_text-nil [] e = refl
lines_text-nil ([] ∷ cmds) e = absurd (cc)
lines_text-nil ((c ∷ cmd) ∷ cmds) e = absurd (cc)

module _ {S : Type 0} (v : Server S) (h : IsServer v) (s : S) where
  -- On a new TCP connection to a server that answers each line by one line that is no event, with
  -- calls in flight, whatever commands without a newline and batches of at least one such were
  -- sent, also before earlier ones were answered, and however the reading of the server, its
  -- events, the arrival of chunks and the changes of listeners came between: as many promises are
  -- made as calls, and what is settled is the beginning of what the server alone gives when it
  -- takes the calls one after the other, in their order.
  pub settles_in_order :
      {cs : List Call} {w : World S}
      → Run (Step v) (start v s) cs w
      → (w.tcp.router.created ≡ length cs)
        × (coming : Log) × ((sequential v 0 cs s).0 ≡ w.tcp.router.settled ++ coming)
  settles_in_order r =
      let due = (Run-Open v h s r).due in (due.models.numbered ∙ due.made, due.rest, due.outcomes)

  -- On a new TCP connection to a server that answers each line by one line that is no event, with
  -- calls in flight, whatever commands without a newline and batches of at least one such were
  -- sent, also before earlier ones were answered, and however the reading of the server, its
  -- events, the arrival of chunks and the changes of listeners came between: when every byte has
  -- arrived at its end, every call is settled with what the server alone gives when it takes the
  -- calls one after the other, in their order, nothing waits, and the server is in the state that
  -- it comes to alone.
  pub settles_all :
      {cs : List Call} {w : World S}
      → Run (Step v) (start v s) cs w
      → w.unread ≡ []
      → w.flying ≡ []
      → (w.tcp.router.settled ≡ (sequential v 0 cs s).0)
        × (w.tcp.router.waiters ≡ [])
        × (w.server ≡ (sequential v 0 cs s).1)
  settles_all {cs} {w} r unread flying =
      let o = Run-Open v h s r in
      let still =
        ap (λ (b : Text). read (w.tcp.buf ++ b)) flying
        ∙ ap read (append-nil w.tcp.buf)
        ∙ o.unfinished in
      quiet-Due v s cs w.tcp.router w.server o.waiting _ o.due
        (lines_text-nil o.waiting (sym o.unread ∙ unread))
        (ap (λ (out : Text × List Text). out.1) still)

  -- On a new TCP connection to a server that answers each line by one line that is no event, with
  -- calls in flight, whatever commands without a newline and batches of at least one such were
  -- sent, also before earlier ones were answered, and however the reading of the server, its
  -- events, the arrival of chunks and the changes of listeners came between: when the socket fails,
  -- the calls that are settled already keep what the server alone gives when it takes the calls one
  -- after the other, every other call is rejected once with the failure, in their order, and
  -- nothing waits.
  pub failure-rejects :
      (e : Text) {cs : List Call} {w : World S}
      → Run (Step v) (start v s) cs w
      → let router = (on_failure e w.tcp).router in
        (router.waiters ≡ [])
        × (coming : Log) × ((sequential v 0 cs s).0 ≡ w.tcp.router.settled ++ coming)
        × (router.settled ≡ w.tcp.router.settled ++ rejected e coming)
  unfolding on_failure perform
  failure-rejects e {cs} {w} r =
      let o = Run-Open v h s r in break-Due v s cs w.tcp.router w.server o.waiting _ o.due e

  step_quietly :
      {cs : List Call} {w w' : World S}
      → Run (Step v) (start v s) cs w
      → Step v w [] w'
      → Run (Step v) (start v s) cs w'
  step_quietly {cs} {w' = w'} r step =
      subst (λ (made : List Call). Run (Step v) (start v s) made w') (append-nil cs) (later r step)

  read_all :
      (cmds : List Text) {cs : List Call} {w : World S}
      → Run (Step v) (start v s) cs w
      → All (Lacks b'\n') cmds
      → w.unread ≡ lines_text cmds
      → (w' : World S) × Run (Step v) (start v s) cs w' × (w'.unread ≡ [])
  read_all [] {w = w} r one e = (w, r, e)
  read_all (cmd ∷ cmds) r one e =
      read_all cmds (step_quietly r (reads cmd (lines_text cmds) one.0 e)) one.1 refl

  -- On a new TCP connection to a server that answers each line by one line that is no event, with
  -- calls in flight, whatever commands without a newline and batches of at least one such were
  -- sent, also before earlier ones were answered, and however the reading of the server, its
  -- events, the arrival of chunks and the changes of listeners came between: there are steps
  -- without a further call that settle every call with what the server alone gives when it takes
  -- the calls one after the other, leave nothing waiting, and bring the server to the state that it
  -- comes to alone.
  pub finishes :
      {cs : List Call} {w : World S}
      → Run (Step v) (start v s) cs w
      → (w' : World S) × Run (Step v) (start v s) cs w'
        × (w'.tcp.router.settled ≡ (sequential v 0 cs s).0)
        × (w'.tcp.router.waiters ≡ [])
        × (w'.server ≡ (sequential v 0 cs s).1)
  finishes r =
      let o = Run-Open v h s r in
      let (w, read, unread) = read_all o.waiting r o.one_line o.unread in
      let end = step_quietly read (arrives w.flying [] (sym (append-nil w.flying))) in
      let (settled, idle, server) = settles_all end unread refl in (_, end, settled, idle, server)
