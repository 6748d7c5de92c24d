-- ===== src/Link/Tcp.antt =====
-- `TcpTransport` with a server at the other end of the socket, which reads whole lines and whose
-- bytes arrive in chunks that the network chooses.
pub mod Refines
use cuttle_db.Prelude.{
  ℕ, true, List, [], ◌∷◌, ◌++◌, map, append_assoc, append-nil, Option, ◌≡◌, refl, sym, ap, subst,
  ◌∙◌, length, drop, drop-append, All, Lacks, ok, Text,
}
use cuttle_db.Prelude.Outcome.{Result}
use cuttle_db.Client.Exec.{Transport}
use cuttle_db.Client.Simulation.{Same, Simulates, Carries}
use cuttle_db.Link.{
  Server, IsLine, IsServer, serve, replies, direct, outcome, await_line, await_lines, Idle,
}
use cuttle_db.Link.Answers.{request-serve, request_batch-serve, serve-replies, serve-IsLine}
use cuttle_db.Text.{split, join}
use cuttle_db.Text.Laws.{split-append, split-cons}
use cuttle_db.Transport.Router.{Router, Outcome, request, request_batch}
use cuttle_db.Transport.Router.Queue.{arrive, perform_all}
use cuttle_db.Transport.Tcp.{Tcp, SocketCall, write, end, send, send_batch, on_data, route_stripped}
use cuttle_db.Transport.Tcp.Pipeline.{frame, process-frame, send_batch_connected}
use cuttle_db.Transport.Tcp.Stream.{process, on_data-process, on_data-append}

abbrev pub flat : List Text → Text
flat [] = []
flat (c ∷ cs) = c ++ flat cs

-- How the network cuts the bytes into chunks: the first, and those that follow.
pub record Network : Type 0 where
  pub chop : Text → Text × List Text
  pub whole : (b : Text) → (chop b).0 ++ flat (chop b).1 ≡ b

unfoldable pub deliver : List Text → Tcp → Tcp
deliver [] t = t
deliver (c ∷ cs) t = deliver cs (on_data c t)

-- The bytes that a socket was given to write.
unfoldable pub written : List SocketCall → Text
written [] = []
written (write b ∷ calls) = b ++ written calls
written (end ∷ calls) = written calls

-- The lines among the parts between newlines: all but the last.
unfoldable pub whole_lines : List Text → List Text
whole_lines [] = []
whole_lines (p ∷ []) = []
whole_lines (p ∷ q ∷ ps) = p ∷ whole_lines (q ∷ ps)

module _ {S : Type 0} (v : Server S) (n : Network) where
  -- After a call: the server reads what was written, and its bytes arrive.
  unfoldable pub exchange : List SocketCall → Tcp × S → Tcp × S
  unfolding written whole_lines deliver
  exchange calls (t, s) =
      let (out, s') = serve v (whole_lines (split b'\n' (written calls))) s in
      let (first, others) = n.chop (frame out) in (deliver (first ∷ others) t, s')

  -- What a call that made the promise `p` comes to, when the server has answered.
  unfoldable pub conclude :
      {A : Type 0} → (Option Outcome → Result A) → Tcp → ℕ × Tcp → S → Result A × (Tcp × S)
  unfolding exchange
  conclude await before (p, t) s =
      let (t', s') = exchange (drop (length before.calls) t.calls) (t, s) in
      (await (outcome p t'.router.settled), (t', s'))

  unfoldable pub tcp_link : Transport (Tcp × S)
  unfolding conclude
  tcp_link = record {
    send = λ cmd c. conclude await_line c.0 (send cmd c.0) c.1;
    send_batch = λ cmds c. conclude await_lines c.0 (send_batch cmds c.0) c.1;
  }

-- Connected, nothing half read, and nothing waits.
pub record Ready (t : Tcp) : Type 0 where
  pub connected : t.connected ≡ true
  pub empty : t.buf ≡ []
  pub idle : Idle t.router
