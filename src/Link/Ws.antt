-- ===== src/Link/Ws.antt =====
-- `WsTransport` with a server at the other end of the socket, which reads a command from each frame
-- and chooses how many of its lines it puts into one frame.
pub mod Refines
use cuttle_db.Prelude.{
  ℕ, true, List, [], ◌∷◌, ◌++◌, map, Option, ◌≡◌, ◌≢◌, refl, sym, ap, subst, ◌∙◌, length, drop,
  drop-append, All, Lacks, ok, Text,
}
use mathlib.Core.List.{map-append}
use cuttle_db.Prelude.Outcome.{Result}
use cuttle_db.Client.Exec.{Transport}
use cuttle_db.Client.Simulation.{Same, Simulates, Carries}
use cuttle_db.Link.{
  Server, IsLine, IsServer, serve, replies, direct, outcome, await_line, await_lines, Idle,
}
use cuttle_db.Link.Answers.{request-serve, request_batch-serve, serve-replies, serve-IsLine}
use cuttle_db.Transport.Router.{Router, Outcome, request, request_batch}
use cuttle_db.Transport.Router.Queue.{Action, arrive, perform_all, perform_all-append}
use cuttle_db.Transport.Tcp.Pipeline
use cuttle_db.Transport.Ws.{Ws, SocketCall, frame, shut, send, send_batch, on_message}
use cuttle_db.Transport.Ws.Frames.{route_parts-frame}

abbrev pub flat_lines : List (List Text) → List Text
flat_lines [] = []
flat_lines (g ∷ gs) = g ++ flat_lines gs

-- How the lines are put into frames.
pub record Framing : Type 0 where
  pub group : List Text → List (List Text)
  pub whole : (ls : List Text) → flat_lines (group ls) ≡ ls

unfoldable pub deliver : List (List Text) → Ws → Ws
deliver [] w = w
deliver (g ∷ gs) w = deliver gs (on_message (Pipeline.frame g) w)

-- The texts of the frames that a socket was given.
unfoldable pub commands : List SocketCall → List Text
commands [] = []
commands (frame c ∷ calls) = c ∷ commands calls
commands (shut ∷ calls) = commands calls

module _ {S : Type 0} (v : Server S) (n : Framing) where
  unfoldable pub exchange : List SocketCall → Ws × S → Ws × S
  unfolding commands deliver
  exchange calls (w, s) =
      let (out, s') = serve v (commands calls) s in (deliver (n.group out) w, s')

  unfoldable pub conclude :
      {A : Type 0} → (Option Outcome → Result A) → Ws → ℕ × Ws → S → Result A × (Ws × S)
  unfolding exchange
  conclude await before (p, w) s =
      let (w', s') = exchange (drop (length before.calls) w.calls) (w, s) in
      (await (outcome p w'.router.settled), (w', s'))

  unfoldable pub ws_link : Transport (Ws × S)
  unfolding conclude
  ws_link = record {
    send = λ cmd c. conclude await_line c.0 (send cmd c.0) c.1;
    send_batch = λ cmds c. conclude await_lines c.0 (send_batch cmds c.0) c.1;
  }

-- Connected, and nothing waits.
pub record Ready (w : Ws) : Type 0 where
  pub connected : w.connected ≡ true
  pub idle : Idle w.router
