-- ===== src/Link/Ws/Refines.antt =====
-- A client over `WsTransport` sees the server itself.
use cuttle_db.Prelude.{
  ℕ, true, List, [], ◌∷◌, ◌++◌, map, Option, ◌≡◌, ◌≢◌, refl, sym, ap, subst, ◌∙◌, length,
  drop-append, All, Lacks, ok, Text,
}
use mathlib.Core.List.{map-append}
use cuttle_db.Prelude.Outcome.{Result}
use cuttle_db.Client.Simulation.{Same, Simulates, Carries}
use cuttle_db.Link.{
  Server, IsLine, IsServer, serve, replies, direct, outcome, await_line, await_lines,
}
use cuttle_db.Link.Answers.{request-serve, request_batch-serve, serve-replies, serve-IsLine}
use cuttle_db.Transport.Router.{Router, Outcome, request, request_batch}
use cuttle_db.Transport.Router.Queue.{Action, arrive, perform_all, perform_all-append}
use cuttle_db.Transport.Tcp.Pipeline
use cuttle_db.Transport.Ws.{Ws, SocketCall, frame, send, send_batch, on_message}
use cuttle_db.Transport.Ws.Frames.{route_parts-frame}
use cuttle_db.Link.Ws.{flat_lines, Framing, deliver, commands, exchange, conclude, ws_link, Ready}

pub All-front {ℓ κ} :
    {A : Type ℓ} (P : A → Type κ) (xs ys : List A) → All P (xs ++ ys) → All P xs × All P ys
All-front P [] ys h = (tt, h)
All-front P (x ∷ xs) ys h = ((h.0, (All-front P xs ys h.1).0), (All-front P xs ys h.1).1)

IsLine-parts : (ls : List Text) → All IsLine ls → All (Lacks b'\n') ls × All (λ l. l ≢ []) ls
IsLine-parts [] h = (tt, tt)
IsLine-parts (l ∷ ls) h = let (p, q) = IsLine-parts ls h.1 in ((h.0.0, p), (h.0.1, q))

pub on_message-lines :
    (ls : List Text) (w : Ws)
    → All IsLine ls
    → on_message (Pipeline.frame ls) w ≡ record w { router = perform_all (map arrive ls) w.router }
unfolding on_message
on_message-lines ls w h =
    let (p, q) = IsLine-parts ls h in
    ap (λ (r : Router). record w { router = r }) (route_parts-frame ls w.router p q)

deliver-lines :
    (gs : List (List Text)) (w : Ws)
    → All IsLine (flat_lines gs)
    → deliver gs w ≡ record w { router = perform_all (map arrive (flat_lines gs)) w.router }
unfolding deliver
deliver-lines [] w h = unfold perform_all in refl
deliver-lines (g ∷ gs) w h =
    let (now, later) = All-front IsLine g (flat_lines gs) h in
    ap (deliver gs) (on_message-lines g w now)
    ∙ deliver-lines gs (record w { router = perform_all (map arrive g) w.router }) later
    ∙ ap (λ (r : Router). record w { router = r })
        (sym (perform_all-append (map arrive g) (map arrive (flat_lines gs)) w.router)
          ∙ ap (λ (a : List Action). perform_all a w.router)
              (sym (map-append arrive g (flat_lines gs))))

pub commands-frames : (cmds : List Text) → commands (map frame cmds) ≡ cmds
unfolding commands
commands-frames [] = refl
commands-frames (c ∷ cs) = ap (λ (ds : List Text). c ∷ ds) (commands-frames cs)

pub send_lem :
    (cmd : Text) (w : Ws)
    → w.connected ≡ true
    → send cmd w ≡ (
      w.router.created,
      record w { router = (request w.router).1; calls = w.calls ++ frame cmd ∷ [] },
    )
unfolding send
send_lem cmd w c = rw c

pub send_batch_lem :
    (cmds : List Text) (w : Ws)
    → w.connected ≡ true
    → send_batch cmds w ≡ (
      w.router.created,
      record w {
        router = (request_batch (length cmds) w.router).1;
        calls = w.calls ++ map frame cmds;
      },
    )
unfolding send_batch
send_batch_lem cmds w c = rw c

module _ {S : Type 0} (v : Server S) (h : IsServer v) (n : Framing) where
  exchange_lem :
      (calls : List SocketCall) (cmds : List Text) (w : Ws) (s : S)
      → commands calls ≡ cmds
      → exchange v n calls (w, s) ≡ (
        record w { router = perform_all (map arrive (serve v cmds s).0) w.router },
        (serve v cmds s).1,
      )
  unfolding exchange
  exchange_lem calls cmds w s e =
      let out = (serve v cmds s).0 in
      rw e (
        ap (λ (w' : Ws). (w', (serve v cmds s).1))
          (deliver-lines (n.group out) w
              (subst (All IsLine) (sym (n.whole out)) (serve-IsLine v h cmds s))
            ∙ ap (λ (ls : List Text). record w { router = perform_all (map arrive ls) w.router })
                (n.whole out)))

  conclude_lem :
      {A : Type 0} (await : Option Outcome → Result A) (w : Ws) (r : Router)
      (calls : List SocketCall) (cmds : List Text) (p : ℕ) (s : S)
      → commands calls ≡ cmds
      → let r' = perform_all (map arrive (serve v cmds s).0) r in
        conclude v n await w (p, record w { router = r; calls = w.calls ++ calls }) s ≡ (
          await (outcome p r'.settled),
          (record w { router = r'; calls = w.calls ++ calls }, (serve v cmds s).1),
        )
  unfolding conclude
  conclude_lem await w r calls cmds p s e =
      let sent = record w { router = r; calls = w.calls ++ calls } in
      ap (λ (out : Ws × S). (await (outcome p out.0.router.settled), out))
        (ap (λ (cs : List SocketCall). exchange v n cs (sent, s)) (drop-append w.calls calls)
          ∙ exchange_lem calls cmds sent s e)

  single-Simulates : (cmd : Text) → Simulates Ready ((ws_link v n).send cmd) ((direct v).send cmd)
  unfolding ws_link direct await_line replies commands
  single-Simulates cmd w s y =
      let r = (request w.router).1 in
      let (settled, idle) = request-serve v h w.router cmd s y.idle in
      subst
        (λ (out : Result Text × (Ws × S)).
          Same Ready out (ok (v.answer cmd s).0, (v.answer cmd s).1))
        (sym (
          ap (λ (sent : ℕ × Ws). conclude v n await_line w sent s) (send_lem cmd w y.connected)
          ∙ conclude_lem await_line w r (frame cmd ∷ []) (cmd ∷ []) w.router.created s refl))
        (record {
          result = ap await_line settled;
          server = serve-replies v h (cmd ∷ []) s;
          ready = record { connected = y.connected; idle = idle };
        })

  several-Simulates :
      (cmd : Text) (cmds : List Text)
      → Simulates Ready ((ws_link v n).send_batch (cmd ∷ cmds)) ((direct v).send_batch (cmd ∷ cmds))
  unfolding ws_link direct await_lines
  several-Simulates cmd cmds w s y =
      let all = cmd ∷ cmds in
      let r = (request_batch (length all) w.router).1 in
      let (settled, idle) = request_batch-serve v h w.router cmd cmds s y.idle in
      subst
        (λ (out : Result (List Text) × (Ws × S)).
          Same Ready out (ok (replies v all s).0, (replies v all s).1))
        (sym (
          ap (λ (sent : ℕ × Ws). conclude v n await_lines w sent s)
            (send_batch_lem all w y.connected)
          ∙ conclude_lem await_lines w r (map frame all) all w.router.created s
              (commands-frames all)))
        (record {
          result = ap await_lines settled;
          server = serve-replies v h all s;
          ready = record { connected = y.connected; idle = idle };
        })

  -- A client over a WebSocket sees the server itself, if that answers each line by one line that
  -- is no event: a command without a newline returns the server's answer, and a batch of at least
  -- one such command returns the answers in order, however the lines are put into frames and
  -- whatever events come between; and the connection, if ready before, is ready for the next call.
  pub ws_link-Carries : Carries Ready (Lacks b'\n') (ws_link v n) (direct v)
  ws_link-Carries = record {
    single = λ cmd u. single-Simulates cmd;
    several = λ cmd cmds u. several-Simulates cmd cmds;
  }
