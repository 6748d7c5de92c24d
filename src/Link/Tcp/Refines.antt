-- ===== src/Link/Tcp/Refines.antt =====
-- A client over `TcpTransport` sees the server itself.
use cuttle_db.Prelude.{
  ℕ, List, [], ◌∷◌, ◌++◌, map, append_assoc, append-nil, Option, ◌≡◌, refl, sym, ap, subst, ◌∙◌,
  length, drop, drop-append, All, Lacks, ok, Text,
}
use cuttle_db.Prelude.Outcome.{Result}
use cuttle_db.Client.Simulation.{Same, Simulates, Carries}
use cuttle_db.Link.{
  Server, IsLine, IsServer, serve, replies, direct, outcome, await_line, await_lines,
}
use cuttle_db.Link.Answers.{request-serve, request_batch-serve, serve-replies, serve-IsLine}
use cuttle_db.Text.{split, join}
use cuttle_db.Text.Laws.{split-append, split-cons}
use cuttle_db.Transport.Router.{Router, Outcome, request, request_batch}
use cuttle_db.Transport.Router.Queue.{arrive, perform_all}
use cuttle_db.Transport.Tcp.{Tcp, SocketCall, write, on_data, route_stripped}
use cuttle_db.Transport.Tcp.Pipeline.{frame, process-frame, send_lem, send_batch_connected}
use cuttle_db.Transport.Tcp.Stream.{process, on_data-process, on_data-append}
use cuttle_db.Link.Tcp.{
  flat, Network, deliver, written, whole_lines, exchange, conclude, tcp_link, Ready,
}

deliver-flat : (c : Text) (cs : List Text) (t : Tcp) → deliver (c ∷ cs) t ≡ on_data (c ++ flat cs) t
unfolding deliver
deliver-flat c [] t = ap (λ (b : Text). on_data b t) (sym (append-nil c))
deliver-flat c (d ∷ ds) t = deliver-flat d ds (on_data c t) ∙ on_data-append c (d ++ flat ds) t

whole_lines-cons : (p s : Text) → whole_lines (p ∷ split b'\n' s) ≡ p ∷ whole_lines (split b'\n' s)
unfolding whole_lines
whole_lines-cons p s = let (h, t, e) = split-cons b'\n' s in rw e

join-next :
    (cmd d : Text) (ds : List Text)
    → join (b'\n' ∷ []) (cmd ∷ d ∷ ds) ++ b'\n' ∷ []
      ≡ cmd ++ b'\n' ∷ (join (b'\n' ∷ []) (d ∷ ds) ++ b'\n' ∷ [])
unfolding join
join-next cmd d ds = append_assoc cmd (b'\n' ∷ join (b'\n' ∷ []) (d ∷ ds)) (b'\n' ∷ [])

-- The server reads the commands of a packet.
lines-join :
    (cmd : Text) (cmds : List Text)
    → All (Lacks b'\n') (cmd ∷ cmds)
    → whole_lines (split b'\n' (join (b'\n' ∷ []) (cmd ∷ cmds) ++ b'\n' ∷ [])) ≡ cmd ∷ cmds
lines-join cmd [] h =
    unfold join in rw (split-append b'\n' cmd [] h.0) (unfold split whole_lines in refl)
lines-join cmd (d ∷ ds) h =
    let rest = join (b'\n' ∷ []) (d ∷ ds) ++ b'\n' ∷ [] in
    rw (join-next cmd d ds, split-append b'\n' cmd rest h.0, whole_lines-cons cmd rest)
      (ap (λ (ls : List Text). cmd ∷ ls) (lines-join d ds h.1))

pub packet :
    (cmd : Text) (cmds : List Text)
    → All (Lacks b'\n') (cmd ∷ cmds)
    → whole_lines
        (split b'\n' (written (write (join (b'\n' ∷ []) (cmd ∷ cmds) ++ b'\n' ∷ []) ∷ [])))
      ≡ cmd ∷ cmds
unfolding written
packet cmd cmds h =
    ap (λ (b : Text). whole_lines (split b'\n' b))
      (append-nil (join (b'\n' ∷ []) (cmd ∷ cmds) ++ b'\n' ∷ []))
    ∙ lines-join cmd cmds h

-- The bytes of whole lines, on a connection where nothing is half read.
on_data-lines :
    (ls : List Text) (t : Tcp)
    → t.buf ≡ []
    → All (Lacks b'\n') ls
    → on_data (frame ls) t ≡ record t { buf = []; router = perform_all (map arrive ls) t.router }
on_data-lines ls t b h =
    on_data-process (frame ls) t
    ∙ ap
        (λ (buf : Text).
          let (rest, router) = process route_stripped (split b'\n' (buf ++ frame ls)) t.router in
          record t { buf = rest; router = router })
        b
    ∙ ap (λ (out : Text × Router). record t { buf = out.0; router = out.1 })
        (process-frame ls t.router h)

pub IsLine-Lacks : (ls : List Text) → All IsLine ls → All (Lacks b'\n') ls
IsLine-Lacks [] h = tt
IsLine-Lacks (l ∷ ls) h = (h.0.0, IsLine-Lacks ls h.1)

drop_old : {A : Type 0} (xs ys : List A) → drop (length xs) (xs ++ ys) ≡ ys
drop_old xs ys = drop-append xs ys

module _ {S : Type 0} (v : Server S) (h : IsServer v) (n : Network) where
  arrives : (b : Text) (t : Tcp) → deliver ((n.chop b).0 ∷ (n.chop b).1) t ≡ on_data b t
  arrives b t =
      deliver-flat (n.chop b).0 (n.chop b).1 t ∙ ap (λ (c : Text). on_data c t) (n.whole b)

  -- The server reads `cmds`, and what it writes has arrived.
  exchange_lem :
      (calls : List SocketCall) (cmds : List Text) (t : Tcp) (s : S)
      → t.buf ≡ []
      → whole_lines (split b'\n' (written calls)) ≡ cmds
      → exchange v n calls (t, s) ≡ (
        record t { buf = []; router = perform_all (map arrive (serve v cmds s).0) t.router },
        (serve v cmds s).1,
      )
  unfolding exchange
  exchange_lem calls cmds t s b e =
      let out = (serve v cmds s).0 in
      rw e (
        ap (λ (t' : Tcp). (t', (serve v cmds s).1))
          (arrives (frame out) t
            ∙ on_data-lines out t b (IsLine-Lacks out (serve-IsLine v h cmds s))))

  -- The call has made the waiters of `r` and written `calls`, in which the server reads `cmds`.
  pub conclude_lem :
      {A : Type 0} (await : Option Outcome → Result A) (t : Tcp) (r : Router)
      (calls : List SocketCall) (cmds : List Text) (p : ℕ) (s : S)
      → t.buf ≡ []
      → whole_lines (split b'\n' (written calls)) ≡ cmds
      → let r' = perform_all (map arrive (serve v cmds s).0) r in
        conclude v n await t (p, record t { router = r; calls = t.calls ++ calls }) s ≡ (
          await (outcome p r'.settled),
          (record t { buf = []; router = r'; calls = t.calls ++ calls }, (serve v cmds s).1),
        )
  unfolding conclude
  conclude_lem await t r calls cmds p s b e =
      let sent = record t { router = r; calls = t.calls ++ calls } in
      ap (λ (out : Tcp × S). (await (outcome p out.0.router.settled), out))
        (ap (λ (cs : List SocketCall). exchange v n cs (sent, s)) (drop_old t.calls calls)
          ∙ exchange_lem calls cmds sent s b e)

  single-Simulates :
      (cmd : Text)
      → Lacks b'\n' cmd
      → Simulates Ready ((tcp_link v n).send cmd) ((direct v).send cmd)
  unfolding tcp_link direct await_line join replies
  single-Simulates cmd one t s y =
      let r = (request t.router).1 in
      let (settled, idle) = request-serve v h t.router cmd s y.idle in
      subst
        (λ (out : Result Text × (Tcp × S)).
          Same Ready out (ok (v.answer cmd s).0, (v.answer cmd s).1))
        (sym (
          ap (λ (sent : ℕ × Tcp). conclude v n await_line t sent s) (send_lem cmd t y.connected)
          ∙ conclude_lem await_line t r (write (cmd ++ b'\n' ∷ []) ∷ []) (cmd ∷ []) t.router.created
              s y.empty (packet cmd [] (one, tt))))
        (record {
          result = ap await_line settled;
          server = serve-replies v h (cmd ∷ []) s;
          ready = record { connected = y.connected; empty = refl; idle = idle };
        })

  several-Simulates :
      (cmd : Text) (cmds : List Text)
      → All (Lacks b'\n') (cmd ∷ cmds)
      → Simulates Ready
          ((tcp_link v n).send_batch (cmd ∷ cmds))
          ((direct v).send_batch (cmd ∷ cmds))
  unfolding tcp_link direct await_lines
  several-Simulates cmd cmds one t s y =
      let all = cmd ∷ cmds in
      let r = (request_batch (length all) t.router).1 in
      let (settled, idle) = request_batch-serve v h t.router cmd cmds s y.idle in
      subst
        (λ (out : Result (List Text) × (Tcp × S)).
          Same Ready out (ok (replies v all s).0, (replies v all s).1))
        (sym (
          ap (λ (sent : ℕ × Tcp). conclude v n await_lines t sent s)
            (send_batch_connected all t y.connected)
          ∙ conclude_lem await_lines t r (write (join (b'\n' ∷ []) all ++ b'\n' ∷ []) ∷ []) all
              t.router.created s y.empty (packet cmd cmds one)))
        (record {
          result = ap await_lines settled;
          server = serve-replies v h all s;
          ready = record { connected = y.connected; empty = refl; idle = idle };
        })

  -- A client over TCP sees the server itself, if that answers each line by one line that is no
  -- event: a command without a newline returns the server's answer, and a batch of at least one
  -- such command returns the answers in order, however the network cuts the bytes and whatever
  -- events come between; and the connection, if ready before, is ready for the next call.
  pub tcp_link-Carries : Carries Ready (Lacks b'\n') (tcp_link v n) (direct v)
  tcp_link-Carries = record { single = single-Simulates; several = several-Simulates }
