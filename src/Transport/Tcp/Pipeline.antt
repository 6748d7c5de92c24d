-- ===== src/Transport/Tcp/Pipeline.antt =====
-- A batch over TCP, from the commands to the bytes that come back.
use cuttle_db.Prelude.{
  ℕ, suc, true, List, [], ◌∷◌, ◌++◌, map, append_assoc, ◌≡◌, refl, sym, ap, subst, ◌∙◌, arith,
  length, All, Lacks, Text,
}
use cuttle_db.Text.{split, join}
use cuttle_db.Text.Laws.{split-append, ends_with-concat, drop_last-concat}
use cuttle_db.Transport.Router.{Router, lines, route, strip_cr, request, request_batch}
use cuttle_db.Transport.Router.Batch.{IsReply, batch-replies}
use cuttle_db.Transport.Router.Pending.{Models}
use cuttle_db.Transport.Router.Queue.{ask_batch, arrive, perform_all}
use cuttle_db.Transport.Tcp.{Tcp, write, send, send_batch, on_data, route_stripped}
use cuttle_db.Transport.Tcp.Stream.{process, process-cons, on_data-process}

-- How the server frames its lines.
abbrev pub frame : List Text → Text
frame [] = []
frame (l ∷ ls) = l ++ b'\r' ∷ b'\n' ∷ frame ls

pub strip_cr-concat : (l : Text) → strip_cr (l ++ b'\r' ∷ []) ≡ l
unfolding strip_cr
strip_cr-concat l = rw (ends_with-concat b'\r' l) (drop_last-concat b'\r' l)

pub Lacks-cr : (l : Text) → Lacks b'\n' l → Lacks b'\n' (l ++ b'\r' ∷ [])
Lacks-cr [] h = ((λ e. omega (arith, e)), tt)
Lacks-cr (c ∷ l) h = (h.0, Lacks-cr l h.1)

pub process-frame :
    (ls : List Text) (r : Router)
    → All (Lacks b'\n') ls
    → process route_stripped (split b'\n' (frame ls)) r ≡ ([], perform_all (map arrive ls) r)
unfolding perform_all
process-frame [] r h = unfold split in refl
process-frame (l ∷ ls) r h =
    rw
      (
        ← append_assoc l (b'\r' ∷ []) (b'\n' ∷ frame ls),
        split-append b'\n' (l ++ b'\r' ∷ []) (frame ls) (Lacks-cr l h.0),
        process-cons route_stripped (l ++ b'\r' ∷ []) (frame ls) r,
        strip_cr-concat l,
      )
      (process-frame ls (route l r) h.1)

-- One command.
pub send_lem :
    (cmd : Text) (t : Tcp)
    → t.connected ≡ true
    → send cmd t ≡ (
      t.router.created,
      record t { router = (request t.router).1; calls = t.calls ++ write (cmd ++ b'\n' ∷ []) ∷ [] },
    )
unfolding send
send_lem cmd t c = rw c

-- The state behind the `sendBatch` of these commands over a socket.
abbrev pub batch_sent : List Text → Tcp → Tcp
batch_sent cmds t = record t {
  router = (request_batch (length cmds) t.router).1;
  calls = t.calls ++ write (join (b'\n' ∷ []) cmds ++ b'\n' ∷ []) ∷ [];
}

pub send_batch_connected :
    (cmds : List Text) (t : Tcp)
    → t.connected ≡ true
    → send_batch cmds t ≡ (t.router.created, batch_sent cmds t)
unfolding send_batch
send_batch_connected cmds t c = rw c

pub on_data-frame :
    (ls : List Text) (t : Tcp)
    → t.buf ≡ []
    → All (Lacks b'\n') ls
    → (on_data (frame ls) t).router ≡ perform_all (map arrive ls) t.router
on_data-frame ls t b h =
    ap (λ (u : Tcp). u.router) (on_data-process (frame ls) t)
    ∙ ap (λ (buf : Text). (process route_stripped (split b'\n' (buf ++ frame ls)) t.router).1) b
    ∙ ap (λ (out : Text × Router). out.1) (process-frame ls t.router h)

batch_step :
    (k : ℕ) (ls : List Text) (r : Router)
    → perform_all (map arrive ls) (request_batch (suc k) r).1
      ≡ perform_all (ask_batch k ∷ map arrive ls) r
unfolding perform_all
batch_step k ls r = refl

-- A batch of at least one command on a connection where nothing waits and nothing is half read:
-- when the replies have come, one for each command and framed by CR LF, the batch has resolved with
-- them in order, and nothing else has been settled.
pub send_batch-on_data :
    (cmd : Text) (cmds ls : List Text) (n : ℕ) (t : Tcp)
    → Models t.router (record { pending = []; next = n })
    → t.connected ≡ true
    → t.buf ≡ []
    → All IsReply ls
    → All (Lacks b'\n') ls
    → length ls ≡ length (cmd ∷ cmds)
    → (on_data (frame ls) (send_batch (cmd ∷ cmds) t).1).router.settled
      ≡ t.router.settled ++ ((send_batch (cmd ∷ cmds) t).0, lines ls) ∷ []
send_batch-on_data cmd cmds ls n t m c b h one_line e =
    subst
      (λ (out : ℕ × Tcp).
        (on_data (frame ls) out.1).router.settled ≡ t.router.settled ++ (out.0, lines ls) ∷ [])
      (sym (send_batch_connected (cmd ∷ cmds) t c))
      (ap (λ (r : Router). r.settled)
          (on_data-frame ls (batch_sent (cmd ∷ cmds) t) b one_line
            ∙ batch_step (length cmds) ls t.router)
        ∙ batch-replies ls (length cmds) n t.router m h e)
