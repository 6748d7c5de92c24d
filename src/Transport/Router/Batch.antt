-- ===== src/Transport/Router/Batch.antt =====
-- What a batch resolves with, and the batch that never settles.
use cuttle_db.Prelude.{
  ℕ, zero, suc, ◌+◌, false, List, [], ◌∷◌, ◌++◌, map, append_assoc, ◌≡◌, sym, ap, ◌∙◌, arith,
  length, All, Text,
}
use cuttle_db.Transport.Router.{lines, Log, Router, is_event}
use cuttle_db.Transport.Router.Pending.{Models}
use cuttle_db.Transport.Router.Queue.{many, Queue, ask_batch, arrive, act_all, perform_all}
use cuttle_db.Transport.Router.Refines.{perform_all-Agrees}

abbrev pub IsReply : Text → Type 0
IsReply l = is_event l ≡ false

act_all-arrive :
    (p : ℕ) (got ls : List Text) (k n : ℕ)
    → All IsReply ls
    → length ls ≡ suc k
    → act_all (map arrive ls) (record { pending = many p got k ∷ []; next = n })
      ≡ (record { pending = []; next = n }, (p, lines (got ++ ls)) ∷ [])
unfolding act_all
act_all-arrive p got [] k n h e = absurd (omega (arith, e))
act_all-arrive p got (l ∷ []) zero n h e = rw h.0
act_all-arrive p got (l ∷ l' ∷ ls) zero n h e = absurd (omega (arith, e))
act_all-arrive p got (l ∷ []) (suc k) n h e = absurd (omega (arith, e))
act_all-arrive p got (l ∷ l' ∷ ls) (suc k) n h e = rw h.0 (
    act_all-arrive p (got ++ l ∷ []) (l' ∷ ls) k n h.1 (omega (arith, e))
    ∙ ap (λ (out : List Text). (record { pending = []; next = n }, (p, lines out) ∷ []))
        (append_assoc got (l ∷ []) (l' ∷ ls)))

-- A batch on a connection where nothing waits resolves with the replies, in order, as soon as there
-- is one for each command.
pub batch-replies :
    (ls : List Text) (k n : ℕ) (r : Router)
    → Models r (record { pending = []; next = n })
    → All IsReply ls
    → length ls ≡ suc k
    → (perform_all (ask_batch k ∷ map arrive ls) r).settled
      ≡ r.settled ++ (r.created, lines ls) ∷ []
batch-replies ls k n r m h e =
    let run =
      perform_all-Agrees (ask_batch k ∷ map arrive ls) r (record { pending = []; next = n }) m in
    run.1
    ∙ ap (λ (log : Log). r.settled ++ log)
        (unfold act_all in
          ap (λ (out : Queue × Log). out.1) (act_all-arrive n [] ls k (n + 1) h e)
          ∙ ap (λ (p : ℕ). (p, lines ls) ∷ []) (sym m.numbered))
