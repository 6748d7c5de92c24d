-- ===== src/Transport/Router/Lost.antt =====
-- The batch that never settles.
use cuttle_db.Prelude.{
  ℕ, zero, suc, ◌+◌, ◌<◌, false, List, [], ◌∷◌, map, append-nil, ◌≡◌, ◌≢◌, refl, sym, ap, subst,
  ◌∙◌, arith, Bool-cases, inl, inr, All, All-append, Text,
}
use cuttle_db.Transport.Router.{Outcome, Log, Router, is_event, is_settled, request_batch}
use cuttle_db.Transport.Router.Pending.{
  Models, Others, Others-above, made-suc, bound-suc, Collects-update,
}
use cuttle_db.Transport.Router.Queue.{
  Request, one, many, Queue, receive, Action, ask, ask_batch, ask_refused, arrive, break, fails,
  act, act_all, perform_all,
}
use cuttle_db.Transport.Router.Refines.{perform_all-Agrees}

-- A promise that no request waits for, and that is not new, stays as it is.
record Lost (p : ℕ) (q : Queue) : Type 0 where
  others : Others p q.pending
  old : p < q.next

receive-Lost :
    (p : ℕ) (qs : List Request) (l : Text)
    → Others p qs
    → Others p (receive qs l).0 × All (λ (e : ℕ × Outcome). e.0 ≢ p) (receive qs l).1
receive-Lost p [] l h = (tt, tt)
receive-Lost p (one k ∷ qs) l h = (h.1, (h.0, tt))
receive-Lost p (many k got zero ∷ qs) l h = (h.1, (h.0, tt))
receive-Lost p (many k got (suc n) ∷ qs) l h = (h, tt)

fails-Lost :
    (p : ℕ) (qs : List Request) (e : Text)
    → Others p qs
    → All (λ (x : ℕ × Outcome). x.0 ≢ p) (map (fails e) qs)
fails-Lost p [] e h = tt
fails-Lost p (q ∷ qs) e h = (h.0, fails-Lost p qs e h.1)

act-Lost :
    (a : Action) (p : ℕ) (q : Queue)
    → Lost p q
    → Lost p (act a q).0 × All (λ (e : ℕ × Outcome). e.0 ≢ p) (act a q).1
act-Lost ask p q h = (
  record {
    others = All-append _ q.pending (one q.next ∷ []) h.others ((λ e. omega (arith, e, h.old)), tt);
    old = omega (arith, h.old);
  },
  tt,
)
act-Lost (ask_batch k) p q h = (
  record {
    others =
        All-append _ q.pending (many q.next [] k ∷ []) h.others
          ((λ e. omega (arith, e, h.old)), tt);
    old = omega (arith, h.old);
  },
  tt,
)
act-Lost (ask_refused e) p q h =
    (record { others = h.others; old = omega (arith, h.old) }, ((λ e. omega (arith, e, h.old)), tt))
act-Lost (arrive l) p q h = elim (Bool-cases (is_event l)) [
  | inl event ↦ rw event (h, tt)
  | inr reply ↦ rw reply (
      let (kept, none_settled) = receive-Lost p q.pending l h.others in
      (record { others = kept; old = h.old }, none_settled))
]
act-Lost (break e) p q h = (record { others = tt; old = h.old }, fails-Lost p q.pending e h.others)

act_all-Lost :
    (actions : List Action) (p : ℕ) (q : Queue)
    → Lost p q
    → All (λ (e : ℕ × Outcome). e.0 ≢ p) (act_all actions q).1
unfolding act_all
act_all-Lost [] p q h = tt
act_all-Lost (a ∷ more) p q h =
    let (h', now) = act-Lost a p q h in
    All-append _ (act a q).1 _ now (act_all-Lost more p (act a q).0 h')

is_settled_none :
    (p : ℕ) (log : Log) → All (λ (e : ℕ × Outcome). e.0 ≢ p) log → is_settled p log ≡ false
unfolding is_settled
is_settled_none p [] h = refl
is_settled_none p ((k, o) ∷ log) h = ground (arith, is_settled_none p log h.1)

below-ne :
    (n : ℕ) (log : Log)
    → All (λ (e : ℕ × Outcome). e.0 < n) log
    → All (λ (e : ℕ × Outcome). e.0 ≢ n) log
below-ne n [] h = tt
below-ne n (x ∷ log) h = ((λ e. omega (arith, e, h.0)), below-ne n log h.1)

-- No waiter stands for the promise of an empty batch.
empty_batch-Models :
    (r : Router) (q : Queue)
    → Models r q
    → Models (request_batch 0 r).1 (record q { next = q.next + 1 })
unfolding request_batch
empty_batch-Models r q m = record {
  waits = append-nil r.waiters ∙ m.waits;
  numbered = cc (m.numbered);
  collects =
      Collects-update r.collected r.created [] q.pending
        (subst (λ p. Others p q.pending) (sym m.numbered) (Others-above q.next q.pending m.made))
        m.collects;
  fresh = m.fresh;
  made = made-suc q.next q.pending m.made;
  bound = bound-suc q.next r.settled m.bound;
}

-- The promise of a batch with no command is never settled, whatever happens on the connection
-- afterwards, a failure included.
pub empty_batch_hangs :
    (actions : List Action) (r : Router) (q : Queue)
    → Models r q
    → is_settled r.created (perform_all actions (request_batch 0 r).1).settled ≡ false
empty_batch_hangs actions r q m =
    let later = record q { next = q.next + 1 } in
    let run = perform_all-Agrees actions (request_batch 0 r).1 later (empty_batch-Models r q m) in
    let lost : Lost q.next later = record {
      others = Others-above q.next q.pending m.made;
      old = omega arith;
    } in
    ap (λ (p : ℕ). is_settled p (perform_all actions (request_batch 0 r).1).settled) m.numbered
    ∙ ap (is_settled q.next) run.1
    ∙ is_settled_none q.next _ (
        unfold request_batch in
        All-append _ r.settled _ (below-ne q.next r.settled m.bound)
          (act_all-Lost actions q.next later lost))
