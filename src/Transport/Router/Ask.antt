-- ===== src/Transport/Router/Ask.antt =====
-- Sending a request, a batch, or a request that is refused, adds to the queue of the specification.
use cuttle_db.Prelude.{
  ℕ, suc, ◌+◌, false, [], ◌∷◌, ◌++◌, append-nil, ◌≡◌, sym, ap, subst, ◌∙◌, arith, All-append, Text,
}
use cuttle_db.Transport.Router.{part, failed, Router, is_settled, replicate}
use cuttle_db.Transport.Router.Pending.{
  expand, Others, Models, Fresh-concat, is_settled_above, Others-above, Fresh-snoc, Agrees,
  settle_open, made-suc, bound-suc, expand-append, Collects-append, Collects-update,
}
use cuttle_db.Transport.Router.Queue.{one, many, Queue, ask, ask_batch, ask_refused, act, perform}

batch_waiters :
    (k : ℕ) {p n : ℕ} → p ≡ n → replicate (suc k) (part p (suc k)) ≡ expand (many n [] k ∷ [])
batch_waiters k e =
    let z : suc k ≡ 0 + suc k = omega arith in
    (λ i. replicate (suc k) (part (e i) (z i))) ∙ sym (append-nil _)

module _ (r : Router) (q : Queue) (m : Models r q) where
  pub ask-Agrees : Agrees r (perform ask r) (act ask q)
  unfolding perform
  ask-Agrees = (
    record {
      waits = cc (m.waits, m.numbered, expand-append q.pending (one q.next ∷ []));
      numbered = cc (m.numbered);
      collects = Collects-append r.collected q.pending (one q.next ∷ []) m.collects tt;
      fresh =
          Fresh-snoc (one q.next) q.pending r.settled m.made
            (is_settled_above q.next r.settled m.bound) m.fresh;
      made =
          All-append _ q.pending (one q.next ∷ []) (made-suc q.next q.pending m.made)
            (omega arith, tt);
      bound = bound-suc q.next r.settled m.bound;
    },
    sym (append-nil r.settled),
  )

  others : Others r.created q.pending
  others = subst (λ p. Others p q.pending) (sym m.numbered) (Others-above q.next q.pending m.made)

  unsettled : is_settled r.created r.settled ≡ false
  unsettled =
      subst (λ p. is_settled p r.settled ≡ false) (sym m.numbered)
        (is_settled_above q.next r.settled m.bound)

  pub ask_batch-Agrees : (k : ℕ) → Agrees r (perform (ask_batch k) r) (act (ask_batch k) q)
  unfolding perform
  ask_batch-Agrees k = (
    record {
      waits =
          cc (m.waits, batch_waiters k m.numbered, expand-append q.pending (many q.next [] k ∷ []));
      numbered = cc (m.numbered);
      collects =
          Collects-append _ q.pending (many q.next [] k ∷ [])
            (Collects-update r.collected r.created [] q.pending others m.collects)
            (ground (arith, m.numbered), tt);
      fresh =
          Fresh-snoc (many q.next [] k) q.pending r.settled m.made
            (is_settled_above q.next r.settled m.bound) m.fresh;
      made =
          All-append _ q.pending (many q.next [] k ∷ []) (made-suc q.next q.pending m.made)
            (omega arith, tt);
      bound = bound-suc q.next r.settled m.bound;
    },
    sym (append-nil r.settled),
  )

  pub ask_refused-Agrees : (e : Text) → Agrees r (perform (ask_refused e) r) (act (ask_refused e) q)
  unfolding perform
  ask_refused-Agrees e =
      rw (settle_open r.created (failed e) (record r { created = r.created + 1 }) unsettled) (
        record {
          waits = m.waits;
          numbered = cc (m.numbered);
          collects = m.collects;
          fresh = Fresh-concat r.created (failed e) q.pending r.settled others m.fresh;
          made = made-suc q.next q.pending m.made;
          bound =
              All-append _ r.settled _ (bound-suc q.next r.settled m.bound)
                (omega (arith, m.numbered), tt);
        },
        ap (λ (p : ℕ). r.settled ++ (p, failed e) ∷ []) m.numbered,
      )
