-- ===== src/Transport/Router/Refines.antt =====
-- Every run of the code is a run of the specification.
use cuttle_db.Prelude.{
  ℕ, zero, suc, ◌+◌, ◌<◌, true, false, List, [], ◌∷◌, ◌++◌, map, append_assoc, append-nil, ◌≡◌,
  refl, sym, ap, subst, ◌∙◌, arith, Bool-cases, inl, inr, length, All, All-append, Text,
}
use cuttle_db.Transport.Router.{
  Waiter, single, part, Outcome, failed, Log, Router, Event, parse_event, is_settled, settle,
  answer_next, broadcast, is_event, route, reject_each, promise, fail_all, replicate,
}
use cuttle_db.Transport.Router.Pending.{expand, Fresh, Models, Fresh-concat, Agrees, settle_open}
use cuttle_db.Transport.Router.Ask.{ask-Agrees, ask_batch-Agrees, ask_refused-Agrees}
use cuttle_db.Transport.Router.Receive.{After, answer_next-Agrees}
use cuttle_db.Transport.Router.Queue.{
  Request, one, many, promise_of, Queue, Action, ask, ask_batch, ask_refused, arrive, break, fails,
  act, act_all, perform, perform_all,
}

is_settled-concat_self :
    (p : ℕ) (o : Outcome) (log : Log) → is_settled p (log ++ (p, o) ∷ []) ≡ true
unfolding is_settled
is_settled-concat_self p o [] = ground arith
is_settled-concat_self p o ((k, x) ∷ log) = ground (arith, is_settled-concat_self p o log)

reject_each-cons :
    (w : Waiter) (ws : List Waiter) (e : Text) (r : Router)
    → reject_each (w ∷ ws) e r ≡ reject_each ws e (settle (promise w) (failed e) r)
unfolding reject_each
reject_each-cons w ws e r = refl

reject_each-nil : (e : Text) (r : Router) → reject_each [] e r ≡ r
unfolding reject_each
reject_each-nil e r = refl

settle_again : (p : ℕ) (o : Outcome) (r : Router) → is_settled p r.settled ≡ true → settle p o r ≡ r
unfolding settle
settle_again p o r h = rw h

reject_each-replicate :
    (k p n : ℕ) (ws : List Waiter) (e : Text) (r : Router)
    → is_settled p r.settled ≡ true
    → reject_each (replicate k (part p n) ++ ws) e r ≡ reject_each ws e r
reject_each-replicate zero p n ws e r h = refl
reject_each-replicate (suc k) p n ws e r h =
    reject_each-cons (part p n) (replicate k (part p n) ++ ws) e r
    ∙ ap (reject_each (replicate k (part p n) ++ ws) e) (settle_again p (failed e) r h)
    ∙ reject_each-replicate k p n ws e r h

-- Each request that waits is rejected once, in order, also a batch with several waiters.
reject_each-expand :
    (qs : List Request) (e : Text) (r : Router)
    → Fresh qs r.settled
    → reject_each (expand qs) e r ≡ record r { settled = r.settled ++ map (fails e) qs }
reject_each-expand [] e r f =
    reject_each-nil e r
    ∙ ap (λ (log : Log). record r { settled = log }) (sym (append-nil r.settled))
reject_each-expand (one p ∷ qs) e r f =
    reject_each-cons (single p) (expand qs) e r
    ∙ ap (reject_each (expand qs) e) (settle_open p (failed e) r f.0)
    ∙ reject_each-expand qs e (record r { settled = r.settled ++ (p, failed e) ∷ [] })
        (Fresh-concat p (failed e) qs r.settled f.1 f.2)
    ∙ ap (λ (log : Log). record r { settled = log })
        (append_assoc r.settled ((p, failed e) ∷ []) (map (fails e) qs))
reject_each-expand (many p got k ∷ qs) e r f =
    let n = length got + suc k in
    reject_each-cons (part p n) (replicate k (part p n) ++ expand qs) e r
    ∙ ap (reject_each (replicate k (part p n) ++ expand qs) e) (settle_open p (failed e) r f.0)
    ∙ reject_each-replicate k p n (expand qs) e _ (is_settled-concat_self p (failed e) r.settled)
    ∙ reject_each-expand qs e (record r { settled = r.settled ++ (p, failed e) ∷ [] })
        (Fresh-concat p (failed e) qs r.settled f.1 f.2)
    ∙ ap (λ (log : Log). record r { settled = log })
        (append_assoc r.settled ((p, failed e) ∷ []) (map (fails e) qs))

bound-fails :
    (n : ℕ) (e : Text) (qs : List Request)
    → All (λ p. promise_of p < n) qs
    → All (λ (x : ℕ × Outcome). x.0 < n) (map (fails e) qs)
bound-fails n e [] h = tt
bound-fails n e (q ∷ qs) h = (h.0, bound-fails n e qs h.1)

fail_all-expand :
    (r : Router) (q : Queue) (e : Text)
    → Models r q
    → fail_all e r ≡ record r { waiters = []; settled = r.settled ++ map (fails e) q.pending }
unfolding fail_all
fail_all-expand r q e m =
    ap (λ (ws : List Waiter). reject_each ws e (record r { waiters = [] })) m.waits
    ∙ reject_each-expand q.pending e (record r { waiters = [] }) m.fresh

break-Agrees :
    (r : Router) (q : Queue) (e : Text)
    → Models r q
    → Agrees r (perform (break e) r) (act (break e) q)
unfolding perform
break-Agrees r q e m = rw (fail_all-expand r q e m) (
  record {
    waits = refl;
    numbered = m.numbered;
    collects = tt;
    fresh = tt;
    made = tt;
    bound = All-append _ r.settled _ m.bound (bound-fails q.next e q.pending m.made);
  },
  refl,
)

route_event : (l : Text) (r : Router) → is_event l ≡ true → route l r ≡ broadcast (parse_event l) r
unfolding route
route_event l r h = rw h

route_reply : (l : Text) (r : Router) → is_event l ≡ false → route l r ≡ answer_next r.waiters l r
unfolding route
route_reply l r h = rw h

broadcast-Agrees :
    (r : Router) (q : Queue) (evt : Event) → Models r q → Agrees r (broadcast evt r) (q, [])
unfolding broadcast
broadcast-Agrees r q evt m = (
  record {
    waits = m.waits;
    numbered = m.numbered;
    collects = m.collects;
    fresh = m.fresh;
    made = m.made;
    bound = m.bound;
  },
  sym (append-nil r.settled),
)

arrive-Agrees :
    (r : Router) (q : Queue) (l : Text)
    → Models r q
    → Agrees r (perform (arrive l) r) (act (arrive l) q)
unfolding perform
arrive-Agrees r q l m = elim (Bool-cases (is_event l)) [
  | inl event ↦ rw (route_event l r event, event) (broadcast-Agrees r q (parse_event l) m)
  | inr reply ↦
      rw (route_reply l r reply, reply)
        (subst (λ ws. After q.pending q.next l r (answer_next ws l r)) (sym m.waits)
          (answer_next-Agrees q.pending q.next l r m))
]

-- One action, whatever it is.
pub perform-Agrees :
    (a : Action) (r : Router) (q : Queue) → Models r q → Agrees r (perform a r) (act a q)
perform-Agrees ask r q m = ask-Agrees r q m
perform-Agrees (ask_batch k) r q m = ask_batch-Agrees r q m k
perform-Agrees (ask_refused e) r q m = ask_refused-Agrees r q m e
perform-Agrees (arrive l) r q m = arrive-Agrees r q l m
perform-Agrees (break e) r q m = break-Agrees r q e m

-- Any run of requests, batches of at least one command, refusals, lines, events and failures, from
-- a router that stands for a queue (its waiters are those of the queue's requests in order, its
-- promises are numbered below the next, and those that wait are open): the code ends in a state that stands for the queue's end, and has settled the same
-- promises in the same order with the same outcomes.
pub perform_all-Agrees :
    (actions : List Action) (r : Router) (q : Queue)
    → Models r q
    → Agrees r (perform_all actions r) (act_all actions q)
unfolding perform_all act_all
perform_all-Agrees [] r q m = (m, sym (append-nil r.settled))
perform_all-Agrees (a ∷ more) r q m =
    let (m', s) = perform-Agrees a r q m in
    let (m'', s') = perform_all-Agrees more (perform a r) (act a q).0 m' in
    (
      m'',
      s'
          ∙ ap (λ (log : Log). log ++ (act_all more (act a q).0).1) s
          ∙ append_assoc r.settled (act a q).1 _,
    )
