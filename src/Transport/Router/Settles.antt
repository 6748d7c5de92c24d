-- ===== src/Transport/Router/Settles.antt =====
-- No promise is forgotten: each one waits for its lines or is settled.
use cuttle_db.Prelude.{
  ℕ, zero, suc, ◌+◌, ◌<◌, Bool, true, false, ◌||◌, List, [], ◌∷◌, ◌++◌, map, append_assoc,
  append-nil, ◌≡◌, refl, sym, ap, ◌∙◌, subst, arith, ◌==◌, length, Text,
}
use cuttle_db.Transport.Router.{
  Waiter, failed, Log, is_settled, promise, replicate, part, fresh_router,
}
use cuttle_db.Transport.Router.Pending.{Models, expand}
use cuttle_db.Transport.Router.Queue.{
  Request, one, many, promise_of, Queue, receive, Action, ask, ask_batch, ask_refused, arrive,
  break, fails, act, act_all, perform_all, perform_all-append,
}
use cuttle_db.Transport.Router.Refines.{perform_all-Agrees}

abbrev pub is_waiting : ℕ → List Request → Bool
is_waiting p [] = false
is_waiting p (q ∷ qs) = promise_of q == p || is_waiting p qs

is_waiting-append :
    (p : ℕ) (qs rs : List Request) → is_waiting p (qs ++ rs) ≡ (is_waiting p qs || is_waiting p rs)
is_waiting-append p [] rs = refl
is_waiting-append p (q ∷ qs) rs = ground (arith, is_waiting-append p qs rs)

is_settled-append :
    (p : ℕ) (log more : Log) → is_settled p (log ++ more) ≡ (is_settled p log || is_settled p more)
unfolding is_settled
is_settled-append p [] more = refl
is_settled-append p ((k, o) ∷ log) more = ground (arith, is_settled-append p log more)

-- What a line takes from the queue it settles.
receive-waiting :
    (p : ℕ) (qs : List Request) (l : Text)
    → (is_waiting p (receive qs l).0 || is_settled p (receive qs l).1) ≡ is_waiting p qs
unfolding is_settled
receive-waiting p [] l = refl
receive-waiting p (one k ∷ qs) l = ground arith
receive-waiting p (many k got zero ∷ qs) l = ground arith
receive-waiting p (many k got (suc n) ∷ qs) l = ground arith

fails-waiting :
    (p : ℕ) (qs : List Request) (e : Text) → is_settled p (map (fails e) qs) ≡ is_waiting p qs
unfolding is_settled
fails-waiting p [] e = refl
fails-waiting p (q ∷ qs) e = ground (arith, fails-waiting p qs e)

-- Promise `p` waits in the queue, or the log has it.
abbrev pub Known : ℕ → Queue → Log → Type 0
Known p q log = (is_waiting p q.pending || is_settled p log) ≡ true

act-Known :
    (a : Action) (p : ℕ) (q : Queue) (log : Log)
    → (p < q.next → Known p q log)
    → p < (act a q).0.next
    → Known p (act a q).0 (log ++ (act a q).1)
unfolding is_settled
act-Known ask p q log h b =
    ground (arith, h, append-nil log, is_waiting-append p q.pending (one q.next ∷ []))
act-Known (ask_batch k) p q log h b =
    ground (arith, h, append-nil log, is_waiting-append p q.pending (many q.next [] k ∷ []))
act-Known (ask_refused e) p q log h b =
    ground (arith, h, is_settled-append p log ((q.next, failed e) ∷ []))
act-Known (arrive l) p q log h b = ground (
  arith,
  h,
  append-nil log,
  is_settled-append p log (receive q.pending l).1,
  receive-waiting p q.pending l,
)
act-Known (break e) p q log h b =
    ground
      (arith, h, is_settled-append p log (map (fails e) q.pending), fails-waiting p q.pending e)

act_all-Known :
    (actions : List Action) (p : ℕ) (q : Queue) (log : Log)
    → (p < q.next → Known p q log)
    → p < (act_all actions q).0.next
    → Known p (act_all actions q).0 (log ++ (act_all actions q).1)
unfolding act_all
act_all-Known [] p q log h b = rw (append-nil log) (h b)
act_all-Known (a ∷ more) p q log h b =
    rw (← append_assoc log (act a q).1 (act_all more (act a q).0).1)
      (act_all-Known more p (act a q).0 (log ++ (act a q).1) (act-Known a p q log h) b)

abbrev pub has_waiter : ℕ → List Waiter → Bool
has_waiter p [] = false
has_waiter p (w ∷ ws) = promise w == p || has_waiter p ws

has_waiter-replicate :
    (p k n m : ℕ) (ws : List Waiter)
    → has_waiter p (replicate k (part m n) ++ ws)
      ≡ (has_waiter p (replicate k (part m n)) || has_waiter p ws)
has_waiter-replicate p zero n m ws = refl
has_waiter-replicate p (suc k) n m ws = ground (arith, has_waiter-replicate p k n m ws)

has_waiter-expand :
    (p : ℕ) (qs : List Request) → is_waiting p qs ≡ true → has_waiter p (expand qs) ≡ true
has_waiter-expand p [] h = h
has_waiter-expand p (one k ∷ qs) h = ground (arith, has_waiter-expand p qs)
has_waiter-expand p (many k got n ∷ qs) h =
    ground
      (arith, has_waiter-expand p qs, has_waiter-replicate p n (length got + suc n) k (expand qs))

Known-has_waiter :
    (p : ℕ) (q : Queue) (log : Log)
    → Known p q log
    → (has_waiter p (expand q.pending) || is_settled p log) ≡ true
Known-has_waiter p q log h = ground (arith, has_waiter-expand p q.pending)

abbrev pub idle : Queue
idle = record { pending = []; next = 0 }

-- A new connection stands for the empty queue.
pub fresh-Models : Models fresh_router idle
fresh-Models = record {
  waits = refl;
  numbered = refl;
  collects = tt;
  fresh = tt;
  made = tt;
  bound = tt;
}

-- After any run on a new connection in which no batch is empty, every promise that was made is
-- settled or has a waiter in the queue: none is forgotten.
pub settled_or_waiting :
    (actions : List Action) (p : ℕ)
    → p < (perform_all actions fresh_router).created
    → (has_waiter p (perform_all actions fresh_router).waiters
        || is_settled p (perform_all actions fresh_router).settled)
      ≡ true
settled_or_waiting actions p b =
    let (m, s) = perform_all-Agrees actions fresh_router idle fresh-Models in
    let known : Known p (act_all actions idle).0 (act_all actions idle).1 =
      act_all-Known actions p idle [] (λ none. absurd (omega arith))
        (subst (λ n. p < n) m.numbered b) in
    rw (m.waits, s) (Known-has_waiter p (act_all actions idle).0 (act_all actions idle).1 known)

-- A failure ends every wait: after any run on a new connection that ends with one and in which no
-- batch is empty, no waiter is left, and every promise that was made is settled.
pub break-settles :
    (actions : List Action) (e : Text) (p : ℕ)
    → p < (perform_all (actions ++ break e ∷ []) fresh_router).created
    → let r = perform_all (actions ++ break e ∷ []) fresh_router in
      (r.waiters ≡ []) × (is_settled p r.settled ≡ true)
break-settles actions e p made =
    let run = actions ++ break e ∷ [] in
    let (m, _) = perform_all-Agrees actions fresh_router idle fresh-Models in
    let (m', _) =
      perform_all-Agrees (break e ∷ []) (perform_all actions fresh_router) (act_all actions idle).0
        m in
    let empty : (perform_all run fresh_router).waiters ≡ [] =
      rw (perform_all-append actions (break e ∷ []) fresh_router) (unfold act_all in m'.waits) in
    (
      empty,
      ap
            (λ (ws : List Waiter).
              has_waiter p ws || is_settled p (perform_all run fresh_router).settled)
            (sym empty)
          ∙ settled_or_waiting run p made,
    )
