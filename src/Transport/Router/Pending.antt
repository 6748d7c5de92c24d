-- ===== src/Transport/Router/Pending.antt =====
-- When the waiters of the code stand for the requests of the specification, and what that needs.
use cuttle_db.Prelude.{
  ℕ, suc, ◌+◌, ◌<◌, false, List, [], ◌∷◌, ◌++◌, append_assoc, ◌≡◌, ◌≢◌, refl, arith, length, All,
  All-append, Text,
}
use cuttle_db.Transport.Router.{
  Waiter, single, part, Outcome, Log, Router, is_settled, settle, update, replicate,
}
use cuttle_db.Transport.Router.Queue.{Request, one, many, promise_of, Queue}

-- The waiters of one request: a batch has one for each line that it still waits for.
abbrev pub waiters_of : Request → List Waiter
waiters_of (one p) = single p ∷ []
waiters_of (many p got k) = replicate (suc k) (part p (length got + suc k))

abbrev pub expand : List Request → List Waiter
expand [] = []
expand (q ∷ qs) = waiters_of q ++ expand qs

abbrev pub Collects : (ℕ → List Text) → List Request → Type 0
Collects f [] = Unit
Collects f (one p ∷ qs) = Collects f qs
Collects f (many p got k ∷ qs) = (f p ≡ got) × Collects f qs

abbrev pub Others : ℕ → List Request → Type 0
Others p = All (λ q. promise_of q ≢ p)

-- The requests that wait are not settled, and have promises of their own.
abbrev pub Fresh : List Request → Log → Type 0
Fresh [] log = Unit
Fresh (q ∷ qs) log =
    (is_settled (promise_of q) log ≡ false) × Others (promise_of q) qs × Fresh qs log

pub record Models (r : Router) (q : Queue) : Type 0 where
  pub waits : r.waiters ≡ expand q.pending
  pub numbered : r.created ≡ q.next
  pub collects : Collects r.collected q.pending
  pub fresh : Fresh q.pending r.settled
  pub made : All (λ p. promise_of p < q.next) q.pending
  pub bound : All (λ (e : ℕ × Outcome). e.0 < q.next) r.settled

pub is_settled-concat :
    (p q : ℕ) (o : Outcome) (log : Log)
    → p ≢ q
    → is_settled p (log ++ (q, o) ∷ []) ≡ is_settled p log
unfolding is_settled
is_settled-concat p q o [] h = ground arith
is_settled-concat p q o ((k, x) ∷ log) h = rw (is_settled-concat p q o log h)

pub Fresh-concat :
    (p : ℕ) (o : Outcome) (qs : List Request) (log : Log)
    → Others p qs
    → Fresh qs log
    → Fresh qs (log ++ (p, o) ∷ [])
Fresh-concat p o [] log h f = tt
Fresh-concat p o (q ∷ qs) log h f =
    (rw (is_settled-concat (promise_of q) p o log h.0) f.0, f.1, Fresh-concat p o qs log h.1 f.2)

pub is_settled_above :
    (n : ℕ) (log : Log) → All (λ (e : ℕ × Outcome). e.0 < n) log → is_settled n log ≡ false
unfolding is_settled
is_settled_above n [] h = refl
is_settled_above n ((k, x) ∷ log) h = ground (arith, is_settled_above n log h.1)

pub Others-above : (n : ℕ) (qs : List Request) → All (λ q. promise_of q < n) qs → Others n qs
Others-above n [] h = tt
Others-above n (q ∷ qs) h = ((λ e. omega (arith, e, h.0)), Others-above n qs h.1)

-- A new request at the end.
pub Fresh-snoc :
    (new : Request) (qs : List Request) (log : Log)
    → All (λ q. promise_of q < promise_of new) qs
    → is_settled (promise_of new) log ≡ false
    → Fresh qs log
    → Fresh (qs ++ new ∷ []) log
Fresh-snoc new [] log h s f = (s, tt, tt)
Fresh-snoc new (q ∷ qs) log h s f = (
  f.0,
  All-append _ qs (new ∷ []) f.1 ((λ e. omega (arith, e, h.0)), tt),
  Fresh-snoc new qs log h.1 s f.2,
)

pub made-suc :
    (n : ℕ) (qs : List Request)
    → All (λ q. promise_of q < n) qs
    → All (λ q. promise_of q < n + 1) qs
made-suc n [] h = tt
made-suc n (q ∷ qs) h = (omega (arith, h.0), made-suc n qs h.1)

pub bound-suc :
    (n : ℕ) (log : Log)
    → All (λ (e : ℕ × Outcome). e.0 < n) log
    → All (λ (e : ℕ × Outcome). e.0 < n + 1) log
bound-suc n [] h = tt
bound-suc n (e ∷ log) h = (omega (arith, h.0), bound-suc n log h.1)

pub expand-append : (ps qs : List Request) → expand (ps ++ qs) ≡ expand ps ++ expand qs
expand-append [] qs = refl
expand-append (p ∷ ps) qs = rw (expand-append ps qs, append_assoc)

pub Collects-append :
    (f : ℕ → List Text) (ps qs : List Request)
    → Collects f ps
    → Collects f qs
    → Collects f (ps ++ qs)
Collects-append f [] qs h k = k
Collects-append f (one p ∷ ps) qs h k = Collects-append f ps qs h k
Collects-append f (many p got n ∷ ps) qs h k = (h.0, Collects-append f ps qs h.1 k)

pub Collects-update :
    (f : ℕ → List Text) (p : ℕ) (out : List Text) (qs : List Request)
    → Others p qs
    → Collects f qs
    → Collects (update f p out) qs
Collects-update f p out [] h k = tt
Collects-update f p out (one q ∷ qs) h k = Collects-update f p out qs h.1 k
Collects-update f p out (many q got n ∷ qs) h k =
    (ground (arith, h.0), Collects-update f p out qs h.1 k.1)

-- The code's state still stands for the specification's, and the same promises are settled.
abbrev pub Agrees : Router → Router → Queue × Log → Type 0
Agrees r r' (q', log) = Models r' q' × (r'.settled ≡ r.settled ++ log)

pub settle_open :
    (p : ℕ) (o : Outcome) (r : Router)
    → is_settled p r.settled ≡ false
    → settle p o r ≡ record r { settled = r.settled ++ (p, o) ∷ [] }
unfolding settle
settle_open p o r h = rw h
