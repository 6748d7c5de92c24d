-- ===== src/Transport/Tcp/Closed.antt =====
-- A command that is sent when the socket has closed.
use cuttle_db.Prelude.{
  ℕ, true, false, List, [], ◌∷◌, ◌++◌, ◌≡◌, refl, sym, subst, length, Bool-cases, inl, inr, ◌⊎◌,
  Text, text,
}
use cuttle_db.Transport.Router.{Router, is_settled, add_listener, remove_listener, member}
use cuttle_db.Transport.Router.Pending.{Models, Fresh}
use cuttle_db.Transport.Router.Queue.{
  Request, one, promise_of, Queue, ask, ask_batch, ask_refused, break, act, perform,
}
use cuttle_db.Transport.Router.Refines.{perform-Agrees}
use cuttle_db.Transport.Tcp.Pipeline.{send_lem}
use cuttle_db.Transport.Tcp.{Tcp, write, on_failure, send, send_batch, on_event, off_event, close}

-- What the client may still do: no line and no failure comes from a socket that has closed.
pub data Use : Type 0 where
  sends : Text → Use
  batches : Text → List Text → Use
  registers : ℕ → Use
  removes : ℕ → Use
  closes : Use

abbrev pub use_socket : Use → Tcp → Tcp
use_socket (sends cmd) t = (send cmd t).1
use_socket (batches cmd cmds) t = (send_batch (cmd ∷ cmds) t).1
use_socket (registers cb) t = on_event cb t
use_socket (removes cb) t = off_event cb t
use_socket closes t = close t

unfoldable pub use_all : List Use → Tcp → Tcp
use_all [] t = t
use_all (u ∷ us) t = use_all us (use_socket u t)

abbrev Waits : ℕ → List Request → Type 0
Waits p [] = ⊥
Waits p (q ∷ qs) = (promise_of q ≡ p) ⊎ Waits p qs

Waits-front : (p : ℕ) (qs rs : List Request) → Waits p qs → Waits p (qs ++ rs)
Waits-front p [] rs h = absurd h
Waits-front p (q ∷ qs) rs (inl e) = inl e
Waits-front p (q ∷ qs) rs (inr h) = inr (Waits-front p qs rs h)

Waits-last : (p : ℕ) (qs : List Request) → Waits p (qs ++ one p ∷ [])
Waits-last p [] = inl refl
Waits-last p (q ∷ qs) = inr (Waits-last p qs)

Waits-open :
    (p : ℕ) (qs : List Request) (r : Router)
    → Fresh qs r.settled
    → Waits p qs
    → is_settled p r.settled ≡ false
Waits-open p [] r f h = absurd h
Waits-open p (q ∷ qs) r f (inl e) = subst (λ (n : ℕ). is_settled n r.settled ≡ false) e f.0
Waits-open p (q ∷ qs) r f (inr h) = Waits-open p qs r f.2 h

-- `p` is among the promises that wait.
record Stuck (p : ℕ) (r : Router) : Type 0 where
  queue : Queue
  models : Models r queue
  waits : Waits p queue.pending

ask-Stuck : (p : ℕ) (r : Router) → Stuck p r → Stuck p (perform ask r)
ask-Stuck p r k = record {
  queue = (act ask k.queue).0;
  models = (perform-Agrees ask r k.queue k.models).0;
  waits = Waits-front p k.queue.pending _ k.waits;
}

ask_batch-Stuck : (n p : ℕ) (r : Router) → Stuck p r → Stuck p (perform (ask_batch n) r)
ask_batch-Stuck n p r k = record {
  queue = (act (ask_batch n) k.queue).0;
  models = (perform-Agrees (ask_batch n) r k.queue k.models).0;
  waits = Waits-front p k.queue.pending _ k.waits;
}

ask_refused-Stuck :
    (e : Text) (p : ℕ) (r : Router) → Stuck p r → Stuck p (perform (ask_refused e) r)
ask_refused-Stuck e p r k = record {
  queue = (act (ask_refused e) k.queue).0;
  models = (perform-Agrees (ask_refused e) r k.queue k.models).0;
  waits = k.waits;
}

listen-Stuck :
    (p : ℕ) (r : Router) (cbs : List ℕ) → Stuck p r → Stuck p (record r { listeners = cbs })
listen-Stuck p r cbs k = record {
  queue = k.queue;
  models = record {
    waits = k.models.waits;
    numbered = k.models.numbered;
    collects = k.models.collects;
    fresh = k.models.fresh;
    made = k.models.made;
    bound = k.models.bound;
  };
  waits = k.waits;
}

use-Stuck : (u : Use) (p : ℕ) (t : Tcp) → Stuck p t.router → Stuck p (use_socket u t).router
unfolding send send_batch on_event off_event close perform add_listener remove_listener
use-Stuck (sends cmd) p t k = elim (Bool-cases t.connected) [
  | inl c ↦ rw c (ask-Stuck p t.router k)
  | inr c ↦ rw c (ask_refused-Stuck (text "not connected") p t.router k)
]
use-Stuck (batches cmd cmds) p t k = elim (Bool-cases t.connected) [
  | inl c ↦ rw c (ask_batch-Stuck (length cmds) p t.router k)
  | inr c ↦ rw c (ask_refused-Stuck (text "not connected") p t.router k)
]
use-Stuck (registers cb) p t k = elim (Bool-cases (member cb t.router.listeners)) [
  | inl c ↦ rw c k
  | inr c ↦ rw c (listen-Stuck p t.router _ k)
]
use-Stuck (removes cb) p t k = listen-Stuck p t.router _ k
use-Stuck closes p t k = elim (Bool-cases t.connected) [ inl c ↦ rw c k | inr c ↦ rw c k ]

use_all-Stuck : (us : List Use) (p : ℕ) (t : Tcp) → Stuck p t.router → Stuck p (use_all us t).router
unfolding use_all
use_all-Stuck [] p t k = k
use_all-Stuck (u ∷ us) p t k = use_all-Stuck us p (use_socket u t) (use-Stuck u p t k)

use_all-waits :
    (us : List Use) (p : ℕ) (t : Tcp)
    → Stuck p t.router
    → is_settled p (use_all us t).router.settled ≡ false
use_all-waits us p t k =
    let end = use_all-Stuck us p t k in
    Waits-open p end.queue.pending (use_all us t).router end.models.fresh end.waits

-- The handlers for `error` and `close` leave the socket in its place. So a command that is sent on a
-- connection behind them is not refused: it is written to the socket that has closed, and whatever
-- the client does afterwards, single commands, batches of at least one and `close` included, its
-- promise is never settled, since no line and no failure comes any more.
pub send-on_failure :
    (e cmd : Text) (us : List Use) (t : Tcp) (q : Queue)
    → Models t.router q
    → t.connected ≡ true
    → let (p, t') = send cmd (on_failure e t) in
      (t'.calls ≡ t.calls ++ write (cmd ++ b'\n' ∷ []) ∷ [])
      × (is_settled p (use_all us t').router.settled ≡ false)
unfolding send on_failure perform
send-on_failure e cmd us t q m c =
    let r = perform (break e) t.router in
    let m' = (perform-Agrees (break e) t.router q m).0 in
    let stuck : Stuck r.created (perform ask r) =
      subst (λ (n : ℕ). Stuck n (perform ask r)) (sym m'.numbered)
        (record {
          queue = (act ask (act (break e) q).0).0;
          models = (perform-Agrees ask r (act (break e) q).0 m').0;
          waits = inl refl;
        }) in
    rw (send_lem cmd (on_failure e t) c) (refl, use_all-waits us r.created _ stuck)
