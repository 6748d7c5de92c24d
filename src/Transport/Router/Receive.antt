-- ===== src/Transport/Router/Receive.antt =====
-- A line goes to the first request of the specification.
use cuttle_db.Prelude.{
  ℕ, zero, suc, ◌+◌, false, List, [], ◌∷◌, ◌++◌, append-nil, ◌≡◌, ◌≢◌, refl, sym, ap, eq→==, ==→eq,
  arith, ◌==◌, Bool-cases, inl, inr, length, length-append, All-append, Text,
}
use cuttle_db.Transport.Router.{
  Waiter, single, part, line, lines, Router, is_settled, settle, update, resolve, answer_next,
  replicate,
}
use cuttle_db.Transport.Router.Pending.{
  expand, Models, Fresh-concat, Agrees, settle_open, Collects-update,
}
use cuttle_db.Transport.Router.Queue.{Request, one, many, receive}

module _ (p n : ℕ) (l : Text) (r : Router) where
  resolve_last :
      length (r.collected p ++ l ∷ []) ≡ n
      → is_settled p r.settled ≡ false
      → resolve (part p n) l r ≡ record r {
        collected = update r.collected p (r.collected p ++ l ∷ []);
        settled = r.settled ++ (p, lines (r.collected p ++ l ∷ [])) ∷ [];
      }
  unfolding resolve settle
  resolve_last e h = rw (eq→== _ n e, h)

  resolve_more :
      length (r.collected p ++ l ∷ []) ≢ n
      → resolve (part p n) l r
        ≡ record r { collected = update r.collected p (r.collected p ++ l ∷ []) }
  unfolding resolve
  resolve_more ne = elim (Bool-cases (length (r.collected p ++ l ∷ []) == n)) [
    | inl same ↦ absurd (ne (==→eq _ n same))
    | inr other ↦ rw other
  ]

abbrev pub After : List Request → ℕ → Text → Router → Router → Type 0
After qs n l r r' = Agrees r r' (record { pending = (receive qs l).0; next = n }, (receive qs l).1)

answer_next-cons :
    (w : Waiter) (ws : List Waiter) (l : Text) (r : Router)
    → answer_next (w ∷ ws) l r ≡ resolve w l (record r { waiters = ws })
unfolding answer_next
answer_next-cons w ws l r = refl

answer_next-nil : (l : Text) (r : Router) → answer_next [] l r ≡ r
unfolding answer_next
answer_next-nil l r = refl

resolve_single :
    (p : ℕ) (l : Text) (r : Router)
    → is_settled p r.settled ≡ false
    → resolve (single p) l r ≡ record r { settled = r.settled ++ (p, line l) ∷ [] }
unfolding resolve
resolve_single p l r h = settle_open p (line l) r h

pub answer_next-Agrees :
    (qs : List Request) (n : ℕ) (l : Text) (r : Router)
    → Models r (record { pending = qs; next = n })
    → After qs n l r (answer_next (expand qs) l r)
answer_next-Agrees [] n l r m = rw answer_next-nil (m, sym (append-nil r.settled))
answer_next-Agrees (one p ∷ qs) n l r m =
    rw (answer_next-cons, resolve_single p l (record r { waiters = expand qs }) m.fresh.0)
      (
        record {
          waits = refl;
          numbered = m.numbered;
          collects = m.collects;
          fresh = Fresh-concat p (line l) qs r.settled m.fresh.1 m.fresh.2;
          made = m.made.1;
          bound = All-append _ r.settled _ m.bound (m.made.0, tt);
        },
        refl,
      )
answer_next-Agrees (many p got zero ∷ qs) n l r m =
    let size : length (r.collected p ++ l ∷ []) ≡ length got + 1 =
      omega (arith, length-append (r.collected p) (l ∷ []), ap length m.collects.0) in
    rw
      (
        answer_next-cons,
        resolve_last p (length got + 1) l (record r { waiters = expand qs }) size m.fresh.0,
      )
      (
        record {
          waits = refl;
          numbered = m.numbered;
          collects = Collects-update r.collected p _ qs m.fresh.1 m.collects.1;
          fresh = Fresh-concat p _ qs r.settled m.fresh.1 m.fresh.2;
          made = m.made.1;
          bound = All-append _ r.settled _ m.bound (m.made.0, tt);
        },
        ap (λ (out : List Text). r.settled ++ (p, lines (out ++ l ∷ [])) ∷ []) m.collects.0,
      )
answer_next-Agrees (many p got (suc k) ∷ qs) n l r m =
    let size : length (r.collected p ++ l ∷ []) ≢ length got + suc (suc k) =
      λ e. omega (arith, e, length-append (r.collected p) (l ∷ []), ap length m.collects.0) in
    let waiting : length got + suc (suc k) ≡ length (got ++ l ∷ []) + suc k =
      omega (arith, length-append got (l ∷ [])) in
    rw
      (
        answer_next-cons,
        resolve_more p (length got + suc (suc k)) l
            (record r {
              waiters = replicate (suc k) (part p (length got + suc (suc k))) ++ expand qs;
            })
            size,
      )
      (
        record {
          waits = ap (λ (j : ℕ). replicate (suc k) (part p j) ++ expand qs) waiting;
          numbered = m.numbered;
          collects = (
            ground (arith, m.collects.0),
            Collects-update r.collected p _ qs m.fresh.1 m.collects.1,
          );
          fresh = m.fresh;
          made = m.made;
          bound = m.bound;
        },
        sym (append-nil r.settled),
      )
