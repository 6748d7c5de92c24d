-- ===== src/Transport/Tcp/Stream.antt =====
-- The stream of chunks is read as its lines, however it is cut into chunks.
use cuttle_db.Prelude.{
  ℕ, Bool, true, false, zero, suc, ◌+◌, ◌<◌, List, [], ◌∷◌, ◌++◌, append_assoc, ◌⊎◌, inl, inr, ◌≡◌,
  refl, ap, ◌∙◌, if◌then◌else◌, arith, ◌==◌, Bool-cases, ==→eq, length, length-append, drop,
  take-append, Lacks, Text,
}
use cuttle_db.Text.{split, ends_with, drop_last}
use cuttle_db.Text.Laws.{index_of-Lacks, index_of-append, split-Lacks, split-append, split-cons}
use cuttle_db.Transport.Router.{Router, route, strip_cr}
use cuttle_db.Transport.Tcp.{Tcp, drain, route_stripped, on_data}

-- A text without newlines, or its first line and what follows the newline.
Cut : Text → Type 0
Cut s = Lacks b'\n' s ⊎ ((p : Text) × (q : Text) × (s ≡ p ++ b'\n' ∷ q) × Lacks b'\n' p)

Cut-cons : (c : ℕ) (s : Text) → Cut s → Cut (c ∷ s)
unfolding Cut
Cut-cons c s k = elim (Bool-cases (c == b'\n')) [
  | inl e ↦ inr ([], s, ap (λ (d : ℕ). d ∷ s) (==→eq c b'\n' e), tt)
  | inr ne ↦ elim k [
    | inl lacks ↦ inl ((ground arith), lacks)
    | inr (p, q, e, lacks) ↦ inr (c ∷ p, q, ap (λ (t : Text). c ∷ t) e, ((ground arith), lacks))
  ]
]

cut : (s : Text) → Cut s
cut [] = unfold Cut in inl tt
cut (c ∷ s) = Cut-cons c s (cut s)

module _ {ℓ} {R : Type ℓ} (f : Text → R → R) where
  -- Every part but the last is a line; the last is what is left in the buffer.
  abbrev pub process : List Text → R → Text × R
  process [] r = ([], r)
  process (p ∷ []) r = (p, r)
  process (p ∷ q ∷ ps) r = process (q ∷ ps) (f p r)

  pub process-cons :
      (p s : Text) (r : R) → process (p ∷ split b'\n' s) r ≡ process (split b'\n' s) (f p r)
  process-cons p s r = let (h, t, e) = split-cons b'\n' s in rw e

  pub process-append :
      (fuel : ℕ) (s b : Text) (r : R)
      → length s < fuel
      → process (split b'\n' (s ++ b)) r
        ≡ process (split b'\n' ((process (split b'\n' s) r).0 ++ b)) (process (split b'\n' s) r).1
  unfolding Cut
  process-append zero s b r h = absurd (omega arith)
  process-append (suc fuel) s b r h = elim (cut s) [
    | inl lacks ↦ rw (split-Lacks b'\n' s lacks)
    | inr (p, q, e, lacks) ↦ rw e (
        rw
          (
            append_assoc p (b'\n' ∷ q) b,
            split-append b'\n' p (q ++ b) lacks,
            split-append b'\n' p q lacks,
            process-cons p (q ++ b) r,
            process-cons p q r,
          )
          (process-append fuel q b (f p r)
            (omega (arith, ap length e, length-append p (b'\n' ∷ q)))))
  ]

  drop_line : (p q : Text) → drop (length p + 1) (p ++ b'\n' ∷ q) ≡ q
  drop_line [] q = refl
  drop_line (c ∷ p) q =
      let e : suc (length p) + 1 ≡ suc (length p + 1) = omega arith in rw e (drop_line p q)

  drain-process :
      (fuel : ℕ) (s : Text) (r : R) → length s < fuel → drain f fuel s r ≡ process (split b'\n' s) r
  unfolding drain Cut
  drain-process zero s r h = absurd (omega arith)
  drain-process (suc fuel) s r h = elim (cut s) [
    | inl lacks ↦ rw (index_of-Lacks b'\n' s lacks, split-Lacks b'\n' s lacks, drain)
    | inr (p, q, e, lacks) ↦ rw e (
        rw
          (
            index_of-append b'\n' p q lacks,
            split-append b'\n' p q lacks,
            process-cons p q r,
            take-append p (b'\n' ∷ q),
            drop_line p q,
            drain,
          )
          (drain-process fuel q (f p r) (omega (arith, ap length e, length-append p (b'\n' ∷ q)))))
  ]

pub process-same :
    {R : Type 0} (f g : Text → R → R)
    → ((p : Text) (r : R) → f p r ≡ g p r)
    → (ps : List Text) (r : R) → process f ps r ≡ process g ps r
process-same f g e [] r = refl
process-same f g e (p ∷ []) r = refl
process-same f g e (p ∷ q ∷ ps) r =
    process-same f g e (q ∷ ps) (f p r) ∙ ap (process g (q ∷ ps)) (e p r)

-- A line without the CR that it ends with, if it does.
abbrev pub trimmed : Text → Text
trimmed [] = []
trimmed (c ∷ []) = if c == b'\r' then [] else c ∷ []
trimmed (c ∷ d ∷ l) = c ∷ trimmed (d ∷ l)

if_onto :
    (b : Bool) (c : ℕ) (x y : Text)
    → ◌≡◌ {A = Text} (if b then c ∷ x else c ∷ y) (c ∷ (if b then x else y))
if_onto true c x y = refl
if_onto false c x y = refl

pub strip_cr-trimmed : (l : Text) → strip_cr l ≡ trimmed l
unfolding strip_cr
strip_cr-trimmed [] = refl
strip_cr-trimmed (c ∷ []) = refl
strip_cr-trimmed (c ∷ d ∷ l) =
    if_onto (ends_with b'\r' (d ∷ l)) c (drop_last (d ∷ l)) (d ∷ l)
    ∙ ap (λ (t : Text). c ∷ t) (strip_cr-trimmed (d ∷ l))

pub on_data-process :
    (chunk : Text) (t : Tcp)
    → on_data chunk t ≡ (
        let (rest, router) = process route_stripped (split b'\n' (t.buf ++ chunk)) t.router in
        record t { buf = rest; router = router })
unfolding on_data
on_data-process chunk t = rw (
    drain-process route_stripped (length (t.buf ++ chunk) + 1) (t.buf ++ chunk) t.router
      (omega arith))

-- The loop of `_onData` reaches the end of the buffer: its lines are routed in order, each without
-- the CR that it ends with, if it does, and the buffer keeps what stands behind the last newline.
pub on_data-split :
    (chunk : Text) (t : Tcp)
    → on_data chunk t ≡ (
        let (rest, router) =
          process (λ line. route (trimmed line)) (split b'\n' (t.buf ++ chunk)) t.router in
        record t { buf = rest; router = router })
on_data-split chunk t =
    on_data-process chunk t
    ∙ ap (λ (out : Text × Router). record t { buf = out.0; router = out.1 })
        (process-same route_stripped (λ line. route (trimmed line))
          (λ line r. ap (λ (l : Text). route l r) (strip_cr-trimmed line))
          (split b'\n' (t.buf ++ chunk)) t.router)

-- Two chunks have the effect of their concatenation, wherever the stream is cut.
pub on_data-append : (a b : Text) (t : Tcp) → on_data b (on_data a t) ≡ on_data (a ++ b) t
on_data-append a b t =
    rw (on_data-process b (on_data a t), on_data-process (a ++ b) t, on_data-process a t)
      (rw (
        ← append_assoc t.buf a b,
        process-append route_stripped (length (t.buf ++ a) + 1) (t.buf ++ a) b t.router
            (omega arith),
      ))
