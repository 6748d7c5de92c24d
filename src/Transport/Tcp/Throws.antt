-- ===== src/Transport/Tcp/Throws.antt =====
-- `_onData` of `TcpTransport` when the callbacks of listeners may throw; which of them do is a
-- parameter.
use cuttle_db.Prelude.{
  ℕ, zero, suc, ◌+◌, Bool, true, false, List, [], ◌∷◌, ◌++◌, map, Option, none, some, inl, inr, ◌≡◌,
  refl, sym, ap, subst, ◌∙◌, arith, Bool-cases, if◌then◌else◌, length, take, drop, take-append, All,
  Lacks, Text,
}
use cuttle_db.Text.{index_of}
use cuttle_db.Text.Laws.{index_of-append}
use cuttle_db.Transport.Router.{
  Event, Router, parse_event, is_event, answer_next, route, strip_cr, broadcast,
}
use cuttle_db.Transport.Router.Events.{answer_next-Quiet, read_event, parse_event-read_event}
use cuttle_db.Transport.Router.Throws.{notify, notify-calm, notify-stops}
use cuttle_db.Transport.Tcp.Stream.{trimmed, strip_cr-trimmed}
use cuttle_db.Transport.Tcp.{Tcp, drain, route_stripped, on_data}

module _ (throws : ℕ → Bool) where
  -- The body of the loop for a line, and whether a callback threw.
  unfoldable pub route_or_throw : Text → Router → Router × Bool
  unfolding notify answer_next parse_event
  route_or_throw l r =
      let (calls, thrown) = notify throws (parse_event l) r.listeners in
      if is_event l
      then (record r { heard = r.heard ++ calls }, thrown)
      else (answer_next r.waiters l r, false)

  -- The loop: the line is off the buffer before it is routed, and an exception leaves the loop.
  unfoldable pub drain_or_throw : ℕ → Text → Router → (Text × Router) × Bool
  unfolding route_or_throw index_of
  drain_or_throw zero buf r = ((buf, r), false)
  drain_or_throw (suc fuel) buf r = elim (index_of b'\n' buf) [
    | none ↦ ((buf, r), false)
    | some nl ↦
        let rest = drop (nl + 1) buf in
        let (r', thrown) = route_or_throw (strip_cr (take nl buf)) r in
        let later = drain_or_throw fuel rest r' in if thrown then ((rest, r'), true) else later
  ]

  unfoldable pub on_data_or_throw : Text → Tcp → Tcp × Bool
  unfolding drain_or_throw
  on_data_or_throw chunk t =
      let buf = t.buf ++ chunk in
      let ((rest, router), thrown) = drain_or_throw (length buf + 1) buf t.router in
      (record t { buf = rest; router = router }, thrown)

  abbrev pub Calm : List ℕ → Type 0
  Calm cbs = All (λ cb. throws cb ≡ false) cbs

  route_or_throw-Calm :
      (l : Text) (r : Router) → Calm r.listeners → route_or_throw l r ≡ (route l r, false)
  unfolding route_or_throw route broadcast
  route_or_throw-Calm l r calm = elim (Bool-cases (is_event l)) [
    | inl e ↦ rw (e, notify-calm throws (parse_event l) r.listeners calm)
    | inr e ↦ rw e refl
  ]

  listeners-route : (l : Text) (r : Router) → (route l r).listeners ≡ r.listeners
  unfolding route broadcast
  listeners-route l r = elim (Bool-cases (is_event l)) [
    | inl e ↦ rw e refl
    | inr e ↦ rw e (answer_next-Quiet r.waiters l r).0
  ]

  drain_or_throw-step :
      (fuel : ℕ) (buf : Text) (r : Router) (nl : Option ℕ)
      → index_of b'\n' buf ≡ nl
      → Calm r.listeners
      → ((s : Router) (rest : Text)
          → Calm s.listeners
          → drain_or_throw fuel rest s ≡ (drain route_stripped fuel rest s, false))
      → drain_or_throw (suc fuel) buf r ≡ (drain route_stripped (suc fuel) buf r, false)
  unfolding drain_or_throw drain
  drain_or_throw-step fuel buf r none e calm later = rw (drain_or_throw, drain, e)
  drain_or_throw-step fuel buf r (some nl) e calm later =
      let l = strip_cr (take nl buf) in
      rw (drain_or_throw, drain, e, route_or_throw-Calm l r calm)
        (later (route l r) (drop (nl + 1) buf) (subst Calm (sym (listeners-route l r)) calm))

  drain_or_throw-Calm :
      (fuel : ℕ) (buf : Text) (r : Router)
      → Calm r.listeners
      → drain_or_throw fuel buf r ≡ (drain route_stripped fuel buf r, false)
  drain_or_throw-Calm zero buf r calm = unfold drain_or_throw in unfold drain in refl
  drain_or_throw-Calm (suc fuel) buf r calm =
      drain_or_throw-step fuel buf r (index_of b'\n' buf) refl calm
        (λ s rest c. drain_or_throw-Calm fuel rest s c)

  on_data_or_throw-Calm :
      (chunk : Text) (t : Tcp)
      → Calm t.router.listeners
      → on_data_or_throw chunk t ≡ (on_data chunk t, false)
  unfolding on_data_or_throw on_data
  on_data_or_throw-Calm chunk t calm =
      rw (drain_or_throw-Calm (length (t.buf ++ chunk) + 1) (t.buf ++ chunk) t.router calm)

  route_or_throw-stops :
      (l : Text) (r : Router) (before : List ℕ) (cb : ℕ) (after : List ℕ)
      → is_event l ≡ true
      → r.listeners ≡ before ++ cb ∷ after
      → Calm before
      → throws cb ≡ true
      → route_or_throw l r ≡ (
        record r { heard = r.heard ++ map (λ (c : ℕ). (c, read_event l)) (before ++ cb ∷ []) },
        true,
      )
  unfolding route_or_throw
  route_or_throw-stops l r before cb after event on calm bad =
      let calls : notify throws (parse_event l) r.listeners
          ≡ (map (λ (c : ℕ). (c, parse_event l)) (before ++ cb ∷ []), true) =
        ap (notify throws (parse_event l)) on
        ∙ notify-stops throws (parse_event l) before cb after calm bad in
      rw (event, calls)
        (ap
          (λ (evt : Event).
            (record r { heard = r.heard ++ map (λ (c : ℕ). (c, evt)) (before ++ cb ∷ []) }, true))
          (parse_event-read_event l))

  drop_line : (p q : Text) → drop (length p + 1) (p ++ b'\n' ∷ q) ≡ q
  drop_line [] q = refl
  drop_line (c ∷ p) q =
      let e : suc (length p) + 1 ≡ suc (length p + 1) = omega arith in rw e (drop_line p q)

  drain_or_throw-stops :
      (fuel : ℕ) (l rest : Text) (r r' : Router)
      → Lacks b'\n' l
      → route_or_throw (strip_cr l) r ≡ (r', true)
      → drain_or_throw (suc fuel) (l ++ b'\n' ∷ rest) r ≡ ((rest, r'), true)
  unfolding drain_or_throw
  drain_or_throw-stops fuel l rest r r' one thrown = rw (
    drain_or_throw,
    index_of-append b'\n' l rest one,
    take-append l (b'\n' ∷ rest),
    drop_line l rest,
    thrown,
  )

  -- If no listener throws, `_onData` is as it is modelled elsewhere. If the first line in the buffer
  -- is an event and a listener throws on it, the listeners up to the first that throws have been
  -- called, those behind it have not, and the exception leaves `_onData` with the lines behind the
  -- event in the buffer: no waiter has been taken off, and nothing is settled, whatever these lines
  -- are.
  pub on_data_or_throw-first :
      (quiet : Tcp) (chunk : Text) (t : Tcp) (more l rest : Text) (before : List ℕ) (cb : ℕ)
      (after : List ℕ)
      → Calm quiet.router.listeners
      → t.buf ++ more ≡ l ++ b'\n' ∷ rest
      → Lacks b'\n' l
      → is_event (trimmed l) ≡ true
      → t.router.listeners ≡ before ++ cb ∷ after
      → Calm before
      → throws cb ≡ true
      → (on_data_or_throw chunk quiet ≡ (on_data chunk quiet, false))
        × (on_data_or_throw more t ≡ (
          record t {
            buf = rest;
            router = record t.router {
              heard =
                  t.router.heard
                  ++ map (λ (c : ℕ). (c, read_event (trimmed l))) (before ++ cb ∷ []);
            };
          },
          true,
        ))
  unfolding on_data_or_throw
  on_data_or_throw-first quiet chunk t more l rest before cb after calm whole one event on h bad = (
    on_data_or_throw-Calm chunk quiet calm,
    (let stops = drain_or_throw-stops (length (t.buf ++ more)) l rest t.router _ one (
          ap (λ (line : Text). route_or_throw line t.router) (strip_cr-trimmed l)
          ∙ route_or_throw-stops (trimmed l) t.router before cb after event on h bad) in
        let fuel : length (t.buf ++ more) + 1 ≡ suc (length (t.buf ++ more)) = omega arith in
        ap (λ (out : (Text × Router) × Bool). (record t { buf = out.0.0; router = out.0.1 }, out.1))
          (ap (λ (n : ℕ). drain_or_throw n (t.buf ++ more) t.router) fuel
            ∙ ap (λ (b : Text). drain_or_throw (suc (length (t.buf ++ more))) b t.router) whole
            ∙ stops)),
  )
