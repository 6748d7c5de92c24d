-- ===== src/Transport/Router/Hears.antt =====
-- Each listener hears the events that come while it is registered.
use cuttle_db.Prelude.{
  ℕ, suc, ◌+◌, Bool, true, false, ◌||◌, List, [], ◌∷◌, ◌++◌, map, append_assoc, append-nil, ◌≡◌,
  ◌≢◌, refl, sym, ap, subst, ==→eq, ◌∙◌, arith, ◌==◌, if◌then◌else◌, Bool-cases, inl, inr, All,
  All-append, Text,
}
use cuttle_db.Transport.Router.{
  failed, Router, Event, parse_event, answer_next, broadcast, is_event, route, fail_all, request,
  request_batch, refuse, member, add_listener, without, remove_listener,
}
use cuttle_db.Transport.Router.Events.{
  Happening, acts, listens, unlistens, happen, happen_all, calls_of, registered, told, follow,
  Distinct, Quiet, parse_event-read_event, reject_each-Quiet, answer_next-Quiet, settle-Quiet,
}
use cuttle_db.Transport.Router.Queue.{ask, ask_batch, ask_refused, arrive, break, perform}

calls_of-append :
    (cb : ℕ) (a b : List (ℕ × Event)) → calls_of cb (a ++ b) ≡ calls_of cb a ++ calls_of cb b
unfolding calls_of
calls_of-append cb [] b = refl
calls_of-append cb ((c, evt) ∷ a) b = elim (Bool-cases (c == cb)) [
  | inl e ↦ rw e (ap (λ (out : List Event). evt ∷ out) (calls_of-append cb a b))
  | inr e ↦ rw e (calls_of-append cb a b)
]

calls_of-others :
    (cb : ℕ) (evt : Event) (cs : List ℕ)
    → All (λ d. d ≢ cb) cs
    → calls_of cb (map (λ (c : ℕ). (c, evt)) cs) ≡ []
unfolding calls_of
calls_of-others cb evt [] h = refl
calls_of-others cb evt (c ∷ cs) h = ground (arith, h.0, calls_of-others cb evt cs h.1)

member-others : (cb : ℕ) (cs : List ℕ) → All (λ d. d ≢ cb) cs → member cb cs ≡ false
unfolding member
member-others cb [] h = refl
member-others cb (c ∷ cs) h = ground (arith, h.0, member-others cb cs h.1)

others-member : (cb : ℕ) (cs : List ℕ) → member cb cs ≡ false → All (λ d. d ≢ cb) cs
unfolding member
others-member cb [] h = tt
others-member cb (c ∷ cs) h = ((ground (arith, h)), others-member cb cs (ground (arith, h)))

away : (c cb : ℕ) (cs : List ℕ) → c ≡ cb → All (λ d. d ≢ c) cs → All (λ d. d ≢ cb) cs
away c cb cs e h = subst (λ (x : ℕ). All (λ d. d ≢ x) cs) e h

-- The loop over the listeners calls each of them once.
calls_of-broadcast :
    (cb : ℕ) (evt : Event) (cs : List ℕ)
    → Distinct cs
    → calls_of cb (map (λ (c : ℕ). (c, evt)) cs) ≡ (if member cb cs then evt ∷ [] else [])
unfolding calls_of member
calls_of-broadcast cb evt [] d = refl
calls_of-broadcast cb evt (c ∷ cs) d = elim (Bool-cases (c == cb)) [
  | inl e ↦ rw e (
      ap (λ (out : List Event). evt ∷ out)
        (calls_of-others cb evt cs (away c cb cs (==→eq c cb e) d.0)))
  | inr e ↦ rw e (calls_of-broadcast cb evt cs d.1)
]

member-concat : (cb c : ℕ) (cs : List ℕ) → member cb (cs ++ c ∷ []) ≡ (c == cb || member cb cs)
unfolding member
member-concat cb c [] = refl
member-concat cb c (x ∷ cs) = ground (arith, member-concat cb c cs)

Distinct-concat :
    (c : ℕ) (cs : List ℕ) → Distinct cs → All (λ d. d ≢ c) cs → Distinct (cs ++ c ∷ [])
Distinct-concat c [] d h = (tt, tt)
Distinct-concat c (x ∷ cs) d h =
    (All-append _ cs (c ∷ []) d.0 ((λ e. h.0 (sym e)), tt), Distinct-concat c cs d.1 h.1)

without-All : (P : ℕ → Type 0) (c : ℕ) (cs : List ℕ) → All P cs → All P (without c cs)
unfolding without
without-All P c [] h = tt
without-All P c (x ∷ cs) h = elim (Bool-cases (x == c)) [
  | inl e ↦ rw e h.1
  | inr e ↦ rw e (h.0, without-All P c cs h.1)
]

without-Distinct : (c : ℕ) (cs : List ℕ) → Distinct cs → Distinct (without c cs)
unfolding without
without-Distinct c [] d = tt
without-Distinct c (x ∷ cs) d = elim (Bool-cases (x == c)) [
  | inl e ↦ rw e d.1
  | inr e ↦ rw e (without-All _ c cs d.0, without-Distinct c cs d.1)
]

member-without :
    (cb c : ℕ) (cs : List ℕ)
    → Distinct cs
    → member cb (without c cs) ≡ (if c == cb then false else member cb cs)
unfolding member without
member-without cb c [] d = ground arith
member-without cb c (x ∷ cs) d = elim (Bool-cases (x == c)) [
  | inl e ↦ rw e (ground (arith, e, member-others c cs (away x c cs (==→eq x c e) d.0)))
  | inr e ↦ rw e (ground (arith, e, member-without cb c cs d.1))
]

-- The listeners stay a set, and the listener `cb` is registered and has heard as it is specified.
Hears : ℕ → Router → Happening → Type 0
Hears cb r h =
    Distinct (happen h r).listeners
    × (member cb (happen h r).listeners ≡ registered cb h (member cb r.listeners))
    × (calls_of cb (happen h r).heard ≡ calls_of cb r.heard ++ told (member cb r.listeners) h)

no_event : (on : Bool) → ◌≡◌ {A = List Event} (if on then [] else []) []
no_event true = refl
no_event false = refl

module _ (cb : ℕ) (r : Router) (d : Distinct r.listeners) where
  Quiet-Hears :
      (r' : Router)
      → Quiet r r'
      → Distinct r'.listeners
        × (member cb r'.listeners ≡ member cb r.listeners)
        × (calls_of cb r'.heard ≡ calls_of cb r.heard ++ [])
  Quiet-Hears r' (l, h) = (
    subst Distinct (sym l) d,
    ap (member cb) l,
    ap (calls_of cb) h ∙ sym (append-nil (calls_of cb r.heard)),
  )

  arrive-Hears : (l : Text) → Hears cb r (acts (arrive l))
  unfolding Hears happen perform route broadcast
  arrive-Hears l = elim (Bool-cases (is_event l)) [
    | inl e ↦ rw e (
      d,
      refl,
      calls_of-append cb r.heard _
          ∙ ap (λ (out : List Event). calls_of cb r.heard ++ out)
              (calls_of-broadcast cb (parse_event l) r.listeners d
                ∙ ap (λ (evt : Event). if member cb r.listeners then evt ∷ [] else [])
                    (parse_event-read_event l)),
    )
    | inr e ↦ rw e (
        rw (no_event (member cb r.listeners))
          (Quiet-Hears (answer_next r.waiters l r) (answer_next-Quiet r.waiters l r)))
  ]

  listen-Hears : (c : ℕ) → Hears cb r (listens c)
  unfolding Hears happen add_listener
  listen-Hears c = elim (Bool-cases (member c r.listeners)) [
    | inl e ↦ rw e (d, (ground (arith, e)), sym (append-nil _))
    | inr e ↦ rw e (
      Distinct-concat c r.listeners d (others-member c r.listeners e),
      member-concat cb c r.listeners,
      sym (append-nil _),
    )
  ]

  unlisten-Hears : (c : ℕ) → Hears cb r (unlistens c)
  unfolding Hears happen remove_listener
  unlisten-Hears c =
      (without-Distinct c r.listeners d, member-without cb c r.listeners d, sym (append-nil _))

  happen-Hears : (h : Happening) → Hears cb r h
  unfolding Hears happen perform request request_batch refuse fail_all
  happen-Hears (acts ask) = Quiet-Hears (request r).1 (refl, refl)
  happen-Hears (acts (ask_batch k)) = Quiet-Hears (request_batch (suc k) r).1 (refl, refl)
  happen-Hears (acts (ask_refused e)) =
      Quiet-Hears (refuse e r).1
        (settle-Quiet r.created (failed e) (record r { created = r.created + 1 }))
  happen-Hears (acts (arrive l)) = arrive-Hears l
  happen-Hears (acts (break e)) =
      Quiet-Hears (fail_all e r) (reject_each-Quiet r.waiters e (record r { waiters = [] }))
  happen-Hears (listens c) = listen-Hears c
  happen-Hears (unlistens c) = unlisten-Hears c

-- Whatever happens on a connection whose listeners form a set, if no callback throws: they form one afterwards, a callback
-- is among them exactly if the last that was done about it registered it, or nothing was and it was
-- among them at first, and it has been called with the events that came while it was registered,
-- each once and in their order; an event is the line's words behind the mark, three as integers,
-- with NaN for one that is missing, and the operation, if there is one.
pub happen_all-hears :
    (cb : ℕ) (hs : List Happening) (r : Router)
    → Distinct r.listeners
    → let (on, out) = follow cb (member cb r.listeners) hs in
      Distinct (happen_all hs r).listeners
      × (member cb (happen_all hs r).listeners ≡ on)
      × (calls_of cb (happen_all hs r).heard ≡ calls_of cb r.heard ++ out)
unfolding happen_all follow Hears
happen_all-hears cb [] r d = (d, refl, sym (append-nil _))
happen_all-hears cb (h ∷ hs) r d =
    let (d', m, k) = happen-Hears cb r d h in
    let (e, on, out) = happen_all-hears cb hs (happen h r) d' in
    (
      e,
      on ∙ ap (λ (b : Bool). (follow cb b hs).0) m,
      out ∙ rw (k, m) (append_assoc (calls_of cb r.heard) _ _),
    )
