-- ===== src/Link/Answers.antt =====
-- What the waiters make of a server's answers, with events among them.
use cuttle_db.Prelude.{
  ℕ, zero, suc, ◌+◌, ◌<◌, true, List, [], ◌∷◌, ◌++◌, map, append_assoc, some, ◌≡◌, refl, ap, subst,
  ◌∙◌, arith, length, All, All-append, Text,
}
use cuttle_db.Link.{Server, IsLine, IsServer, serve, replies, outcome, Idle}
use cuttle_db.Transport.Router.{Outcome, line, lines, Log, Router, is_event, request, request_batch}
use cuttle_db.Transport.Router.Pending.{Models}
use cuttle_db.Transport.Router.Queue.{
  Action, ask, ask_batch, arrive, Queue, one, many, act_all, perform_all,
}
use cuttle_db.Transport.Router.Refines.{perform_all-Agrees}

act_all-events :
    (es ls : List Text) (q : Queue)
    → All (λ e. is_event e ≡ true) es
    → act_all (map arrive (es ++ ls)) q ≡ act_all (map arrive ls) q
unfolding act_all
act_all-events [] ls q h = refl
act_all-events (e ∷ es) ls q h = rw h.0 (act_all-events es ls q h.1)

length-replies :
    {S : Type 0} (v : Server S) (ls : List Text) (s : S) → length (replies v ls s).0 ≡ length ls
unfolding replies
length-replies v [] s = refl
length-replies v (l ∷ ls) s = omega (arith, length-replies v ls (v.answer l s).1)

module _ {S : Type 0} (v : Server S) (h : IsServer v) where
  pub serve-replies : (ls : List Text) (s : S) → (serve v ls s).1 ≡ (replies v ls s).1
  unfolding serve replies
  serve-replies [] s = refl
  serve-replies (l ∷ ls) s = serve-replies ls (v.answer l s).1

  -- The server writes lines.
  pub serve-IsLine : (ls : List Text) (s : S) → All IsLine (serve v ls s).0
  unfolding serve
  serve-IsLine [] s = tt
  serve-IsLine (l ∷ ls) s =
      All-append IsLine (v.events l s) _ (h.event_line l s)
        (h.reply_line l s, serve-IsLine ls (v.answer l s).1)

  act_all-one :
      (l : Text) (s : S) (n : ℕ)
      → act_all (ask ∷ map arrive (serve v (l ∷ []) s).0) (record { pending = []; next = n })
        ≡ (record { pending = []; next = n + 1 }, (n, line (v.answer l s).0) ∷ [])
  unfolding act_all serve
  act_all-one l s n =
      rw
        (act_all-events (v.events l s) ((v.answer l s).0 ∷ [])
          (record { pending = one n ∷ []; next = n + 1 }) (h.event l s))
        (rw (h.reply l s))

  act_all-many :
      (p n k : ℕ) (got ls : List Text) (s : S)
      → length ls ≡ suc k
      → act_all (map arrive (serve v ls s).0) (record { pending = many p got k ∷ []; next = n })
        ≡ (record { pending = []; next = n }, (p, lines (got ++ (replies v ls s).0)) ∷ [])
  unfolding act_all serve replies
  act_all-many p n k got [] s e = absurd (omega (arith, e))
  act_all-many p n zero got (l ∷ []) s e =
      rw
        (act_all-events (v.events l s) ((v.answer l s).0 ∷ [])
          (record { pending = many p got zero ∷ []; next = n }) (h.event l s))
        (rw (h.reply l s))
  act_all-many p n zero got (l ∷ l' ∷ ls) s e = absurd (omega (arith, e))
  act_all-many p n (suc k) got (l ∷ ls) s e =
      let (r, s') = v.answer l s in
      rw
        (act_all-events (v.events l s) (r ∷ (serve v ls s').0)
          (record { pending = many p got (suc k) ∷ []; next = n }) (h.event l s))
        (rw (h.reply l s) (
          act_all-many p n k (got ++ r ∷ []) ls s' (omega (arith, e))
          ∙ ap (λ (out : List Text). (record { pending = []; next = n }, (p, lines out) ∷ []))
              (append_assoc got (r ∷ []) (replies v ls s').0)))

outcome-concat :
    (n : ℕ) (o : Outcome) (log : Log)
    → All (λ (e : ℕ × Outcome). e.0 < n) log
    → outcome n (log ++ (n, o) ∷ []) ≡ some o
unfolding outcome
outcome-concat n o [] h = ground arith
outcome-concat n o ((k, x) ∷ log) h = ground (arith, h.0, outcome-concat n o log h.1)

-- What a run from an idle router comes to, if the specification settles the next promise alone.
settles_next :
    (actions : List Action) (r : Router) (n : ℕ) (o : Outcome)
    → Models r (record { pending = []; next = n })
    → act_all actions (record { pending = []; next = n })
      ≡ (record { pending = []; next = n + 1 }, (n, o) ∷ [])
    → (outcome r.created (perform_all actions r).settled ≡ some o) × Idle (perform_all actions r)
settles_next actions r n o m e =
    let run = perform_all-Agrees actions r (record { pending = []; next = n }) m in
    let end = ap (λ (out : Queue × Log). out.1) e in
    (
      ap (λ (p : ℕ). outcome p (perform_all actions r).settled) m.numbered
          ∙ ap (outcome n) (run.1 ∙ ap (λ (log : Log). r.settled ++ log) end)
          ∙ outcome-concat n o r.settled m.bound,
      (n + 1, subst (Models (perform_all actions r)) (ap (λ (out : Queue × Log). out.0) e) run.0),
    )

module _ {S : Type 0} (v : Server S) (h : IsServer v) (r : Router) where
  -- A request on an idle router gets the answer, whatever events come before it.
  pub request-serve :
      (l : Text) (s : S)
      → Idle r
      → let r' = perform_all (map arrive (serve v (l ∷ []) s).0) (request r).1 in
        (outcome r.created r'.settled ≡ some (line (v.answer l s).0)) × Idle r'
  unfolding perform_all
  request-serve l s (n, m) =
      settles_next (ask ∷ map arrive (serve v (l ∷ []) s).0) r n (line (v.answer l s).0) m
        (act_all-one v h l s n)

  -- A batch gets the answers, in the order of its commands.
  pub request_batch-serve :
      (l : Text) (ls : List Text) (s : S)
      → Idle r
      → let r' =
          perform_all (map arrive (serve v (l ∷ ls) s).0) (request_batch (length (l ∷ ls)) r).1 in
        (outcome r.created r'.settled ≡ some (lines (replies v (l ∷ ls) s).0)) × Idle r'
  unfolding perform_all
  request_batch-serve l ls s (n, m) =
      settles_next (ask_batch (length ls) ∷ map arrive (serve v (l ∷ ls) s).0) r n
        (lines (replies v (l ∷ ls) s).0) m
        (unfold act_all in act_all-many v h n (n + 1) (length ls) [] (l ∷ ls) s refl)
