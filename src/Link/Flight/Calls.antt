-- ===== src/Link/Flight/Calls.antt =====
-- What a call does to the connection, and what it adds to the server's work.
use cuttle_db.Prelude.{
  ℕ, ◌+◌, List, [], ◌∷◌, ◌++◌, append_assoc, append-nil, ◌≡◌, refl, sym, ap, ◌∙◌, arith, length,
  Text,
}
use cuttle_db.Link.{Server, IsServer, serve}
use cuttle_db.Link.Answers.{serve-replies}
use cuttle_db.Link.Flight.{Call, command, commands, commands_of, outcome_of, sequential}
use cuttle_db.Link.Flight.Fits.{Fits, Fits-one, Fits-many}
use cuttle_db.Transport.Router.{Log, Router}
use cuttle_db.Transport.Router.Queue.{Request, one, many, Queue, Action, ask, ask_batch, perform}
use cuttle_db.Transport.Router.Pending.{Models}
use cuttle_db.Transport.Router.Refines.{perform-Agrees}

abbrev pub action_of : Call → Action
action_of (command cmd) = ask
action_of (commands cmd cmds) = ask_batch (length cmds)

abbrev pub request_of : Call → ℕ → Request
request_of (command cmd) p = one p
request_of (commands cmd cmds) p = many p [] (length cmds)

-- The queue behind a call.
abbrev pub asked : Call → Queue → Queue
asked c q = record { pending = q.pending ++ request_of c q.next ∷ []; next = q.next + 1 }

pub perform-asked :
    (c : Call) (r : Router) (q : Queue)
    → Models r q
    → Models (perform (action_of c) r) (asked c q) × ((perform (action_of c) r).settled ≡ r.settled)
perform-asked (command cmd) r q m =
    let (m', e) = perform-Agrees ask r q m in (m', e ∙ append-nil r.settled)
perform-asked (commands cmd cmds) r q m =
    let (m', e) = perform-Agrees (ask_batch (length cmds)) r q m in (m', e ∙ append-nil r.settled)

module _ {S : Type 0} (v : Server S) where
  pub serve-append :
      (a b : List Text) (s : S)
      → serve v (a ++ b) s
        ≡ (let (out, s') = serve v a s in (out ++ (serve v b s').0, (serve v b s').1))
  unfolding serve
  serve-append [] b s = refl
  serve-append (cmd ∷ a) b s =
      let (r, s') = v.answer cmd s in
      ap (λ (out : List Text × S). (v.events cmd s ++ r ∷ out.0, out.1)) (serve-append a b s')
      ∙ ap (λ (out : List Text). (out, (serve v b (serve v a s').1).1))
          (sym (append_assoc (v.events cmd s) (r ∷ (serve v a s').0) _))

  -- A last call comes last in the log.
  pub sequential-concat :
      (p : ℕ) (cs : List Call) (c : Call) (s : S)
      → sequential v p (cs ++ c ∷ []) s ≡ (
          let (log, s') = sequential v p cs s in
          (log ++ (p + length cs, (outcome_of v c s').0) ∷ [], (outcome_of v c s').1))
  unfolding sequential
  sequential-concat p [] c s =
      ap (λ (n : ℕ). ((n, (outcome_of v c s).0) ∷ [], (outcome_of v c s).1)) (omega arith)
  sequential-concat p (d ∷ cs) c s =
      let (o, s') = outcome_of v d s in
      ap (λ (out : Log × S). ((p, o) ∷ out.0, out.1)) (sequential-concat (p + 1) cs c s')
      ∙ ap
          (λ (n : ℕ).
            let (log, s'') = sequential v (p + 1) cs s' in
            ((p, o) ∷ (log ++ (n, (outcome_of v c s'').0) ∷ []), (outcome_of v c s'').1))
          (omega arith)

module _ {S : Type 0} (v : Server S) (h : IsServer v) where
  -- The server's lines for a call settle it with the outcome that it has there.
  pub Fits-call :
      (c : Call) (p : ℕ) (s : S)
      → Fits (request_of c p ∷ []) (serve v (commands_of c) s).0 ((p, (outcome_of v c s).0) ∷ [])
  Fits-call (command cmd) p s = Fits-one v h p cmd s
  Fits-call (commands cmd cmds) p s = Fits-many v h p [] cmd cmds s

  pub serve-outcome : (c : Call) (s : S) → (serve v (commands_of c) s).1 ≡ (outcome_of v c s).1
  serve-outcome (command cmd) s = unfold serve in refl
  serve-outcome (commands cmd cmds) s = serve-replies v h (cmd ∷ cmds) s
