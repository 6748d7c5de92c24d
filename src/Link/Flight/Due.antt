-- ===== src/Link/Flight/Due.antt =====
-- What is due on a connection with calls in flight, whatever carries its lines: the outcomes that the
-- lines on their way, and those that the server will write, are to settle.
use cuttle_db.Prelude.{
  true, ℕ, ◌+◌, List, [], ◌∷◌, ◌++◌, map, append_assoc, append-nil, ◌≡◌, refl, sym, ap, subst, ◌∙◌,
  arith, length, length-append, Bool-cases, inl, inr, Text,
}
use cuttle_db.Link.{Server, IsServer, serve}
use cuttle_db.Link.Flight.{Call, commands_of, outcome_of, sequential}
use cuttle_db.Link.Flight.Calls.{
  action_of, asked, perform-asked, serve-append, sequential-concat, Fits-call, serve-outcome,
}
use cuttle_db.Link.Flight.Fits.{
  Fits, done, Fits-append, Fits-event, Fits-arrive, Fits-nil, rejected, Fits-fails,
}
use cuttle_db.Transport.Router.{
  Log, Router, is_event, fresh_router, add_listener, remove_listener, member,
}
use cuttle_db.Transport.Router.Pending.{Models, expand}
use cuttle_db.Transport.Router.Queue.{Queue, arrive, break, act_all, perform, perform_all}
use cuttle_db.Transport.Router.Refines.{perform-Agrees, perform_all-Agrees}
use cuttle_db.Transport.Router.Settles.{fresh-Models}

-- The calls `cs` are made on a server that was in the state `s`; `t` is its state now, `waiting` the
-- commands that it has not read, and `lines` those that have not come to the router `r`.
pub record Due {S : Type 0} (v : Server S) (s : S) (cs : List Call) (r : Router) (t : S)
    (waiting lines : List Text) : Type 0 where
  pub queue : Queue
  pub rest : Log
  pub models : Models r queue
  pub made : queue.next ≡ length cs
  pub fits : Fits queue.pending (lines ++ (serve v waiting t).0) rest
  pub outcomes : (sequential v 0 cs s).0 ≡ r.settled ++ rest
  pub end : (serve v waiting t).1 ≡ (sequential v 0 cs s).1

pub add_listener-listeners :
    (cb : ℕ) (r : Router)
    → add_listener cb r ≡ record r { listeners = (add_listener cb r).listeners }
unfolding add_listener
add_listener-listeners cb r = elim (Bool-cases (member cb r.listeners)) [
  | inl e ↦ rw e refl
  | inr e ↦ rw e refl
]

module _ {S : Type 0} (v : Server S) (s : S) where
  pub fresh-Due : Due v s [] fresh_router s [] []
  unfolding serve sequential
  fresh-Due = record {
    queue = record { pending = []; next = 0 };
    rest = [];
    models = fresh-Models;
    made = refl;
    fits = done;
    outcomes = refl;
    end = refl;
  }

  module _ (cs : List Call) (r : Router) (t : S) (waiting lines : List Text)
      (o : Due v s cs r t waiting lines) where
    pub called-Due :
        (h : IsServer v) (c : Call)
        → Due v s (cs ++ c ∷ []) (perform (action_of c) r) t (waiting ++ commands_of c) lines
    called-Due h c =
        let (m, settled) = perform-asked c r o.queue o.models in
        let more = sequential-concat v 0 cs c s in
        let work = serve-append v waiting (commands_of c) t in
        let t' = (serve v waiting t).1 in
        let zero_less : 0 + length cs ≡ length cs = omega arith in
        let due = (o.queue.next, (outcome_of v c t').0) ∷ [] in
        record {
          queue = asked c o.queue;
          rest = o.rest ++ due;
          models = m;
          made = ap (λ (n : ℕ). n + 1) o.made ∙ sym (length-append cs (c ∷ []));
          fits =
              subst (λ (ls : List Text). Fits (asked c o.queue).pending ls (o.rest ++ due))
                (append_assoc lines _ (serve v (commands_of c) t').0
                  ∙ ap (λ (out : List Text × S). lines ++ out.0) (sym work))
                (Fits-append o.fits (Fits-call v h c o.queue.next t'));
          outcomes =
              ap (λ (out : Log × S). out.0) more
              ∙ rw (zero_less, o.outcomes, ← o.made, ← o.end, settled)
                  (append_assoc r.settled o.rest due);
          end =
              ap (λ (out : List Text × S). out.1) work
              ∙ serve-outcome v h c t'
              ∙ ap (λ (u : S). (outcome_of v c u).1) o.end
              ∙ ap (λ (out : Log × S). out.1) (sym more);
        }

    -- The server takes a command from those that wait.
    pub read-Due :
        (cmd : Text) (more : List Text)
        → waiting ≡ cmd ∷ more
        → Due v s cs r (v.answer cmd t).1 more (lines ++ (serve v (cmd ∷ []) t).0)
    unfolding serve
    read-Due cmd more same = record {
      queue = o.queue;
      rest = o.rest;
      models = o.models;
      made = o.made;
      fits =
          subst (λ (ls : List Text). Fits o.queue.pending ls o.rest)
            (ap (λ (cmds : List Text). lines ++ (serve v cmds t).0) same
              ∙ ap (λ (out : List Text × S). lines ++ out.0) (serve-append v (cmd ∷ []) more t)
              ∙ sym (append_assoc lines (serve v (cmd ∷ []) t).0 _))
            o.fits;
      outcomes = o.outcomes;
      end = ap (λ (cmds : List Text). (serve v cmds t).1) (sym same) ∙ o.end;
    }

    pub tell-Due : (l : Text) → is_event l ≡ true → Due v s cs r t waiting (lines ++ l ∷ [])
    tell-Due l k = record {
      queue = o.queue;
      rest = o.rest;
      models = o.models;
      made = o.made;
      fits =
          subst (λ (ls : List Text). Fits o.queue.pending ls o.rest)
            (sym (append_assoc lines (l ∷ []) _)) (Fits-event lines _ l k o.fits);
      outcomes = o.outcomes;
      end = o.end;
    }

    pub arrive-Due :
        (ls rest : List Text)
        → lines ≡ ls ++ rest
        → Due v s cs (perform_all (map arrive ls) r) t waiting rest
    arrive-Due ls rest e =
        let out = (serve v waiting t).0 in
        let (next, coming, now, fits) = Fits-arrive ls (rest ++ out) o.queue.next (
          subst (λ (x : List Text). Fits o.queue.pending x o.rest)
            (ap (λ (x : List Text). x ++ out) e ∙ append_assoc ls rest out) o.fits) in
        let (models, settled) = perform_all-Agrees (map arrive ls) r o.queue o.models in
        record {
          queue = (act_all (map arrive ls) o.queue).0;
          rest = coming;
          models = models;
          made = next ∙ o.made;
          fits = fits;
          outcomes =
              o.outcomes
              ∙ ap (λ (log : Log). r.settled ++ log) now
              ∙ sym (append_assoc r.settled _ coming)
              ∙ ap (λ (log : Log). log ++ coming) (sym settled);
          end = o.end;
        }

    listen-Due : (cbs : List ℕ) → Due v s cs (record r { listeners = cbs }) t waiting lines
    listen-Due cbs = record {
      queue = o.queue;
      rest = o.rest;
      models = record {
        waits = o.models.waits;
        numbered = o.models.numbered;
        collects = o.models.collects;
        fresh = o.models.fresh;
        made = o.models.made;
        bound = o.models.bound;
      };
      made = o.made;
      fits = o.fits;
      outcomes = o.outcomes;
      end = o.end;
    }

    pub add-Due : (cb : ℕ) → Due v s cs (add_listener cb r) t waiting lines
    add-Due cb =
        subst (λ (r' : Router). Due v s cs r' t waiting lines) (sym (add_listener-listeners cb r))
          (listen-Due _)

    pub remove-Due : (cb : ℕ) → Due v s cs (remove_listener cb r) t waiting lines
    unfolding remove_listener
    remove-Due cb = listen-Due _

    -- Nothing is on its way, and nothing waits for the server.
    pub quiet-Due :
        waiting ≡ []
        → lines ≡ []
        → (r.settled ≡ (sequential v 0 cs s).0) × (r.waiters ≡ []) × (t ≡ (sequential v 0 cs s).1)
    unfolding serve
    quiet-Due none still =
        let (idle, nothing) = Fits-nil o.fits (
          ap (λ (ls : List Text). ls ++ (serve v waiting t).0) still
          ∙ ap (λ (cmds : List Text). (serve v cmds t).0) none) in
        (
          sym (o.outcomes ∙ ap (λ (log : Log). r.settled ++ log) nothing ∙ append-nil r.settled),
          o.models.waits ∙ ap expand idle,
          ap (λ (cmds : List Text). (serve v cmds t).1) (sym none) ∙ o.end,
        )

    -- The connection fails.
    pub break-Due :
        (e : Text)
        → let r' = perform (break e) r in
          (r'.waiters ≡ [])
          × (coming : Log) × ((sequential v 0 cs s).0 ≡ r.settled ++ coming)
          × (r'.settled ≡ r.settled ++ rejected e coming)
    break-Due e =
        let (m, settled) = perform-Agrees (break e) r o.queue o.models in
        (
          m.waits,
          o.rest,
          o.outcomes,
          settled ∙ ap (λ (log : Log). r.settled ++ log) (Fits-fails e o.fits),
        )
