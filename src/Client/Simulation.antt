-- ===== src/Client/Simulation.antt =====
-- What a transport has to do for a client, and that a client's methods then do over it what they
-- do on the server itself.
use cuttle_db.Prelude.{List, ◌∷◌, ◌≡◌, refl, subst, ok, err, All, Text}
use cuttle_db.Prelude.Outcome.{Result}
use cuttle_db.Client.Exec.{Exec, Transport, pure, lift, continue, ◌>>=◌}

-- `L` is the state of a connection, `S` that of the server behind it.
module _ {L S : Type 0} (Ready : L → Type 0) where
  -- From a connection that is ready, the run over it has the result of the run on the server, leaves
  -- the server in the same state, and leaves the connection ready.
  pub record Same {ℓ} {A : Type ℓ} (over : Result A × (L × S)) (on : Result A × S) : Type ℓ where
    pub result : over.0 ≡ on.0
    pub server : over.1.1 ≡ on.1
    pub ready : Ready over.1.0

  abbrev pub Simulates {ℓ} : {A : Type ℓ} → Exec (L × S) A → Exec S A → Type ℓ
  Simulates over on = (l : L) (s : S) → Ready l → Same (over (l, s)) (on s)

  -- The interface: single commands, and batches of at least one, of texts that a line can carry.
  pub record Carries (IsCommand : Text → Type 0) (t : Transport (L × S)) (d : Transport S)
      : Type 0 where
    pub single : (cmd : Text) → IsCommand cmd → Simulates (t.send cmd) (d.send cmd)
    pub several :
        (cmd : Text) (cmds : List Text)
        → All IsCommand (cmd ∷ cmds)
        → Simulates (t.send_batch (cmd ∷ cmds)) (d.send_batch (cmd ∷ cmds))

  module _ {ℓ} {A : Type ℓ} where
    pub pure-Simulates : (a : A) → Simulates (pure a) (pure a)
    pure-Simulates a l s r = record { result = refl; server = refl; ready = r }

    pub lift-Simulates : (a : Result A) → Simulates (lift a) (lift a)
    lift-Simulates a l s r = record { result = refl; server = refl; ready = r }

  module _ {ℓ κ} {A : Type ℓ} {B : Type κ} (f : A → Exec (L × S) B) (g : A → Exec S B) where
    continue-Same :
        (r : Result A) (l : L) (s : S)
        → ((a : A) → Simulates (f a) (g a))
        → Ready l
        → Same (continue r f (l, s)) (continue r g s)
    continue-Same (ok a) l s h y = h a l s y
    continue-Same (err e) l s h y = record { result = refl; server = refl; ready = y }

    pub >>=-Simulates :
        (m : Exec (L × S) A) (n : Exec S A)
        → Simulates m n
        → ((a : A) → Simulates (f a) (g a))
        → Simulates (m >>= f) (n >>= g)
    >>=-Simulates m n k h l s y =
        let run = k l s y in
        subst (λ (r : Result A). Same (continue (m (l, s)).0 f (m (l, s)).1) (continue r g (n s).1))
          run.result
          (subst
            (λ (s' : S). Same (continue (m (l, s)).0 f (m (l, s)).1) (continue (m (l, s)).0 g s'))
            run.server (continue-Same (m (l, s)).0 (m (l, s)).1.0 (m (l, s)).1.1 h run.ready))
