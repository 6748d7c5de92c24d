-- ===== src/Client/Exec.antt =====
-- Methods that await the transport and may throw: what was sent before a throw stays sent.
use cuttle_db.Prelude.{List, ok, err, ◌≡◌, refl, Text}
use cuttle_db.Prelude.Outcome.{Result}

abbrev pub Exec {ℓ} : Type 0 → Type ℓ → Type ℓ
Exec S A = S → Result A × S

-- What the class asks of a transport: `send` and `sendBatch`, awaited.
pub record Transport (S : Type 0) : Type 0 where
  pub send : Text → Exec S Text
  pub send_batch : List Text → Exec S (List Text)

module _ {ℓ} {S : Type 0} {A : Type ℓ} where
  abbrev pub pure : A → Exec S A
  pure a s = (ok a, s)

  abbrev pub raise : Text → Exec S A
  raise e s = (err e, s)

  abbrev pub lift : Result A → Exec S A
  lift r s = (r, s)

module _ {ℓ κ} {S : Type 0} {A : Type ℓ} {B : Type κ} where
  abbrev pub continue : Result A → (A → Exec S B) → Exec S B
  continue (ok a) f s = f a s
  continue (err e) f s = (err e, s)

  infixl 5 ◌>>=◌
  abbrev pub ◌>>=◌ : Exec S A → (A → Exec S B) → Exec S B
  ◌>>=◌ m f s = let (r, s') = m s in continue r f s'

infixl 5 ◌>>◌
abbrev pub ◌>>◌ {ℓ} : {S : Type 0} {B : Type ℓ} → Exec S (Unit {0}) → Exec S B → Exec S B
m >> n = m >>= λ _. n

module _ {ℓ κ} {S : Type 0} {A : Type ℓ} {B : Type κ} where
  -- A last step that leaves the state alone.
  pub continue-state :
      (r : Result A) (f : A → Exec S B) (s : S) → ((a : A) → (f a s).1 ≡ s) → (continue r f s).1 ≡ s
  continue-state (ok a) f s h = h a
  continue-state (err e) f s h = refl
