-- ===== src/Prelude/Outcome.antt =====
-- What a call gives that may throw: a value, or the message of the `Error`.
use Prim.Native.Nat.{ℕ}
use mathlib.Core.List.{List, [], ◌∷◌}

pub data Result {ℓ} (A : Type ℓ) : Type ℓ where
  ok : A → Result A
  err : List ℕ → Result A

module _ {ℓ κ} {A : Type ℓ} {B : Type κ} where
  infixl 5 ◌>>=◌
  abbrev pub ◌>>=◌ : Result A → (A → Result B) → Result B
  ok a >>= f = f a
  err e >>= f = err e

  -- `xs.map(f)` where `f` may throw: the first throw ends it.
  unfoldable pub traverse : (A → Result B) → List A → Result (List B)
  traverse f [] = ok []
  traverse f (x ∷ xs) = elim (f x) [
    | ok y ↦ elim (traverse f xs) [ ok ys ↦ ok (y ∷ ys) | err e ↦ err e ]
    | err e ↦ err e
  ]
