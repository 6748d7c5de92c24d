-- ===== src/Cluster/Hash/Bounds.antt =====
-- JavaScript's `+` is exact in `fnv1a`: every sum in a round stays within the integers of a double.
use Prim.Native.Nat.{bit_xor}
use cuttle_db.Prelude.{ℕ, ◌+◌, ◌-◌, ◌^◌, ◌≤◌, ◌<◌, ◌≡◌, refl, arith}
use cuttle_db.Cluster.Hash.{ℤ, pos, negsuc, signed, unsigned, sub_ℕ, ◌+ℤ◌, shl, round}

-- From -b to b.
abbrev pub IsWithin : ℕ → ℤ → Type 0
IsWithin b (pos n) = n ≤ b
IsWithin b (negsuc n) = n + 1 ≤ b

-- A safe integer: a double holds it, and no other integer rounds to it.
abbrev pub IsSafe : ℤ → Type 0
IsSafe = IsWithin (2 ^ 53 - 1)

IsWithin-le : (a b : ℕ) (z : ℤ) → a ≤ b → IsWithin a z → IsWithin b z
IsWithin-le a b (pos n) h k = omega (arith, h, k)
IsWithin-le a b (negsuc n) h k = omega (arith, h, k)

signed-IsWithin : (u : ℕ) → IsWithin (2 ^ 31) (signed u)
unfolding signed
signed-IsWithin u = ground arith

+ℤ-IsWithin : (a b : ℕ) (y z : ℤ) → IsWithin a y → IsWithin b z → IsWithin (a + b) (y +ℤ z)
unfolding ◌+ℤ◌ sub_ℕ
+ℤ-IsWithin a b (pos m) (pos n) h k = omega (arith, h, k)
+ℤ-IsWithin a b (pos m) (negsuc n) h k = ground (arith, h, k)
+ℤ-IsWithin a b (negsuc m) (pos n) h k = ground (arith, h, k)
+ℤ-IsWithin a b (negsuc m) (negsuc n) h k = omega (arith, h, k)

shl-IsWithin : (z : ℤ) (k : ℕ) → IsWithin (2 ^ 31) (shl z k)
unfolding shl
shl-IsWithin z k = signed-IsWithin _

unsigned-bound : (z : ℤ) → unsigned z < 2 ^ 32
unfolding unsigned
unsigned-bound (pos n) = omega arith
unsigned-bound (negsuc n) = omega arith

-- A round of `fnv1a` ends with the residue modulo 2 ^ 32 of a sum whose partial sums, from the left
-- in the brackets, and itself are safe integers, so no addition rounds, and this is a number below
-- 2 ^ 32, for any numbers that the round starts with.
pub round-IsSafe :
    (h c : ℕ)
    → let x = signed (bit_xor h c) in
      IsSafe (shl x 1 +ℤ shl x 4)
      × IsSafe (shl x 1 +ℤ shl x 4 +ℤ shl x 7)
      × IsSafe (shl x 1 +ℤ shl x 4 +ℤ shl x 7 +ℤ shl x 8)
      × IsSafe (shl x 1 +ℤ shl x 4 +ℤ shl x 7 +ℤ shl x 8 +ℤ shl x 24)
      × IsSafe (x +ℤ (shl x 1 +ℤ shl x 4 +ℤ shl x 7 +ℤ shl x 8 +ℤ shl x 24))
      × (round h c ≡ unsigned (x +ℤ (shl x 1 +ℤ shl x 4 +ℤ shl x 7 +ℤ shl x 8 +ℤ shl x 24)))
      × (round h c < 2 ^ 32)
unfolding round
round-IsSafe h c =
    let x = signed (bit_xor h c) in
    let b = 2 ^ 31 in
    let two = +ℤ-IsWithin b b _ _ (shl-IsWithin x 1) (shl-IsWithin x 4) in
    let three = +ℤ-IsWithin (b + b) b _ _ two (shl-IsWithin x 7) in
    let four = +ℤ-IsWithin (b + b + b) b _ _ three (shl-IsWithin x 8) in
    let five = +ℤ-IsWithin (b + b + b + b) b _ _ four (shl-IsWithin x 24) in
    let all = +ℤ-IsWithin b (b + b + b + b + b) _ _ (signed-IsWithin (bit_xor h c)) five in
    (
      IsWithin-le _ _ _ (omega arith) two,
      IsWithin-le _ _ _ (omega arith) three,
      IsWithin-le _ _ _ (omega arith) four,
      IsWithin-le _ _ _ (omega arith) five,
      IsWithin-le _ _ _ (omega arith) all,
      refl,
      unsigned-bound _,
    )
