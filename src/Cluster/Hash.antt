-- ===== src/Cluster/Hash.antt =====
-- `fnv1a` of adapters/cluster.js, with the 32-bit operations of JavaScript: `^` and `<<` give signed
-- 32-bit integers, `+` adds exactly, and `>>> 0` gives the residue modulo 2 ^ 32.
pub mod Reference
pub mod Bounds
use Prim.Native.Nat.{bit_xor}
use cuttle_db.Prelude.{ℕ, ◌+◌, ◌-◌, ◌*◌, ◌%◌, ◌^◌, List, [], ◌∷◌, ltb, leb, if◌then◌else◌, Text}

-- `negsuc n` is -(n + 1).
pub data ℤ : Type 0 where
  pos : ℕ → ℤ
  negsuc : ℕ → ℤ

-- The signed 32-bit integer with the bits of `u`.
unfoldable pub signed : ℕ → ℤ
signed u = let r = u % 2 ^ 32 in if ltb r (2 ^ 31) then pos r else negsuc (2 ^ 32 - 1 - r)

-- `z >>> 0`.
unfoldable pub unsigned : ℤ → ℕ
unsigned (pos n) = n % 2 ^ 32
unsigned (negsuc n) = 2 ^ 32 - 1 - n % 2 ^ 32

unfoldable pub sub_ℕ : ℕ → ℕ → ℤ
sub_ℕ a b = if leb b a then pos (a - b) else negsuc (b - a - 1)

infixl 65 ◌+ℤ◌
unfoldable pub ◌+ℤ◌ : ℤ → ℤ → ℤ
unfolding sub_ℕ
pos a +ℤ pos b = pos (a + b)
pos a +ℤ negsuc b = sub_ℕ a (b + 1)
negsuc a +ℤ pos b = sub_ℕ b (a + 1)
negsuc a +ℤ negsuc b = negsuc (a + b + 1)

-- `z << k`.
unfoldable pub shl : ℤ → ℕ → ℤ
unfolding signed unsigned
shl z k = signed (unsigned z * 2 ^ k)

-- One round of the loop: `h ^= c`, and the sum of shifts.
unfoldable pub round : ℕ → ℕ → ℕ
round h c =
    let x = signed (bit_xor h c) in
    unsigned (x +ℤ (shl x 1 +ℤ shl x 4 +ℤ shl x 7 +ℤ shl x 8 +ℤ shl x 24))

unfoldable pub hash_loop : Text → ℕ → ℕ
unfolding round
hash_loop [] h = h
hash_loop (c ∷ s) h = hash_loop s (round h c)

unfoldable pub fnv1a : Text → ℕ
unfolding hash_loop
fnv1a s = hash_loop s 0x811c9dc5
