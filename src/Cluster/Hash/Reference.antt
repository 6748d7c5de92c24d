-- ===== src/Cluster/Hash/Reference.antt =====
-- The sum of shifts is the multiplication by the FNV prime.
use Prim.Native.Nat.{bit_xor}
use cuttle_db.Prelude.{ℕ, ◌+◌, ◌*◌, ◌%◌, ◌^◌, [], ◌∷◌, ◌≡◌, refl, ap, ◌∙◌, arith, Text}
use cuttle_db.Cluster.Hash.{ℤ, pos, negsuc, signed, unsigned, ◌+ℤ◌, shl, round, hash_loop, fnv1a}

-- FNV-1a: each code unit is xored in, and the hash multiplied by the prime modulo 2 ^ 32.
unfoldable pub fnv1a_reference : Text → ℕ → ℕ
fnv1a_reference [] h = h
fnv1a_reference (c ∷ s) h = fnv1a_reference s (bit_xor h c * 0x01000193 % 2 ^ 32)

unsigned-signed : (u : ℕ) → unsigned (signed u) ≡ u % 2 ^ 32
unfolding unsigned signed
unsigned-signed u = ground arith

unsigned-+ℤ : (a b : ℤ) → unsigned (a +ℤ b) ≡ (unsigned a + unsigned b) % 2 ^ 32
unfolding unsigned ◌+ℤ◌
unsigned-+ℤ (pos a) (pos b) = ground arith
unsigned-+ℤ (pos a) (negsuc b) = ground arith
unsigned-+ℤ (negsuc a) (pos b) = ground arith
unsigned-+ℤ (negsuc a) (negsuc b) = ground arith

unsigned-shl : (z : ℤ) (k : ℕ) → unsigned (shl z k) ≡ unsigned z * 2 ^ k % 2 ^ 32
unfolding shl
unsigned-shl z k = unsigned-signed (unsigned z * 2 ^ k)

round_lem : (h c : ℕ) → round h c ≡ bit_xor h c * 0x01000193 % 2 ^ 32
unfolding round
round_lem h c = simp (unsigned-+ℤ, unsigned-shl, unsigned-signed) (omega arith)

hash_loop-reference : (s : Text) (h : ℕ) → hash_loop s h ≡ fnv1a_reference s h
unfolding hash_loop fnv1a_reference
hash_loop-reference [] h = refl
hash_loop-reference (c ∷ s) h =
    hash_loop-reference s (round h c) ∙ ap (fnv1a_reference s) (round_lem h c)

-- The hash of the cluster is FNV-1a over the code units of the key, for every key.
pub fnv1a-reference : (s : Text) → fnv1a s ≡ fnv1a_reference s 0x811c9dc5
unfolding fnv1a
fnv1a-reference s = hash_loop-reference s 0x811c9dc5
