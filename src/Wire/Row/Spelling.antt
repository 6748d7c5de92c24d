-- ===== src/Wire/Row/Spelling.antt =====
-- What a sender may write for a cell, by the escape contract of PROTOCOL.md: a code unit that is no
-- delimiter stands for itself, and a backslash with any code unit behind it for what the decoder
-- makes of that.
use mathlib.Core.List.{flat_map}
use cuttle_db.Prelude.{
  ℕ, ◌||◌, List, [], ◌∷◌, ◌++◌, map, ◌≡◌, ◌≢◌, ◌⊎◌, inl, inr, arith, ◌==◌, if◌then◌else◌,
  Bool-cases, Text,
}
use cuttle_db.Wire.Escape.{hide, escape, escape-hide}
use cuttle_db.Wire.Row.{unescape}

-- `Spells w s`: the wire text `w` stands for the cell `s`.
pub data Spells : Text → Text → Type 0 where
  nil : Spells [] []
  plain : {c : ℕ} {w s : Text} → c ≢ b'\\' → c ≢ b',' → Spells w s → Spells (c ∷ w) (c ∷ s)
  escaped : {w s : Text} (e d : ℕ) → d ≡ unescape e → Spells w s → Spells (b'\\' ∷ e ∷ w) (d ∷ s)

-- The wire texts `ws` stand for the cells `ss`, one by one.
pub data SpellsAll : List Text → List Text → Type 0 where
  nil : SpellsAll [] []
  cons :
      {w s : Text} {ws ss : List Text} → Spells w s → SpellsAll ws ss → SpellsAll (w ∷ ws) (s ∷ ss)

-- `w` is one code unit that stands for itself, or an escape of `c`.
abbrev pub SpellsOne : Text → ℕ → Type 0
SpellsOne w c =
    ((w ≡ c ∷ []) × (c ≢ b'\\') × (c ≢ b',')) ⊎ ((e : ℕ) × (w ≡ b'\\' ∷ e ∷ []) × (c ≡ unescape e))

SpellsOne-append : (c : ℕ) {v w s : Text} → SpellsOne v c → Spells w s → Spells (v ++ w) (c ∷ s)
SpellsOne-append c (inl (e, p, q)) h = rw e (plain p q h)
SpellsOne-append c (inr (e, p, q)) h = rw p (escaped e c q h)

-- A substitution that spells every code unit spells every text.
pub flat_map-Spells :
    (f : ℕ → Text) → ((c : ℕ) → SpellsOne (f c) c) → (s : Text) → Spells (flat_map f s) s
unfolding flat_map
flat_map-Spells f h [] = nil
flat_map-Spells f h (c ∷ s) = SpellsOne-append c (h c) (flat_map-Spells f h s)

-- The letter behind the backslash in the escape of `c`.
abbrev pub letter : ℕ → ℕ
letter c = if c == b'\r' then b'r' else if c == b'\n' then b'n' else c

pub unescape-letter : (c : ℕ) → c ≢ b'r' → c ≢ b'n' → c ≡ unescape (letter c)
unfolding unescape
unescape-letter c p q = ground arith

hide-SpellsOne : (c : ℕ) → SpellsOne (hide c) c
unfolding hide unescape
hide-SpellsOne c = elim (Bool-cases (c == b'\\' || c == b',' || c == b'\r' || c == b'\n')) [
  | inl special ↦ inr (letter c, ground arith, ground arith)
  | inr other ↦ inl (ground arith, ground arith, ground arith)
]

-- What `encodeValue` writes for a string stands for that string.
pub escape-Spells : (s : Text) → Spells (escape s) s
escape-Spells s = rw escape-hide (flat_map-Spells hide hide-SpellsOne s)

pub map-SpellsAll :
    (f : Text → Text) → ((s : Text) → Spells (f s) s) → (ss : List Text) → SpellsAll (map f ss) ss
map-SpellsAll f h [] = nil
map-SpellsAll f h (s ∷ ss) = cons (h s) (map-SpellsAll f h ss)
