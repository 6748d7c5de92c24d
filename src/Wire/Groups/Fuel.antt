-- ===== src/Wire/Groups/Fuel.antt =====
-- The loop over an entry ends: each round takes at least one code unit off it.
use cuttle_db.Prelude.{
  ℕ, zero, suc, ◌+◌, ◌≤◌, Bool, inl, inr, List, [], ◌∷◌, Option, none, some, ◌≡◌, refl, ap, arith,
  ◌==◌, Bool-cases, if◌then◌else◌, length, drop, Text,
}
use cuttle_db.Text.{index_of}
use cuttle_db.Wire.Groups.{
  Component, behind, span_raw, quoted, unquoted, parse_gb_component, is_colon, entry_loop,
}

length-behind : (s : Text) → length (behind s).0 ≤ length s
length-behind [] = omega arith
length-behind (c ∷ s) = omega arith

length-drop_le : (n : ℕ) (s : Text) → length (drop n s) ≤ length s
length-drop_le zero s = omega arith
length-drop_le (suc n) [] = omega arith
length-drop_le (suc n) (c ∷ s) = omega (arith, length-drop_le n s)

length-span_raw : (s : Text) → length (span_raw s).1 ≤ length s
unfolding span_raw
length-span_raw [] = omega arith
length-span_raw (c ∷ s) = ground (arith, length-span_raw s)

-- A terminator is taken with the component.
length-behind_shorter : (r : Text) (n : ℕ) → length r ≤ suc n → length (behind r).0 ≤ n
length-behind_shorter [] n h = omega arith
length-behind_shorter (c ∷ r) n h = omega (arith, h)

module _ {F : Type 0} (number : Text → F) (finite : F → Bool) where
  length-quoted : (s : Text) (o : Option ℕ) → length (quoted number finite s o).1.0 ≤ length s
  unfolding quoted
  length-quoted s none = omega arith
  length-quoted s (some end) =
      omega (arith, length-behind (drop (end + 1) s), length-drop_le (end + 1) s)

  length-unquoted : (c : ℕ) (s : Text) → length (unquoted number finite (c ∷ s)).1.0 ≤ length s
  unfolding unquoted
  length-unquoted c s =
      length-behind_shorter (span_raw (c ∷ s)).1 (length s) (length-span_raw (c ∷ s))

  -- What stands behind a component is shorter than the entry.
  length-parse_gb_component :
      (c : ℕ) (s : Text) → length (parse_gb_component number finite (c ∷ s)).1.0 ≤ length s
  unfolding parse_gb_component
  length-parse_gb_component c s = elim (Bool-cases (c == b'"')) [
    | inl quote ↦ rw quote (length-quoted s (index_of b'"' s))
    | inr plain ↦ rw plain (length-unquoted c s)
  ]

  pub entry_loop-cons :
      (fuel c : ℕ) (s next : Text) (comp : Component F) (term : Option ℕ)
      → parse_gb_component number finite (c ∷ s) ≡ (comp, (next, term))
      → entry_loop number finite (suc fuel) (c ∷ s) ≡ (
          if is_colon number finite term then (comp ∷ [], next) else (
            comp ∷ (entry_loop number finite fuel next).0,
            (entry_loop number finite fuel next).1,
          ))
  unfolding entry_loop
  entry_loop-cons fuel c s next comp term h = rw h

  -- Any two amounts of fuel that are at least the length of the entry give the same.
  pub entry_loop-fuel :
      (f g : ℕ) (s : Text)
      → length s ≤ f
      → length s ≤ g
      → entry_loop number finite f s ≡ entry_loop number finite g s
  unfolding entry_loop
  entry_loop-fuel zero zero s p q = refl
  entry_loop-fuel zero (suc g) [] p q = refl
  entry_loop-fuel zero (suc g) (c ∷ s) p q = absurd (omega (arith, p))
  entry_loop-fuel (suc f) zero [] p q = refl
  entry_loop-fuel (suc f) zero (c ∷ s) p q = absurd (omega (arith, q))
  entry_loop-fuel (suc f) (suc g) [] p q = refl
  entry_loop-fuel (suc f) (suc g) (c ∷ s) p q =
      let (comp, (next, term)) = parse_gb_component number finite (c ∷ s) in
      let shorter = length-parse_gb_component c s in
      ap
        (λ (out : List (Component F) × Text).
          if is_colon number finite term then (comp ∷ [], next) else (comp ∷ out.0, out.1))
        (entry_loop-fuel f g next (omega (arith, p, shorter)) (omega (arith, q, shorter)))
