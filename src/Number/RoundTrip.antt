-- ===== src/Number/RoundTrip.antt =====
-- `parseInt` reads back what a template prints for an id.
use mathlib.Core.List.{cons-ne-nil}
use cuttle_db.Prelude.{
  ◌≢◌, Lacks, ℕ, zero, suc, ◌+◌, ◌*◌, ◌/◌, ◌%◌, ◌^◌, ◌<◌, true, false, inl, inr, [], ◌∷◌, ◌++◌, ◌≡◌,
  refl, sym, ap, ◌∙◌, arith, ltb, Bool-cases, Text,
}
use cuttle_db.Number.{
  int, is_space, is_digit, to_number, read_digits, parse_signed, trim_start, parse_int, digits,
  decimal,
}

-- The text does not go on with a digit.
abbrev pub Ends : Text → Type 0
Ends [] = Unit
Ends (c ∷ s) = is_digit c ≡ false

digit_value :
    (d : ℕ) (s : Text) (acc : ℕ)
    → d < 10
    → read_digits ((b'0' + d) ∷ s) acc ≡ read_digits s (acc * 10 + d)
unfolding read_digits
digit_value d s acc h = ground arith

-- Reading the digits of `n` and what follows goes on behind `n`.
read_digits-digits :
    (fuel n : ℕ) (out : Text) → n < fuel → read_digits (digits fuel n out) 0 ≡ read_digits out n
unfolding digits
read_digits-digits zero n out h = absurd (omega arith)
read_digits-digits (suc fuel) n out h = elim (Bool-cases (ltb n 10)) [
  | inl small ↦ rw small (digit_value n out 0 (ground arith) ∙ ap (read_digits out) (omega arith))
  | inr large ↦ rw large (
      read_digits-digits fuel (n / 10) _ (ground arith)
      ∙ digit_value (n % 10) out (n / 10) (omega arith)
      ∙ ap (read_digits out) (omega arith))
]

digits-first :
    (fuel n : ℕ) (out : Text)
    → n < fuel
    → (c : ℕ) × (s : Text) × (digits fuel n out ≡ c ∷ s) × (is_digit c ≡ true)
unfolding digits is_digit
digits-first zero n out h = absurd (omega arith)
digits-first (suc fuel) n out h = elim (Bool-cases (ltb n 10)) [
  | inl small ↦ (b'0' + n, out, rw small, ground arith)
  | inr large ↦ rw large (digits-first fuel (n / 10) _ (ground arith))
]

digits-append :
    (fuel n : ℕ) (out rest : Text) → digits fuel n out ++ rest ≡ digits fuel n (out ++ rest)
unfolding digits
digits-append zero n out rest = refl
digits-append (suc fuel) n out rest = elim (Bool-cases (ltb n 10)) [
  | inl small ↦ rw small
  | inr large ↦ rw large (digits-append fuel (n / 10) _ rest)
]

digits-Lacks :
    (b fuel n : ℕ) (out : Text) → is_digit b ≡ false → Lacks b out → Lacks b (digits fuel n out)
unfolding digits is_digit
digits-Lacks b zero n out h l = l
digits-Lacks b (suc fuel) n out h l = elim (Bool-cases (ltb n 10)) [
  | inl small ↦ rw small (ground (arith, h, small), l)
  | inr large ↦ rw large (digits-Lacks b fuel (n / 10) _ h (ground (arith, h), l))
]

-- A printed id has no code unit that is no digit.
pub decimal-Lacks : (b n : ℕ) → is_digit b ≡ false → Lacks b (decimal n)
unfolding decimal
decimal-Lacks b n h = digits-Lacks b (suc n) n [] h tt

pub decimal-ne-nil : (n : ℕ) → decimal n ≢ []
unfolding decimal
decimal-ne-nil n e =
    let (c, s, split, digit) = digits-first (suc n) n [] (omega arith) in
    cons-ne-nil c s (sym split ∙ e)

is_space-is_digit : (c : ℕ) → is_digit c ≡ true → is_space c ≡ false
unfolding is_space is_digit
is_space-is_digit c h = ground arith

trim_start_digit : (c : ℕ) (s : Text) → is_digit c ≡ true → trim_start (c ∷ s) ≡ c ∷ s
unfolding trim_start
trim_start_digit c s h = rw (is_space-is_digit c h)

parse_signed_digit :
    (c : ℕ) (s : Text)
    → is_digit c ≡ true
    → parse_signed (c ∷ s) ≡ to_number false (read_digits (c ∷ s) 0)
unfolding parse_signed is_digit
parse_signed_digit c s h = ground arith

-- A text that begins with a digit has no sign and no white space to skip.
pub parse_int_digit :
    (c : ℕ) (s : Text)
    → is_digit c ≡ true
    → parse_int (c ∷ s) ≡ to_number false (read_digits (c ∷ s) 0)
unfolding parse_int
parse_int_digit c s h = rw (trim_start_digit c s h) (parse_signed_digit c s h)

to_number_exact : (n : ℕ) → n < 2 ^ 53 → to_number false n ≡ int false n
unfolding to_number
to_number_exact n h = ground arith

read_digits-Ends : (s : Text) (n : ℕ) → Ends s → read_digits s n ≡ n
unfolding read_digits
read_digits-Ends [] n h = refl
read_digits-Ends (c ∷ s) n h = rw h

-- An id below 2 ^ 53 is read back exactly, also with a delimiter and more text behind it.
pub parse_int-decimal :
    (n : ℕ) (rest : Text) → n < 2 ^ 53 → Ends rest → parse_int (decimal n ++ rest) ≡ int false n
unfolding decimal
parse_int-decimal n rest h e =
    let (c, s, split, digit) = digits-first (suc n) n rest (omega arith) in
    rw digits-append (
      ap parse_int split
      ∙ parse_int_digit c s digit
      ∙ ap (λ (t : Text). to_number false (read_digits t 0)) (sym split)
      ∙ ap (to_number false)
          (read_digits-digits (suc n) n rest (omega arith) ∙ read_digits-Ends rest n e)
      ∙ to_number_exact n h)
