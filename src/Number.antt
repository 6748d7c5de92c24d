-- ===== src/Number.antt =====
-- The numbers that `parseInt(s, 10)` returns, and how a template prints an id. A JavaScript number
-- that is an integer has a sign of its own (-0 differs from 0), and above 2 ^ 53 is rounded.
pub mod RoundTrip
pub mod Print
use cuttle_db.Prelude.{
  ℕ, zero, suc, ◌+◌, ◌-◌, ◌*◌, ◌/◌, ◌%◌, ◌^◌, Bool, true, false, ◌&&◌, ◌||◌, [], ◌∷◌, ◌==◌, ltb,
  leb, if◌then◌else◌, Option, none, some, Text,
}

-- `int negative n` is the integer with that sign and the magnitude `n`.
pub data Number : Type 0 where
  nan : Number
  infinity : Bool → Number
  int : Bool → ℕ → Number

-- The white space that `parseInt` skips.
unfoldable pub is_space : ℕ → Bool
is_space c =
    leb 9 c && leb c 13
    || c == 32
    || c == 0xa0
    || c == 0x1680
    || leb 0x2000 c && leb c 0x200a
    || c == 0x2028
    || c == 0x2029
    || c == 0x202f
    || c == 0x205f
    || c == 0x3000
    || c == 0xfeff

unfoldable pub is_digit : ℕ → Bool
is_digit c = leb b'0' c && leb c b'9'

-- How often `n` is halved until it is below 2 ^ 53; the fuel `n` is enough.
excess : ℕ → ℕ → ℕ
excess zero n = 0
excess (suc fuel) n = let more = suc (excess fuel (n / 2)) in if ltb n (2 ^ 53) then 0 else more

-- The nearest double, ties to even: `n` is cut to its 53 leading bits, and the rest rounded.
round_above : ℕ → ℕ → ℕ
round_above n k =
    let q = n / 2 ^ k in
    let r = n % 2 ^ k in
    let up = ltb (2 ^ k) (2 * r) || 2 * r == 2 ^ k && q % 2 == 1 in
    (if up then q + 1 else q) * 2 ^ k

unfoldable pub round_double : ℕ → ℕ
unfolding excess round_above
round_double n = let high = round_above n (excess n n) in if ltb n (2 ^ 53) then n else high

unfoldable pub to_number : Bool → ℕ → Number
unfolding round_double
to_number negative n =
    let m = round_double n in
    let big = if ltb m (2 ^ 1024) then int negative m else infinity negative in
    if ltb n (2 ^ 53) then int negative n else big

-- The value of the leading digits, behind those that make `acc`.
unfoldable pub read_digits : Text → ℕ → ℕ
unfolding is_digit
read_digits [] acc = acc
read_digits (c ∷ s) acc = if is_digit c then read_digits s (acc * 10 + (c - b'0')) else acc

unfoldable pub parse_unsigned : Bool → Text → Number
unfolding is_digit read_digits to_number
parse_unsigned negative [] = nan
parse_unsigned negative (c ∷ s) =
    if is_digit c then to_number negative (read_digits (c ∷ s) 0) else nan

unfoldable pub parse_signed : Text → Number
unfolding parse_unsigned
parse_signed [] = nan
parse_signed (c ∷ s) =
    if c == b'-'
    then parse_unsigned true s
    else if c == b'+'
    then parse_unsigned false s
    else parse_unsigned false (c ∷ s)

unfoldable pub trim_start : Text → Text
unfolding is_space
trim_start [] = []
trim_start (c ∷ s) = if is_space c then trim_start s else c ∷ s

-- `parseInt(s, 10)`.
unfoldable pub parse_int : Text → Number
unfolding parse_signed trim_start
parse_int s = parse_signed (trim_start s)

-- `parseInt(parts[i], 10)`, where the part may be undefined; `parseInt(undefined)` is NaN.
unfoldable pub part_number : Option Text → Number
unfolding parse_int
part_number none = nan
part_number (some s) = parse_int s

digits : ℕ → ℕ → Text → Text
digits zero n out = out
digits (suc fuel) n out =
    let rest = digits fuel (n / 10) ((b'0' + n % 10) ∷ out) in
    if ltb n 10 then (b'0' + n) ∷ out else rest

-- `${n}` for an integer, which prints no exponent below 10 ^ 21; the fuel is above the rounds.
unfoldable pub decimal : ℕ → Text
unfolding digits
decimal n = digits (suc n) n []
