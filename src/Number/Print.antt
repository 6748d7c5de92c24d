-- ===== src/Number/Print.antt =====
-- How JavaScript prints a double that is an integer: the fewest decimal digits that are read back as
-- it, with zeros behind them below 10 ^ 21, and with an exponent from there on.
use cuttle_db.Prelude.{
  ℕ, zero, suc, ◌+◌, ◌-◌, ◌*◌, ◌/◌, ◌^◌, Bool, true, false, [], ◌∷◌, ◌++◌, ◌==◌, ltb, leb,
  if◌then◌else◌, length, Text, text,
}
use cuttle_db.Number.{round_double, decimal}

-- Of two integers that are read as the double `m`, the nearer one; else the one that is.
abbrev nearer : ℕ → ℕ → ℕ → Bool → Bool → ℕ
nearer m low high true true = if leb (m - low) (high - m) then low else high
nearer m low high true false = low
nearer m low high false other = high

-- The multiples of 10 ^ e on both sides of `m`, from the greatest `e` down until one of them is read
-- as `m`; with `e` = 0 it is `m` itself.
unfoldable pub shorten : ℕ → ℕ → ℕ
unfolding round_double
shorten zero m = m
shorten (suc e) m =
    let low = m / 10 ^ suc e * 10 ^ suc e in
    let high = low + 10 ^ suc e in
    let down = round_double low == m in
    let up = round_double high == m in
    let rest = shorten e m in if down then nearer m low high down up else if up then high else rest

abbrev onto_zeros : ℕ → Text → Text
onto_zeros c [] = if c == b'0' then [] else c ∷ []
onto_zeros c (d ∷ s) = c ∷ d ∷ s

-- A numeral without the zeros at its end.
unfoldable pub strip_zeros : Text → Text
strip_zeros [] = []
strip_zeros (c ∷ s) = onto_zeros c (strip_zeros s)

abbrev fraction : Text → Text
fraction [] = []
fraction (c ∷ s) = b'.' ∷ c ∷ s

-- `d.ddde+x` for a numeral.
unfoldable pub with_exponent : Text → ℕ → Text
unfolding decimal
with_exponent [] x = []
with_exponent (d ∷ s) x = d ∷ (fraction s ++ (text "e+" ++ decimal x))

-- A double that is an integer and not 0; below 2 ^ 53 every digit counts.
unfoldable pub print_double : ℕ → Text
unfolding shorten strip_zeros with_exponent decimal
print_double m =
    let ds = decimal (shorten (length (decimal m)) m) in
    if ltb m (2 ^ 53)
    then decimal m
    else if ltb (length ds) 22
    then ds
    else with_exponent (strip_zeros ds) (length ds - 1)
