-- ===== src/Tests/Groups.antt =====
-- Grouped answers at concrete inputs, with numbers as their notation.
use cuttle_db.Prelude.{
  Bool, true, List, [], ◌∷◌, map, none, some, ◌≡◌, refl, arith, ok, err, Text, text,
}
use cuttle_db.Client.Grouping.{avg_of, named, numbered, GroupOptions, group_by_command, integer}
use cuttle_db.Number.{is_digit, parse_int, decimal}
use cuttle_db.Wire.Groups.{Component, num, str, one, many, entry_loop, parse_group_by}
use cuttle_db.Wire.Groups.Fuel.{entry_loop-fuel}
use cuttle_db.Wire.Groups.RoundTrip.{IsBare, print_group, group, parse_group_by-print_group}
use cuttle_db.Wire.Results.Contract.{in_brackets}

abbrev number : Text → Text
number s = s

abbrev finite : Text → Bool
finite [] = true
finite (c ∷ s) = is_digit c

parse_group_by_runs :
    (parse_group_by number finite (text "[\"a b\":3;7|\"x\":2]")
      ≡ ok (
          record { key = one (str (text "a b")); value = text "3" }
          ∷ record { key = many (num (text "7") ∷ str (text "x") ∷ []); value = text "2" }
          ∷ []))
    × (parse_group_by number finite (text "3") ≡ err (text "bad groupby result: 3"))
unfolding parse_group_by is_digit
parse_group_by_runs = (refl, refl)

-- A semicolon inside a quoted key ends the entry, and the key is read as two groups.
parse_group_by_semicolon :
    parse_group_by number finite (text "[\"a;b\":3]")
    ≡ ok (
        record { key = one (str (text "a")); value = [] }
        ∷ record { key = one (str (text "b\"")); value = text "3" }
        ∷ [])
unfolding parse_group_by is_digit
parse_group_by_semicolon = refl

abbrev options : GroupOptions
options = record {
  agg = avg_of;
  agg_col = some 2;
  by = some (4 ∷ []);
  having = some (text "0", text "2.5");
  order = some (named (text "value"), numbered (text "1"));
  limit = some (text "10");
}

-- The threshold is cut to an integer.
group_by_command_runs :
    (group_by_command 0 1 3 options
      ≡ ok (text "GROUPBY 0 1 3 4 2 BY 4 HAVING 0 2 ORDER 1 1 LIMIT 10"))
    × (group_by_command 0 1 3 (record options { agg_col = none })
        ≡ err (text "agg=avg requires aggCol"))
unfolding group_by_command decimal parse_int
group_by_command_runs = (refl, refl)

-- From 2 ^ 53 on, the fewest digits that are read back as the number; from 10 ^ 21 on, an exponent.
integer_runs :
    (integer (text "1152921504606846976") ≡ text "1152921504606847000")
    × (integer (text "-9007199254740993") ≡ text "-9007199254740992")
    × (integer (text "1000000000000000000000") ≡ text "1e+21")
    × (integer (text "1234567890123456789012345") ≡ text "1.2345678901234568e+24")
    × (integer (text "99999999999999999999") ≡ text "100000000000000000000")
    × (integer (text "x") ≡ text "NaN")
unfolding integer parse_int decimal
integer_runs = (refl, refl, refl, refl, refl, refl)

entry_loop-fuel_example :
    entry_loop number finite 9 (text "7|\"x\":2") ≡ entry_loop number finite 7 (text "7|\"x\":2")
entry_loop-fuel_example =
    entry_loop-fuel number finite 9 7 (text "7|\"x\":2") (omega arith) (omega arith)

one_digit-IsBare : (d : Text) → d ≡ text "7" → IsBare d
one_digit-IsBare d e = rw e (record {
  ne_nil = (cc);
  bars = (omega arith, tt);
  colons = (omega arith, tt);
  quotes = (omega arith, tt);
  semicolons = (omega arith, tt);
})

abbrev groups : List ((Component Text × List (Component Text)) × Text)
groups = ((num (text "7"), str (text "x|y") ∷ []), text "7") ∷ []

parse_group_by-print_group_example :
    parse_group_by number finite (in_brackets (map (print_group number finite (λ f. f)) groups))
    ≡ ok (map (group number finite (λ f. f)) groups)
unfolding is_digit
parse_group_by-print_group_example =
    parse_group_by-print_group number finite (λ f. f) groups
      (
        (
          (one_digit-IsBare (text "7") refl, refl, refl),
          (
            (
              (omega arith, (omega arith, (omega arith, tt))),
              (omega arith, (omega arith, (omega arith, tt))),
            ),
            tt,
          ),
          one_digit-IsBare (text "7") refl,
          refl,
        ),
        tt,
      )
