-- ===== src/Client/Grouping.antt =====
-- `groupBy` of `CuttleDB`: the command from its options, and the checks before it is sent.
use cuttle_db.Prelude.{
  ℕ, Bool, List, [], ◌∷◌, ◌++◌, map, Option, none, some, ◌==◌, if◌then◌else◌, Result, ok, err,
  ◌>>=◌, Text, text,
}
use cuttle_db.Client.Exec
use cuttle_db.Client.Exec.{Exec, Transport, lift}
use cuttle_db.Client.Send.{send, words}
use cuttle_db.Number.{Number, nan, infinity, int, parse_int, decimal}
use cuttle_db.Number.Print.{print_double}
use cuttle_db.Text.{text_eq}
use cuttle_db.Wire.Groups.{Group, parse_group_by}

-- The keys of `aggMap`; `unknown_agg` is a string that is none of them, and none that objects
-- inherit.
pub data Agg : Type 0 where
  count_of : Agg
  sum_of : Agg
  min_of : Agg
  max_of : Agg
  avg_of : Agg
  unknown_agg : Text → Agg

-- A field or a direction: a string, or something else by the string that `String` gives for it.
pub data Choice : Type 0 where
  named : Text → Choice
  numbered : Text → Choice

-- `none` is null. One grouping column is a list of one; operators, thresholds and limits come as
-- the strings that `String` gives for them.
pub record GroupOptions : Type 0 where
  pub agg : Agg
  pub agg_col : Option ℕ
  pub by : Option (List ℕ)
  pub having : Option (Text × Text)
  pub order : Option (Choice × Choice)
  pub limit : Option Text

abbrev minus : Bool → Text → Text
minus negative s = if negative then b'-' ∷ s else s

-- `${n}` for a number that `parseInt` returned; both zeros print as 0.
unfoldable pub print_number : Number → Text
unfolding print_double
print_number nan = text "NaN"
print_number (infinity negative) = minus negative (text "Infinity")
print_number (int negative n) = if n == 0 then text "0" else minus negative (print_double n)

unfoldable pub integer : Text → Text
unfolding print_number
integer s = print_number (parse_int s)

-- `aggMap[agg]` and the name, or the error for a string that is no key.
unfoldable pub agg_number : Agg → Result (ℕ × Text)
agg_number count_of = ok (0, text "count")
agg_number sum_of = ok (1, text "sum")
agg_number min_of = ok (2, text "min")
agg_number max_of = ok (3, text "max")
agg_number avg_of = ok (4, text "avg")
agg_number (unknown_agg agg) =
    err (text "unknown agg " ++ (agg ++ text "; expected one of count,sum,min,max,avg"))

-- The column that is aggregated: only `count` goes without.
unfoldable pub agg_column : ℕ × Text → Option ℕ → Result ℕ
agg_column (op, name) (some col) = ok col
agg_column (op, name) none =
    if op == 0 then ok 0 else err (text "agg=" ++ (name ++ text " requires aggCol"))

unfoldable pub by_clause : Option (List ℕ) → Text
unfolding words
by_clause none = []
by_clause (some []) = []
by_clause (some (c ∷ cols)) = text " BY " ++ words (map decimal (c ∷ cols))

unfoldable pub having_clause : Option (Text × Text) → Text
unfolding integer
having_clause none = []
having_clause (some (op, threshold)) =
    text " HAVING " ++ (integer op ++ (text " " ++ integer threshold))

-- `fMap[oField]` and `dMap[oDir]`; another name is undefined.
unfoldable pub choose : Text → Text → Choice → Text
unfolding integer text_eq
choose zeroth first (numbered s) = integer s
choose zeroth first (named s) =
    if text_eq s zeroth then text "0" else if text_eq s first then text "1" else text "undefined"

unfoldable pub order_clause : Option (Choice × Choice) → Text
unfolding choose
order_clause none = []
order_clause (some (field, dir)) =
    text " ORDER "
    ++ (choose (text "key") (text "value") field
        ++ (text " " ++ choose (text "asc") (text "desc") dir))

unfoldable pub limit_clause : Option Text → Text
unfolding integer
limit_clause none = []
limit_clause (some limit) = text " LIMIT " ++ integer limit

unfoldable pub group_by_command : ℕ → ℕ → ℕ → GroupOptions → Result Text
unfolding agg_number agg_column words by_clause having_clause order_clause limit_clause
group_by_command hid tid group_col opts = do
  op ← agg_number opts.agg
  col ← agg_column op opts.agg_col
  ok (
      words (text "GROUPBY" ∷ map decimal (hid ∷ tid ∷ group_col ∷ op.0 ∷ col ∷ []))
      ++ (by_clause opts.by
          ++ (having_clause opts.having ++ (order_clause opts.order ++ limit_clause opts.limit))))

-- The parameters are `Number` on strings and `Number.isFinite`.
module _ {S F : Type 0} (number : Text → F) (finite : F → Bool) (t : Transport S) where
  -- What is wrong with the options throws before anything is sent.
  unfoldable pub group_by : ℕ → ℕ → ℕ → GroupOptions → Exec S (List (Group F))
  unfolding group_by_command send parse_group_by
  group_by hid tid group_col opts =
      Exec.◌>>=◌ (lift (group_by_command hid tid group_col opts))
        (λ cmd. Exec.◌>>=◌ (send t cmd) (λ body. lift (parse_group_by number finite body)))
