-- ===== src/Tests/Results.antt =====
-- The readers of lists of results at concrete inputs.
use cuttle_db.Prelude.{
  ℕ, Bool, true, false, List, [], ◌∷◌, ◌++◌, map, Option, none, some, ◌≡◌, refl, arith, ok, err,
  Lacks, Text, text,
}
use cuttle_db.Number.{nan, int, parse_int, decimal}
use cuttle_db.Wire.Results.{parse_ids, parse_join, parse_knn, parse_log}
use cuttle_db.Wire.Results.Contract.{in_brackets, side_number, pair, scored, logged}
use cuttle_db.Wire.Results.Log.{event, parse_log-logged}
use cuttle_db.Wire.Results.RoundTrip.{parse_ids-decimal, parse_join-pair, parse_knn-scored}

parse_ids_runs :
    (parse_ids (text "find result") (text "[0;2;x]") ≡ ok (int false 0 ∷ int false 2 ∷ nan ∷ []))
    × (parse_ids (text "find result") (text "[]") ≡ ok [])
    × (parse_ids (text "find result") (text "0;2") ≡ err (text "bad find result: 0;2"))
unfolding parse_ids parse_int
parse_ids_runs = (refl, refl, refl)

-- A log without a space shows the whole body in its error.
parse_log_runs :
    (parse_log (text "5 [7:1:I]")
      ≡ ok (record {
        cursor = int false 5;
        events = record { ts_ms = int false 7; row_id = int false 1; op = some (text "I") } ∷ [];
      }))
    × (parse_log (text "5 x") ≡ err (text "bad log result: 5 x"))
unfolding parse_log parse_int
parse_log_runs = (refl, refl)

ids_read_back :
    parse_ids (text "find result") (in_brackets (map decimal (0 ∷ 2 ∷ 15 ∷ [])))
    ≡ ok (map (int false) (0 ∷ 2 ∷ 15 ∷ []))
ids_read_back =
    parse_ids-decimal (text "find result") (0 ∷ 2 ∷ 15 ∷ [])
      (omega arith, (omega arith, (omega arith, tt)))

-- A left join, with a row of the left table that has no partner.
abbrev pairs : List (Option ℕ × Option ℕ)
pairs = (some 3, some 14) ∷ (some 4, none) ∷ []

parse_join-pair_example :
    parse_join (in_brackets (map pair pairs))
    ≡ ok (map (λ p. (side_number p.0, side_number p.1)) pairs)
parse_join-pair_example =
    parse_join-pair pairs ((omega arith, omega arith), ((omega arith, tt), tt))

-- Two scores, 1 and 0.5.
abbrev print_score : Bool → Text
print_score true = text "1"
print_score false = text "0.5"

abbrev read_score : Option Text → Bool
read_score none = false
read_score (some []) = false
read_score (some (c ∷ [])) = true
read_score (some (c ∷ d ∷ s)) = false

reads_score : (f : Bool) → read_score (some (print_score f)) ≡ f
reads_score true = refl
reads_score false = refl

score_Lacks : (f : Bool) → Lacks b':' (print_score f) × Lacks b';' (print_score f)
score_Lacks true = ((omega arith, tt), (omega arith, tt))
score_Lacks false = (
  (omega arith, (omega arith, (omega arith, tt))),
  (omega arith, (omega arith, (omega arith, tt))),
)

abbrev scores : List (ℕ × Bool)
scores = (12, true) ∷ (7, false) ∷ []

scores_come_back :
    parse_knn read_score (in_brackets (map (scored print_score) scores))
    ≡ ok (map (λ r. record { row_id = int false r.0; score = r.1 }) scores)
scores_come_back =
    parse_knn-scored read_score print_score reads_score score_Lacks scores
      (omega arith, (omega arith, tt))

abbrev events : List (ℕ × (ℕ × Text))
events = (1000, (0, text "I")) ∷ (1007, (0, text "D")) ∷ []

parse_log-logged_example :
    parse_log (decimal 5 ++ (b' ' ∷ in_brackets (map logged events)))
    ≡ ok (record { cursor = int false 5; events = map event events })
parse_log-logged_example = parse_log-logged 5 events (omega arith) (
  (omega arith, omega arith, (omega arith, tt), (omega arith, tt)),
  ((omega arith, omega arith, (omega arith, tt), (omega arith, tt)), tt),
)
