-- ===== src/Wire/Results/RoundTrip.antt =====
-- The readers of ids, joined pairs and scored rows give back what the server wrote.
use cuttle_db.Prelude.{
  ℕ, ◌^◌, ◌<◌, false, List, [], ◌∷◌, map, Option, none, some, ◌≡◌, ◌≢◌, refl, ap, arith, ok, All,
  All-append, Lacks, Text, text,
}
use cuttle_db.Number.{int, is_digit, parse_int, part_number, decimal}
use cuttle_db.Number.RoundTrip.{decimal-Lacks}
use cuttle_db.Text.{join}
use cuttle_db.Text.Laws.{split-append, split-Lacks}
use cuttle_db.Wire.Body.{bracketed_lem}
use cuttle_db.Wire.Results.{parse_ids, parse_pair, parse_join, parse_scored, parse_knn}
use cuttle_db.Wire.Results.Contract.{in_brackets, side, side_number, pair, scored}
use cuttle_db.Wire.Results.Items.{
  Item, All-first, items-Reads, parse_int-id, decimal-Item, append-ne-nil,
}

-- A side of a joined pair whose id, if there is one, lies below 2 ^ 53.
abbrev Small : Option ℕ → Type 0
Small none = Unit
Small (some n) = n < 2 ^ 53

side-Lacks : (b : ℕ) (o : Option ℕ) → is_digit b ≡ false → b ≢ b'-' → Lacks b (side o)
unfolding side is_digit
side-Lacks b none h ne = ground (arith, h)
side-Lacks b (some n) h ne = decimal-Lacks b n h

part_number-side : (o : Option ℕ) → Small o → part_number (some (side o)) ≡ side_number o
unfolding side part_number parse_int side_number
part_number-side none h = refl
part_number-side (some n) h = parse_int-id n h

parse_pair-pair :
    (l r : Option ℕ) → Small l → Small r → parse_pair (pair (l, r)) ≡ (side_number l, side_number r)
unfolding parse_pair pair is_digit
parse_pair-pair l r p q = rw (
  split-append b',' (side l) (side r) (side-Lacks b',' l refl (omega arith)),
  split-Lacks b',' (side r) (side-Lacks b',' r refl (omega arith)),
  part_number-side l p,
  part_number-side r q,
)

pair-Item : (l r : Option ℕ) → Item (pair (l, r))
unfolding pair is_digit
pair-Item l r = (
  append-ne-nil (side l) (side r) b',',
  All-append (λ c. c ≢ b';') (side l) (b',' ∷ side r) (side-Lacks b';' l refl (omega arith))
      (omega arith, side-Lacks b';' r refl (omega arith)),
)

-- `find` and `findc` return the ids that the server found, if they lie below 2 ^ 53.
pub parse_ids-decimal :
    (what : Text) (ids : List ℕ)
    → All (λ n. n < 2 ^ 53) ids
    → parse_ids what (in_brackets (map decimal ids)) ≡ ok (map (int false) ids)
unfolding parse_ids
parse_ids-decimal what ids h = rw (bracketed_lem what (join (b';' ∷ []) (map decimal ids))) (
    ap ok (
      items-Reads decimal parse_int (int false) ids
        (All-first (λ n small. (decimal-Item n, parse_int-id n small)) ids h)))

-- `join` returns the pairs that the server found, with -1 for a side without a row.
pub parse_join-pair :
    (pairs : List (Option ℕ × Option ℕ))
    → All (λ p. Small p.0 × Small p.1) pairs
    → parse_join (in_brackets (map pair pairs))
      ≡ ok (map (λ p. (side_number p.0, side_number p.1)) pairs)
unfolding parse_join
parse_join-pair pairs h =
    rw (bracketed_lem (text "join result") (join (b';' ∷ []) (map pair pairs))) (
      ap ok (
        items-Reads pair parse_pair (λ p. (side_number p.0, side_number p.1)) pairs
          (All-first (λ p small. (pair-Item p.0 p.1, parse_pair-pair p.0 p.1 small.0 small.1)) pairs
            h)))

-- A parameter reads the score that another prints, without a colon or a semicolon.
module _ {F : Type 0} (parse_float : Option Text → F) (print_float : F → Text)
    (reads : (f : F) → parse_float (some (print_float f)) ≡ f)
    (plain : (f : F) → Lacks b':' (print_float f) × Lacks b';' (print_float f)) where
  parse_scored-scored :
      (n : ℕ) (f : F)
      → n < 2 ^ 53
      → parse_scored parse_float (scored print_float (n, f))
        ≡ record { row_id = int false n; score = f }
  unfolding parse_scored scored is_digit part_number
  parse_scored-scored n f h = rw (
    split-append b':' (decimal n) (print_float f) (decimal-Lacks b':' n refl),
    split-Lacks b':' (print_float f) (plain f).0,
    parse_int-id n h,
    reads f,
  )

  scored-Item : (n : ℕ) (f : F) → Item (scored print_float (n, f))
  unfolding scored is_digit
  scored-Item n f = (
    append-ne-nil (decimal n) (print_float f) b':',
    All-append (λ c. c ≢ b';') (decimal n) (b':' ∷ print_float f) (decimal-Lacks b';' n refl)
        (omega arith, (plain f).1),
  )

  -- The searches return the rows and the scores that the server sent, in its order.
  pub parse_knn-scored :
      (rows : List (ℕ × F))
      → All (λ r. r.0 < 2 ^ 53) rows
      → parse_knn parse_float (in_brackets (map (scored print_float) rows))
        ≡ ok (map (λ r. record { row_id = int false r.0; score = r.1 }) rows)
  unfolding parse_knn
  parse_knn-scored rows h =
      rw (bracketed_lem (text "knn result") (join (b';' ∷ []) (map (scored print_float) rows))) (
        ap ok (
          items-Reads (scored print_float) (parse_scored parse_float)
            (λ r. record { row_id = int false r.0; score = r.1 }) rows
            (All-first (λ r small. (scored-Item r.0 r.1, parse_scored-scored r.0 r.1 small)) rows
              h)))
