-- ===== src/Wire/Results/Items.antt =====
-- Lists of printed items, and reading them one by one.
use cuttle_db.Prelude.{
  ℕ, suc, ◌+◌, length, drop, arith, ◌^◌, ◌<◌, false, List, [], ◌∷◌, ◌++◌, append-nil, map, ◌≡◌, ◌≢◌,
  refl, sym, ap, ◌∙◌, All, Lacks, Text,
}
use cuttle_db.Number.{int, is_digit, parse_int, decimal}
use cuttle_db.Number.RoundTrip.{decimal-Lacks, decimal-ne-nil, parse_int-decimal}
use cuttle_db.Text.{split, join}
use cuttle_db.Text.Laws.{split-join, join-ne-nil}
use cuttle_db.Wire.Results.{items}

-- An item of a list: not empty, and without a semicolon.
abbrev pub Item : Text → Type 0
Item p = (p ≢ []) × Lacks b';' p

items_cons : (s : Text) → s ≢ [] → items s ≡ split b';' s
unfolding items
items_cons [] ne = absurd (ne refl)
items_cons (c ∷ s) ne = refl

join-first : (p : Text) (ps : List Text) → p ≢ [] → join (b';' ∷ []) (p ∷ ps) ≢ []
unfolding join
join-first p [] ne = ne
join-first p (q ∷ ps) ne = join-ne-nil b';' p q ps

pub All-first {ℓ κ} :
    {A : Type ℓ} {P : A → Type κ} {Q : A → Type κ} (f : (a : A) → P a → Q a) (xs : List A)
    → All P xs
    → All Q xs
All-first f [] h = tt
All-first f (x ∷ xs) h = (f x h.0, All-first f xs h.1)

pub items-join : (ps : List Text) → All Item ps → items (join (b';' ∷ []) ps) ≡ ps
unfolding items join
items-join [] h = refl
items-join (p ∷ ps) h =
    items_cons _ (join-first p ps h.0.0)
    ∙ split-join b';' (p ∷ ps) (cc) (All-first (λ q i. i.1) (p ∷ ps) h)

-- A reader gives `value` for what the server prints for each of the things.
module _ {A B : Type 0} (print : A → Text) (read : Text → B) (value : A → B) where
  abbrev pub Reads : A → Type 0
  Reads a = Item (print a) × (read (print a) ≡ value a)

  map-Reads : (xs : List A) → All Reads xs → map read (map print xs) ≡ map value xs
  map-Reads [] h = refl
  map-Reads (x ∷ xs) h = cc (h.0.1, map-Reads xs h.1)

  print-Items : (xs : List A) → All Reads xs → All Item (map print xs)
  print-Items [] h = tt
  print-Items (x ∷ xs) h = (h.0.0, print-Items xs h.1)

  pub items-Reads :
      (xs : List A)
      → All Reads xs
      → map read (items (join (b';' ∷ []) (map print xs))) ≡ map value xs
  items-Reads xs h = rw (items-join (map print xs) (print-Items xs h)) (map-Reads xs h)

pub parse_int-id : (n : ℕ) → n < 2 ^ 53 → parse_int (decimal n) ≡ int false n
parse_int-id n h = ap parse_int (sym (append-nil (decimal n))) ∙ parse_int-decimal n [] h tt

pub decimal-Item : (n : ℕ) → Item (decimal n)
unfolding is_digit
decimal-Item n = (decimal-ne-nil n, decimal-Lacks b';' n refl)

pub append-ne-nil : (p s : Text) (c : ℕ) → p ++ c ∷ s ≢ []
append-ne-nil [] s c e = cc
append-ne-nil (x ∷ p) s c e = cc

drop_one_more : (p s : Text) (c : ℕ) → drop (suc (length p)) (p ++ c ∷ s) ≡ s
drop_one_more [] s c = refl
drop_one_more (x ∷ p) s c = drop_one_more p s c

pub drop_past : (p s : Text) (c : ℕ) → drop (length p + 1) (p ++ c ∷ s) ≡ s
drop_past p s c =
    let z : length p + 1 ≡ suc (length p) = omega arith in
    ap (λ (k : ℕ). drop k (p ++ c ∷ s)) z ∙ drop_one_more p s c
