-- ===== src/Search/Query.antt =====
-- The query that `search` sends, read back by a decoder of form data.
use mathlib.Core.List.{flat_map, cons-ne-nil}
use cuttle_db.Prelude.{
  ℕ, suc, true, ◌+◌, ◌-◌, ◌*◌, ◌/◌, ◌%◌, ◌<◌, List, [], ◌∷◌, ◌++◌, map, ◌==◌, ltb, Option, none,
  some, ◌≡◌, ◌≢◌, ◌⊎◌, refl, sym, ap, ◌∙◌, arith, if◌then◌else◌, inl, inr, Bool-cases, ==→eq,
  length, take, drop, take-append, All, All-append, Lacks, Text, text,
}
use cuttle_db.Text.{index_of, split}
use cuttle_db.Text.Laws.{index_of-append, split-join}
use cuttle_db.Search.{Platform, Client, get, search, search_params}
use cuttle_db.Search.Form.{is_plain, hex_digit, encode_byte, encode_bytes, encode_pair, encode_form}

-- The place in an escape: outside, behind the percent sign, or behind the first digit.
pub data Place : Type 0 where
  outside : Place
  first : Place
  second : ℕ → Place

abbrev digit_value : ℕ → ℕ
digit_value c = if ltb c 58 then c - b'0' else c - b'A' + 10

unfoldable pub step : Place → ℕ → Place × List ℕ
step outside c =
    if c == b'%' then (first, []) else if c == b'+' then (outside, b' ' ∷ []) else (outside, c ∷ [])
step first c = (second (digit_value c), [])
step (second h) c = (outside, (16 * h + digit_value c) ∷ [])

-- The bytes that form data stands for.
unfoldable pub decode_from : Place → Text → List ℕ
unfolding step
decode_from p [] = []
decode_from p (c ∷ s) = let (p', out) = step p c in out ++ decode_from p' s

abbrev pub decode : Text → List ℕ
decode s = decode_from outside s

drop_behind : (xs : Text) (c : ℕ) (ys : Text) → drop (suc (length xs)) (xs ++ c ∷ ys) ≡ ys
drop_behind [] c ys = refl
drop_behind (x ∷ xs) c ys = drop_behind xs c ys

-- A pair is cut at its first equals sign.
abbrev cut : Text → Option ℕ → List ℕ × List ℕ
cut s none = (decode s, [])
cut s (some i) = (decode (take i s), decode (drop (suc i) s))

abbrev read_pair : Text → List ℕ × List ℕ
read_pair s = cut s (index_of b'=' s)

unfoldable pub read_form : Text → List (List ℕ × List ℕ)
unfolding decode_from index_of split
read_form s = map read_pair (split b'&' s)

hex_digit-value : (n : ℕ) → n < 16 → digit_value (hex_digit n) ≡ n
hex_digit-value n h = ground arith

decode-plain : (b : ℕ) (s : Text) → b ≢ b'%' → b ≢ b'+' → decode (b ∷ s) ≡ b ∷ decode s
unfolding decode_from
decode-plain b s p q = ground arith

is_plain-other : (b : ℕ) → is_plain b ≡ true → (b ≢ b'%') × (b ≢ b'+') × (b ≢ b'&') × (b ≢ b'=')
unfolding is_plain
is_plain-other b h = ground arith

decode-escape :
    (b : ℕ) (s : Text)
    → b < 256
    → decode (b'%' ∷ hex_digit (b / 16) ∷ hex_digit (b % 16) ∷ s) ≡ b ∷ decode s
unfolding decode_from
decode-escape b s h =
    let high = hex_digit-value (b / 16) (omega (arith, h)) in
    let low = hex_digit-value (b % 16) (omega arith) in
    ap (λ (c : ℕ). c ∷ decode s) ((λ i. 16 * high i + low i) ∙ omega arith)

decode-encode_byte : (b : ℕ) (s : Text) → b < 256 → decode (encode_byte b ++ s) ≡ b ∷ decode s
unfolding encode_byte
decode-encode_byte b s h = elim (Bool-cases (b == b' ')) [
  | inl e ↦ rw e (unfold decode_from in ap (λ (c : ℕ). c ∷ decode s) (sym (==→eq b b' ' e)))
  | inr e ↦ elim (Bool-cases (is_plain b)) [
    | inl p ↦
        rw (e, p)
          (let (percent, plus, amp, equals) = is_plain-other b p in decode-plain b s percent plus)
    | inr p ↦ rw (e, p) (decode-escape b s h)
  ]
]

decode-encode_bytes : (bs : List ℕ) → All (λ b. b < 256) bs → decode (encode_bytes bs) ≡ bs
unfolding encode_bytes flat_map
decode-encode_bytes [] h = unfold decode_from in refl
decode-encode_bytes (b ∷ bs) h =
    decode-encode_byte b (encode_bytes bs) h.0
    ∙ ap (λ (cs : List ℕ). b ∷ cs) (decode-encode_bytes bs h.1)

hex_digit-other : (n : ℕ) → n < 16 → (hex_digit n ≢ b'&') × (hex_digit n ≢ b'=')
hex_digit-other n h = ground arith

encode_byte-Lacks : (b c : ℕ) → b < 256 → (c ≡ b'&') ⊎ (c ≡ b'=') → Lacks c (encode_byte b)
unfolding encode_byte
encode_byte-Lacks b c h k = elim (Bool-cases (b == b' ')) [
  | inl e ↦ rw e (ground (arith, k), tt)
  | inr e ↦ elim (Bool-cases (is_plain b)) [
    | inl p ↦
        rw (e, p)
          (let (percent, plus, amp, equals) = is_plain-other b p in
            (ground (arith, k, amp, equals), tt))
    | inr p ↦
        rw (e, p)
          (let (amp, equals) = hex_digit-other (b / 16) (omega (arith, h)) in
            let (amp', equals') = hex_digit-other (b % 16) (omega arith) in
            (
              ground (arith, k),
              (ground (arith, k, amp, equals), (ground (arith, k, amp', equals'), tt)),
            ))
  ]
]

encode_bytes-Lacks :
    (bs : List ℕ) (c : ℕ)
    → All (λ b. b < 256) bs
    → (c ≡ b'&') ⊎ (c ≡ b'=')
    → Lacks c (encode_bytes bs)
unfolding encode_bytes flat_map
encode_bytes-Lacks [] c h k = tt
encode_bytes-Lacks (b ∷ bs) c h k =
    All-append (λ x. x ≢ c) (encode_byte b) _ (encode_byte-Lacks b c h.0 k)
      (encode_bytes-Lacks bs c h.1 k)

-- A pair, as bytes.
abbrev pub in_bytes : (Text → List ℕ) → Text × Text → List ℕ × List ℕ
in_bytes utf8 (name, value) = (utf8 name, utf8 value)

module _ (utf8 : Text → List ℕ) (bytes : (s : Text) → All (λ b. b < 256) (utf8 s)) where
  encode_pair-Lacks : (name value : Text) → Lacks b'&' (encode_pair utf8 (name, value))
  unfolding encode_pair
  encode_pair-Lacks name value =
      All-append (λ x. x ≢ b'&') (encode_bytes (utf8 name)) _
        (encode_bytes-Lacks (utf8 name) b'&' (bytes name) (inl refl))
        (omega arith, encode_bytes-Lacks (utf8 value) b'&' (bytes value) (inl refl))

  read_pair-encode_pair :
      (name value : Text) → read_pair (encode_pair utf8 (name, value)) ≡ (utf8 name, utf8 value)
  unfolding encode_pair
  read_pair-encode_pair name value =
      let front = encode_bytes (utf8 name) in
      let back = encode_bytes (utf8 value) in
      rw
        (index_of-append b'=' front back
          (encode_bytes-Lacks (utf8 name) b'=' (bytes name) (inr refl)))
        (λ i. (
          (ap decode (take-append front (b'=' ∷ back))
                ∙ decode-encode_bytes (utf8 name) (bytes name))
              i,
          (ap decode (drop_behind front b'=' back) ∙ decode-encode_bytes (utf8 value) (bytes value))
              i,
        ))

  pairs-Lacks : (pairs : List (Text × Text)) → All (Lacks b'&') (map (encode_pair utf8) pairs)
  pairs-Lacks [] = tt
  pairs-Lacks ((name, value) ∷ pairs) = (encode_pair-Lacks name value, pairs-Lacks pairs)

  read_pairs :
      (pairs : List (Text × Text))
      → map read_pair (map (encode_pair utf8) pairs) ≡ map (in_bytes utf8) pairs
  read_pairs [] = refl
  read_pairs ((name, value) ∷ pairs) = λ i. read_pair-encode_pair name value i ∷ read_pairs pairs i

  read_form-encode_form :
      (p : Text × Text) (pairs : List (Text × Text))
      → read_form (encode_form utf8 (p ∷ pairs)) ≡ map (in_bytes utf8) (p ∷ pairs)
  unfolding read_form encode_form
  read_form-encode_form p pairs =
      ap (map read_pair) (
        split-join b'&' (map (encode_pair utf8) (p ∷ pairs)) (cons-ne-nil _ _)
          (pairs-Lacks (p ∷ pairs)))
      ∙ read_pairs (p ∷ pairs)

-- A parameter that may be given.
abbrev pub if_given : (Text → List ℕ) → Text → Option Text → List (List ℕ × List ℕ)
if_given utf8 name none = []
if_given utf8 name (some value) = (utf8 name, utf8 value) ∷ []

params_lem :
    (utf8 : Text → List ℕ) (q : Text) (k mode : Option Text)
    → map (in_bytes utf8) (search_params q k mode)
      ≡ (utf8 (text "q"), utf8 q) ∷ (if_given utf8 (text "k") k ++ if_given utf8 (text "mode") mode)
unfolding search_params
params_lem utf8 q none none = refl
params_lem utf8 q none (some mode) = refl
params_lem utf8 q (some k) none = refl
params_lem utf8 q (some k) (some mode) = refl

module _ {N W : Type 0} (m : Platform N) (bytes : (s : Text) → All (λ b. b < 256) (m.utf8 s))
    (c : Client W) where
  -- For a query that is not empty, `search` asks for one address, whose query is form data that reads
  -- back as the query text, the limit and the mode, those of the last two that were given, whatever
  -- characters they hold, if UTF-8 gives bytes.
  pub search-read_form :
      (q : Text) (k mode : Option Text) (w : W)
      → q ≢ []
      → (s : Text) × (search m c (some q) k mode w ≡ get m c (text "/search?" ++ s) w)
        × (read_form s
            ≡ (m.utf8 (text "q"), m.utf8 q)
              ∷ (if_given m.utf8 (text "k") k ++ if_given m.utf8 (text "mode") mode))
  unfolding search search_params
  search-read_form [] k mode w ne = absurd (ne refl)
  search-read_form (x ∷ q) k mode w ne = (
    encode_form m.utf8 (search_params (x ∷ q) k mode),
    refl,
    read_form-encode_form m.utf8 bytes (text "q", x ∷ q) _ ∙ params_lem m.utf8 (x ∷ q) k mode,
  )
