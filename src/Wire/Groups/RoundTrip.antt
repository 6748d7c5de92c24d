-- ===== src/Wire/Groups/RoundTrip.antt =====
-- `parseGroupBy` gives back groups that are written as its comment says: quoted strings and bare
-- numbers, bars between the components of a key, and a colon before the value.
use cuttle_db.Prelude.{
  ℕ, zero, suc, ◌≤◌, Bool, true, inl, inr, List, [], ◌∷◌, ◌++◌, append_assoc, map, Option, some,
  ◌≡◌, ◌≢◌, ◌⊎◌, refl, ap, ◌∙◌, arith, if◌then◌else◌, length, length-append, take-append, ok, All,
  All-append, Lacks, Text, text,
}
use cuttle_db.Text.{join}
use cuttle_db.Text.Laws.{index_of-append}
use cuttle_db.Wire.Body.{bracketed_lem}
use cuttle_db.Wire.Groups.{
  Component, num, str, one, many, Group, span_raw, raw_component, quoted, unquoted,
  parse_gb_component, is_colon, entry_loop, group_key, group_of, parse_entries, parse_group_by,
}
use cuttle_db.Wire.Groups.Fuel.{entry_loop-cons}
use cuttle_db.Wire.Results.Contract.{in_brackets}
use cuttle_db.Wire.Results.Items.{Item, items-join, drop_past, append-ne-nil}

-- A delimiter behind a component.
abbrev IsDelimiter : ℕ → Type 0
IsDelimiter d = (d ≡ b'|') ⊎ (d ≡ b':')

span_raw-append :
    (p s : Text) (d : ℕ)
    → IsDelimiter d
    → Lacks b'|' p
    → Lacks b':' p
    → span_raw (p ++ d ∷ s) ≡ (p, d ∷ s)
unfolding span_raw
span_raw-append [] s d (inl e) l m = ground (arith, e)
span_raw-append [] s d (inr e) l m = ground (arith, e)
span_raw-append (c ∷ p) s d e l m = ground (arith, span_raw-append p s d e l.1 m.1, l.0, m.0)

-- A printed number: not empty, and without a code unit that the reader takes for another thing.
pub record IsBare (s : Text) : Type 0 where
  pub ne_nil : s ≢ []
  pub bars : Lacks b'|' s
  pub colons : Lacks b':' s
  pub quotes : Lacks b'"' s
  pub semicolons : Lacks b';' s

-- Parameters are `Number`, `Number.isFinite`, and the printing of finite numbers.
module _ {F : Type 0} (number : Text → F) (finite : F → Bool) (print_float : F → Text) where
  unfoldable pub print_component : Component F → Text
  print_component (num f) = print_float f
  print_component (str s) = b'"' ∷ (s ++ b'"' ∷ [])

  unfoldable pub print_key : Component F → List (Component F) → Text
  unfolding print_component
  print_key c [] = print_component c
  print_key c (d ∷ ds) = print_component c ++ b'|' ∷ print_key d ds

  unfoldable pub print_group : (Component F × List (Component F)) × F → Text
  unfolding print_key
  print_group ((c, cs), v) = print_key c cs ++ b':' ∷ print_float v

  -- A number that is printed bare and read back, and a string without quotes and semicolons.
  abbrev pub Readable : Component F → Type 0
  Readable (num f) = IsBare (print_float f) × (number (print_float f) ≡ f) × (finite f ≡ true)
  Readable (str s) = Lacks b'"' s × Lacks b';' s

  raw_component_cons :
      (p : Text) (f : F)
      → p ≢ []
      → number p ≡ f
      → finite f ≡ true
      → raw_component number finite p ≡ num f
  unfolding raw_component
  raw_component_cons [] f ne e h = absurd (ne refl)
  raw_component_cons (c ∷ p) f ne e h = rw (e, h)

  parse_bare :
      (p : Text) (d : ℕ) (s : Text)
      → p ≢ []
      → Lacks b'"' p
      → parse_gb_component number finite (p ++ d ∷ s) ≡ unquoted number finite (p ++ d ∷ s)
  unfolding parse_gb_component
  parse_bare [] d s ne q = absurd (ne refl)
  parse_bare (c ∷ p) d s ne q = ground (arith, q.0)

  parse_component :
      (c : Component F) (d : ℕ) (s : Text)
      → Readable c
      → IsDelimiter d
      → parse_gb_component number finite (print_component c ++ d ∷ s) ≡ (c, (s, some d))
  unfolding print_component
  parse_component (num f) d s (bare, e, h) delimiter =
      parse_bare (print_float f) d s bare.ne_nil bare.quotes
      ∙ unfold unquoted in
        rw (
          span_raw-append (print_float f) s d delimiter bare.bars bare.colons,
          raw_component_cons (print_float f) f bare.ne_nil e h,
        )
  parse_component (str t) d s (q, l) delimiter =
      let z : (t ++ b'"' ∷ []) ++ d ∷ s ≡ t ++ b'"' ∷ d ∷ s = append_assoc t (b'"' ∷ []) (d ∷ s) in
      ap (λ (r : Text). parse_gb_component number finite (b'"' ∷ r)) z
      ∙ unfold parse_gb_component in
        unfold quoted in
        rw
          (index_of-append b'"' t (d ∷ s) q, take-append t (b'"' ∷ d ∷ s), drop_past t (d ∷ s) b'"')

  entry_step :
      (fuel : ℕ) (s next : Text) (c : Component F) (term : Option ℕ)
      → s ≢ []
      → parse_gb_component number finite s ≡ (c, (next, term))
      → entry_loop number finite (suc fuel) s ≡ (
          if is_colon number finite term
          then (c ∷ [], next)
          else (c ∷ (entry_loop number finite fuel next).0, (entry_loop number finite fuel next).1))
  entry_step fuel [] next c term ne h = absurd (ne refl)
  entry_step fuel (x ∷ s) next c term ne h = entry_loop-cons number finite fuel x s next c term h

  component_step :
      (fuel d : ℕ) (s : Text) (c : Component F)
      → Readable c
      → IsDelimiter d
      → entry_loop number finite (suc fuel) (print_component c ++ d ∷ s) ≡ (
          if is_colon number finite (some d)
          then (c ∷ [], s)
          else (c ∷ (entry_loop number finite fuel s).0, (entry_loop number finite fuel s).1))
  component_step fuel d s c r delimiter =
      entry_step fuel (print_component c ++ d ∷ s) s c (some d)
        (append-ne-nil (print_component c) s d) (parse_component c d s r delimiter)

  entry_loop-print_key :
      (fuel : ℕ) (c : Component F) (cs : List (Component F)) (v : Text)
      → Readable c
      → All Readable cs
      → length (print_key c cs ++ b':' ∷ v) ≤ fuel
      → entry_loop number finite fuel (print_key c cs ++ b':' ∷ v) ≡ (c ∷ cs, v)
  unfolding print_key is_colon
  entry_loop-print_key zero c cs v r rs h =
      absurd (omega (arith, h, length-append (print_key c cs) (b':' ∷ v)))
  entry_loop-print_key (suc fuel) c [] v r rs h = component_step fuel b':' v c r (inr refl)
  entry_loop-print_key (suc fuel) c (d ∷ ds) v r rs h =
      let rest = print_key d ds ++ b':' ∷ v in
      let z : (print_component c ++ b'|' ∷ print_key d ds) ++ b':' ∷ v
          ≡ print_component c ++ b'|' ∷ rest =
        append_assoc (print_component c) (b'|' ∷ print_key d ds) (b':' ∷ v) in
      let shorter : length rest ≤ fuel =
        omega (arith, h, ap length z, length-append (print_component c) (b'|' ∷ rest)) in
      ap (entry_loop number finite (suc fuel)) z
      ∙ component_step fuel b'|' rest c r (inl refl)
      ∙ ap (λ (out : List (Component F) × Text). (c ∷ out.0, out.1))
          (entry_loop-print_key fuel d ds v rs.0 rs.1 shorter)

  component-Lacks : (c : Component F) → Readable c → Lacks b';' (print_component c)
  unfolding print_component
  component-Lacks (num f) r = r.0.semicolons
  component-Lacks (str s) r =
      (omega arith, All-append (λ x. x ≢ b';') s (b'"' ∷ []) r.1 (omega arith, tt))

  key-Lacks :
      (c : Component F) (cs : List (Component F))
      → Readable c
      → All Readable cs
      → Lacks b';' (print_key c cs)
  unfolding print_key
  key-Lacks c [] r rs = component-Lacks c r
  key-Lacks c (d ∷ ds) r rs =
      All-append (λ x. x ≢ b';') (print_component c) (b'|' ∷ print_key d ds) (component-Lacks c r)
        (omega arith, key-Lacks d ds rs.0 rs.1)

  abbrev pub ReadableGroup : (Component F × List (Component F)) × F → Type 0
  ReadableGroup ((c, cs), v) =
      Readable c × All Readable cs × IsBare (print_float v) × (number (print_float v) ≡ v)

  -- A key with one component is that component, and one with several is their array.
  abbrev pub group : (Component F × List (Component F)) × F → Group F
  group ((c, []), v) = record { key = one c; value = v }
  group ((c, d ∷ ds), v) = record { key = many (c ∷ d ∷ ds); value = v }

  group-key :
      (c : Component F) (cs : List (Component F)) (v : F)
      → ◌≡◌ {A = Group F}
          (record { key = group_key number finite c cs; value = v })
          (group ((c, cs), v))
  unfolding group_key
  group-key c [] v = refl
  group-key c (d ∷ ds) v = refl

  group-Item : (g : (Component F × List (Component F)) × F) → ReadableGroup g → Item (print_group g)
  unfolding print_group
  group-Item ((c, cs), v) (r, rs, bare, e) = (
    append-ne-nil (print_key c cs) (print_float v) b':',
    All-append (λ x. x ≢ b';') (print_key c cs) (b':' ∷ print_float v) (key-Lacks c cs r rs)
        (omega arith, bare.semicolons),
  )

  group_of-print_group :
      (g : (Component F × List (Component F)) × F)
      → ReadableGroup g
      → group_of number finite (entry_loop number finite (length (print_group g)) (print_group g))
        ≡ group g ∷ []
  unfolding print_group group_of
  group_of-print_group ((c, cs), v) (r, rs, bare, e) =
      let s = print_key c cs ++ b':' ∷ print_float v in
      rw (entry_loop-print_key (length s) c cs (print_float v) r rs (omega arith), e)
        (ap (λ (g : Group F). g ∷ []) (group-key c cs v))

  parse_entries-print_group :
      (gs : List ((Component F × List (Component F)) × F))
      → All ReadableGroup gs
      → parse_entries number finite (map print_group gs) ≡ map group gs
  unfolding parse_entries
  parse_entries-print_group [] h = refl
  parse_entries-print_group (g ∷ gs) h =
      rw (group_of-print_group g h.0, parse_entries-print_group gs h.1)

  groups-Items :
      (gs : List ((Component F × List (Component F)) × F))
      → All ReadableGroup gs
      → All Item (map print_group gs)
  groups-Items [] h = tt
  groups-Items (g ∷ gs) h = (group-Item g h.0, groups-Items gs h.1)

  -- The groups of an answer are read back with their values and their keys, one component as itself
  -- and several as their array, in order, if no string in a
  -- key holds a quote or a semicolon and the numbers are finite, printed without the characters
  -- of the notation and read back.
  pub parse_group_by-print_group :
      (gs : List ((Component F × List (Component F)) × F))
      → All ReadableGroup gs
      → parse_group_by number finite (in_brackets (map print_group gs)) ≡ ok (map group gs)
  unfolding parse_group_by
  parse_group_by-print_group gs h = rw (
    bracketed_lem (text "groupby result") (join (b';' ∷ []) (map print_group gs)),
    items-join (map print_group gs) (groups-Items gs h),
    parse_entries-print_group gs h,
  )
