-- ===== src/Client/OneLine.antt =====
-- The commands with cells are one line each, whatever strings the cells hold.
use mathlib.Core.List.{flat_map}
use cuttle_db.Prelude.{
  ℕ, List, [], ◌∷◌, ◌++◌, map, ◌≡◌, ◌⊎◌, inl, inr, refl, sym, subst, arith, All, All-append, Lacks,
  Text, text,
}
use cuttle_db.Client.Rows.{insert_command, update_row_str_command, update_where_str_command}
use cuttle_db.Client.Send.{words}
use cuttle_db.Number.{is_digit, decimal}
use cuttle_db.Number.RoundTrip.{decimal-Lacks}
use cuttle_db.Text.Laws.{join-Lacks}
use cuttle_db.Wire.Escape.{
  Cell, scalar, vector, hide, escape, escape-hide, encode_value, encode_row,
}

-- A line feed or a carriage return.
abbrev pub IsBreak : ℕ → Type 0
IsBreak b = (b ≡ b'\n') ⊎ (b ≡ b'\r')

abbrev pub OneLine : Text → Type 0
OneLine s = Lacks b'\n' s × Lacks b'\r' s

-- A string of any kind, or a vector whose elements print on one line.
abbrev pub Printable : Cell → Type 0
Printable (scalar s) = Unit
Printable (vector vs) = All OneLine vs

hide-Lacks : (b c : ℕ) → IsBreak b → Lacks b (hide c)
unfolding hide
hide-Lacks b c h = ground arith

pub flat_map-Lacks :
    (b : ℕ) (f : ℕ → Text) → ((c : ℕ) → Lacks b (f c)) → (s : Text) → Lacks b (flat_map f s)
unfolding flat_map
flat_map-Lacks b f h [] = tt
flat_map-Lacks b f h (c ∷ s) = All-append _ (f c) _ (h c) (flat_map-Lacks b f h s)

escape-Lacks : (b : ℕ) (s : Text) → IsBreak b → Lacks b (escape s)
escape-Lacks b s h = rw escape-hide (flat_map-Lacks b hide (λ c. hide-Lacks b c h) s)

pub decimals-Lacks : (b : ℕ) (ns : List ℕ) → IsBreak b → All (Lacks b) (map decimal ns)
unfolding is_digit
decimals-Lacks b [] h = tt
decimals-Lacks b (n ∷ ns) h = (decimal-Lacks b n (ground arith), decimals-Lacks b ns h)

one_of : (b : ℕ) (s : Text) → IsBreak b → OneLine s → Lacks b s
one_of b s (inl e) h = subst (λ (x : ℕ). Lacks x s) (sym e) h.0
one_of b s (inr e) h = subst (λ (x : ℕ). Lacks x s) (sym e) h.1

all_one_of : (b : ℕ) (ss : List Text) → IsBreak b → All OneLine ss → All (Lacks b) ss
all_one_of b [] e h = tt
all_one_of b (s ∷ ss) e h = (one_of b s e h.0, all_one_of b ss e h.1)

encode_value-Lacks : (b : ℕ) (v : Cell) → IsBreak b → Printable v → Lacks b (encode_value v)
unfolding encode_value
encode_value-Lacks b (scalar s) h p = escape-Lacks b s h
encode_value-Lacks b (vector vs) h p =
    join-Lacks b (b'|' ∷ []) vs (ground (arith, h), tt) (all_one_of b vs h p)

encode_values-Lacks :
    (b : ℕ) (vs : List Cell) → IsBreak b → All Printable vs → All (Lacks b) (map encode_value vs)
encode_values-Lacks b [] h p = tt
encode_values-Lacks b (v ∷ vs) h p = (encode_value-Lacks b v h p.0, encode_values-Lacks b vs h p.1)

encode_row-Lacks : (b : ℕ) (vs : List Cell) → IsBreak b → All Printable vs → Lacks b (encode_row vs)
unfolding encode_row
encode_row-Lacks b vs h p =
    join-Lacks b (b',' ∷ []) (map encode_value vs) (ground (arith, h), tt)
      (encode_values-Lacks b vs h p)

pub words-Lacks : (b : ℕ) (ws : List Text) → IsBreak b → All (Lacks b) ws → Lacks b (words ws)
unfolding words
words-Lacks b ws h k = join-Lacks b (b' ' ∷ []) ws (ground (arith, h), tt) k

-- The words of a command: its name, its numbers, and what follows them.
command-Lacks :
    (b : ℕ) (name : Text) (ns : List ℕ) (rest : List Text)
    → IsBreak b
    → Lacks b name
    → All (Lacks b) rest
    → Lacks b (words (name ∷ map decimal ns ++ rest))
command-Lacks b name ns rest h k r =
    words-Lacks b (name ∷ map decimal ns ++ rest) h
      (k, All-append (Lacks b) (map decimal ns) rest (decimals-Lacks b ns h) r)

module _ (b : ℕ) (h : IsBreak b) where
  pub insert_command-Lacks :
      (hid tid : ℕ) (values : List Cell)
      → All Printable values
      → Lacks b (insert_command hid tid values)
  unfolding insert_command
  insert_command-Lacks hid tid values p =
      command-Lacks b (text "INSERT") (hid ∷ tid ∷ []) (encode_row values ∷ []) h
        (ground (arith, h)) (encode_row-Lacks b values h p, tt)

  pub update_row_str_command-Lacks :
      (hid tid row_id col : ℕ) (v : Cell)
      → Printable v
      → Lacks b (update_row_str_command hid tid row_id col v)
  unfolding update_row_str_command
  update_row_str_command-Lacks hid tid row_id col v p =
      command-Lacks b (text "UPDRS") (hid ∷ tid ∷ row_id ∷ col ∷ []) (encode_value v ∷ []) h
        (ground (arith, h)) (encode_value-Lacks b v h p, tt)

  pub update_where_str_command-Lacks :
      (hid tid set_col pred_col : ℕ) (v : Cell) (op threshold : Text)
      → Printable v
      → OneLine op
      → OneLine threshold
      → Lacks b (update_where_str_command hid tid set_col v pred_col op threshold)
  unfolding update_where_str_command
  update_where_str_command-Lacks hid tid set_col pred_col v op threshold p o e =
      command-Lacks b (text "UPDATES") (hid ∷ tid ∷ set_col ∷ pred_col ∷ [])
        (op ∷ threshold ∷ encode_value v ∷ []) h (ground (arith, h))
        (one_of b op h o, (one_of b threshold h e, (encode_value-Lacks b v h p, tt)))

pub insert_command-OneLine :
    (hid tid : ℕ) (values : List Cell)
    → All Printable values
    → OneLine (insert_command hid tid values)
insert_command-OneLine hid tid values p = (
  insert_command-Lacks b'\n' (inl refl) hid tid values p,
  insert_command-Lacks b'\r' (inr refl) hid tid values p,
)

-- No string in a cell can end the line of a command: INSERT, UPDRS and UPDATES are one line each,
-- with any strings in the cells, if the elements of vectors, the operator and the threshold print
-- on one line.
pub commands-OneLine :
    (hid tid row_id col pred_col : ℕ) (values : List Cell) (v : Cell) (op threshold : Text)
    → All Printable values
    → Printable v
    → OneLine op
    → OneLine threshold
    → OneLine (insert_command hid tid values)
      × OneLine (update_row_str_command hid tid row_id col v)
      × OneLine (update_where_str_command hid tid col v pred_col op threshold)
commands-OneLine hid tid row_id col pred_col values v op threshold ps p o e = (
  insert_command-OneLine hid tid values ps,
  (
    update_row_str_command-Lacks b'\n' (inl refl) hid tid row_id col v p,
    update_row_str_command-Lacks b'\r' (inr refl) hid tid row_id col v p,
  ),
  (
    update_where_str_command-Lacks b'\n' (inl refl) hid tid col pred_col v op threshold p o e,
    update_where_str_command-Lacks b'\r' (inr refl) hid tid col pred_col v op threshold p o e,
  ),
)
