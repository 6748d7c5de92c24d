-- ===== src/Wire/Row/RoundTrip.antt =====
-- `splitWireRow` reads back every row of spelled cells.
use cuttle_db.Prelude.{
  ℕ, List, [], ◌∷◌, ◌++◌, map, append_assoc, append-nil, ◌≡◌, ◌≢◌, refl, ◌∙◌, arith, All,
  All-append, Text,
}
use cuttle_db.Text.{join}
use cuttle_db.Wire.Escape.{Cell, scalar, vector, encode_row, encode_value}
use cuttle_db.Wire.Row.{unescape, row_loop, split_wire_row}
use cuttle_db.Wire.Row.Spelling.{Spells, nil, plain, escaped, SpellsAll, cons, escape-Spells}

module _ (out : List Text) (cur : Text) where
  row_loop_plain :
      (c : ℕ) (s : Text)
      → c ≢ b'\\'
      → c ≢ b','
      → row_loop (c ∷ s) out cur ≡ row_loop s out (cur ++ c ∷ [])
  unfolding row_loop
  row_loop_plain c [] p q = ground arith
  row_loop_plain c (e ∷ s) p q = ground arith

  row_loop_comma : (s : Text) → row_loop (b',' ∷ s) out cur ≡ row_loop s (out ++ cur ∷ []) []
  unfolding row_loop
  row_loop_comma [] = refl
  row_loop_comma (e ∷ s) = refl

  row_loop_escaped :
      (e : ℕ) (s : Text)
      → row_loop (b'\\' ∷ e ∷ s) out cur ≡ row_loop s out (cur ++ unescape e ∷ [])
  unfolding row_loop
  row_loop_escaped e s = refl

row_loop-Spells :
    {w s : Text} (out : List Text) (cur rest : Text)
    → Spells w s
    → row_loop (w ++ rest) out cur ≡ row_loop rest out (cur ++ s)
row_loop-Spells out cur rest nil = rw append-nil
row_loop-Spells out cur rest (plain {c} {w} {s} p q h) =
    row_loop_plain out cur c (w ++ rest) p q
    ∙ row_loop-Spells out (cur ++ c ∷ []) rest h
    ∙ rw append_assoc
row_loop-Spells out cur rest (escaped {w} {s} e d eq h) =
    row_loop_escaped out cur e (w ++ rest)
    ∙ row_loop-Spells out (cur ++ unescape e ∷ []) rest h
    ∙ rw (append_assoc, eq)

row_loop_end : (out : List Text) (cur : Text) → row_loop [] out cur ≡ out ++ cur ∷ []
unfolding row_loop
row_loop_end out cur = refl

row_loop-join :
    {w s : Text} {ws ss : List Text} (out : List Text)
    → Spells w s
    → SpellsAll ws ss
    → row_loop (join (b',' ∷ []) (w ∷ ws)) out [] ≡ out ++ s ∷ ss
unfolding join
row_loop-join {w} {s} out h nil =
    rw (← append-nil w) (row_loop-Spells out [] [] h ∙ row_loop_end out s)
row_loop-join {w} {s} out h (cons {w = v} {ws = vs} k ks) =
    row_loop-Spells out [] (b',' ∷ join (b',' ∷ []) (v ∷ vs)) h
    ∙ row_loop_comma out s _
    ∙ row_loop-join (out ++ s ∷ []) k ks
    ∙ rw append_assoc

-- However the sender spells the cells of a row with at least one cell, the row is read back.
pub split_wire_row-join :
    (ws ss : List Text) → SpellsAll ws ss → ss ≢ [] → split_wire_row (join (b',' ∷ []) ws) ≡ ss
unfolding split_wire_row
split_wire_row-join [] ss nil ne = absurd (ne refl)
split_wire_row-join (w ∷ ws) ss (cons h hs) ne = row_loop-join [] h hs

-- No element of a vector holds a backslash or a comma; the text of a number never does.
abbrev pub IsClean : Cell → Type 0
IsClean (scalar s) = Unit
IsClean (vector vs) = All (All (λ c. (c ≢ b'\\') × (c ≢ b','))) vs

-- The string that a cell is read back as.
abbrev pub shown : Cell → Text
shown (scalar s) = s
shown (vector vs) = join (b'|' ∷ []) vs

clean-Spells : (w : Text) → All (λ c. (c ≢ b'\\') × (c ≢ b',')) w → Spells w w
clean-Spells [] h = nil
clean-Spells (c ∷ w) ((p, q), h) = plain p q (clean-Spells w h)

join-clean :
    (vs : List Text)
    → All (All (λ c. (c ≢ b'\\') × (c ≢ b','))) vs
    → All (λ c. (c ≢ b'\\') × (c ≢ b',')) (join (b'|' ∷ []) vs)
unfolding join
join-clean [] h = tt
join-clean (v ∷ []) h = h.0
join-clean (v ∷ u ∷ vs) h =
    All-append _ v _ h.0 ((λ e. omega (arith, e), λ e. omega (arith, e)), join-clean (u ∷ vs) h.1)

encode_value-Spells : (v : Cell) → IsClean v → Spells (encode_value v) (shown v)
unfolding encode_value
encode_value-Spells (scalar s) h = escape-Spells s
encode_value-Spells (vector vs) h = clean-Spells _ (join-clean vs h)

pub encode_value-SpellsAll :
    (vs : List Cell) → All IsClean vs → SpellsAll (map encode_value vs) (map shown vs)
encode_value-SpellsAll [] h = nil
encode_value-SpellsAll (v ∷ vs) h = cons (encode_value-Spells v h.0) (encode_value-SpellsAll vs h.1)

-- The row that `insert` writes for at least one cell is read back by `splitWireRow`, if no element of
-- a vector holds a comma or a backslash: each string as it was, whatever it holds, and each vector
-- as its elements joined by bars.
pub split_wire_row-encode_row :
    (vs : List Cell) → vs ≢ [] → All IsClean vs → split_wire_row (encode_row vs) ≡ map shown vs
unfolding encode_row
split_wire_row-encode_row [] ne h = absurd (ne refl)
split_wire_row-encode_row (v ∷ vs) ne h =
    split_wire_row-join (map encode_value (v ∷ vs)) (map shown (v ∷ vs))
      (encode_value-SpellsAll (v ∷ vs) h) (cc)
