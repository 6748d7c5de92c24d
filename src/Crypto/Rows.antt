-- ===== src/Crypto/Rows.antt =====
-- Rows with encrypted cells: `encRow`, `insertEnc`, `insertBatchEnc` and `getDec`.
use cuttle_db.Prelude.{ℕ, ◌+◌, Bool, false, ◌||◌, List, [], ◌∷◌, ◌==◌, if◌then◌else◌, ok, err, Text}
use cuttle_db.Prelude.Outcome.{Result}
use cuttle_db.Client.Exec.{Exec, Transport, lift, ◌>>=◌}
use cuttle_db.Client.Rows.{insert, insert_batch, get}
use cuttle_db.Crypto.{Bytes, Crypto, encrypt, decrypt}
use cuttle_db.Number.{Number}
use cuttle_db.Text.{join}
use cuttle_db.Wire.Escape.{Cell, scalar, vector}

-- `cols.has(i)`.
unfoldable pub has : ℕ → List ℕ → Bool
has i [] = false
has i (c ∷ cols) = c == i || has i cols

-- `String(v)`; an array has commas between its elements.
unfoldable pub string_of : Cell → Text
unfolding join
string_of (scalar s) = s
string_of (vector vs) = join (b',' ∷ []) vs

module _ {R : Type 0} (m : Crypto R) (key : Bytes) (enc_cols : List ℕ) where
  unfoldable pub enc_cell : ℕ → Cell → R → Cell × R
  unfolding has encrypt string_of
  enc_cell i v r =
      let (token, r') = encrypt m key (string_of v) r in
      if has i enc_cols then (scalar token, r') else (v, r)

  -- The cells from index `i` on.
  unfoldable pub enc_row : ℕ → List Cell → R → List Cell × R
  unfolding enc_cell
  enc_row i [] r = ([], r)
  enc_row i (v ∷ vs) r =
      let (c, r1) = enc_cell i v r in let (cs, r2) = enc_row (i + 1) vs r1 in (c ∷ cs, r2)

  unfoldable pub enc_rows : List (List Cell) → R → List (List Cell) × R
  unfolding enc_row
  enc_rows [] r = ([], r)
  enc_rows (row ∷ rows) r =
      let (c, r1) = enc_row 0 row r in let (cs, r2) = enc_rows rows r1 in (c ∷ cs, r2)

  unfoldable pub dec_cell : ℕ → Text → Result Text
  unfolding has decrypt
  dec_cell i v = if has i enc_cols then decrypt m key v else ok v

  abbrev onto : Result Text → Result (List Text) → Result (List Text)
  onto (err e) rest = err e
  onto (ok v) (err e) = err e
  onto (ok v) (ok vs) = ok (v ∷ vs)

  -- The `map` of `getDec`; the first cell that does not decrypt ends it.
  unfoldable pub dec_row : ℕ → List Text → Result (List Text)
  unfolding dec_cell
  dec_row i [] = ok []
  dec_row i (v ∷ vs) = onto (dec_cell i v) (dec_row (i + 1) vs)

  module _ {S : Type 0} (t : Transport S) where
    -- The row is encrypted before the command is sent; the generator moves on.
    unfoldable pub insert_enc : ℕ → ℕ → List Cell → R → Exec S Number × R
    unfolding enc_row insert
    insert_enc hid tid values r = let (row, r') = enc_row 0 values r in (insert t hid tid row, r')

    unfoldable pub insert_batch_enc : ℕ → ℕ → List (List Cell) → R → Exec S (List Number) × R
    unfolding enc_rows insert_batch
    insert_batch_enc hid tid rows r =
        let (encrypted, r') = enc_rows rows r in (insert_batch t hid tid encrypted, r')

    unfoldable pub get_dec : ℕ → ℕ → ℕ → Exec S (List Text)
    unfolding get dec_row
    get_dec hid tid row_id = do row ← get t hid tid row_id; lift (dec_row 0 row)
