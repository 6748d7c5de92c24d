-- ===== src/Crypto/RoundTrip.antt =====
-- What is encrypted is decrypted again, cell by cell and through the server.
use mathlib.Core.List.{cons-ne-nil}
use cuttle_db.Prelude.{
  ℕ, true, ◌+◌, ◌-◌, false, inl, inr, List, [], ◌∷◌, ◌++◌, append_assoc, map, ◌≡◌, ◌≢◌, ◌<◌,
  All-append, refl, sym, ap, ◌∙◌, arith, Bool-cases, if◌then◌else◌, ltb, length, length-append,
  take, drop, take-append, drop-append, All, ok, Text,
}
use cuttle_db.Client.Exec.{Transport}
use cuttle_db.Client.RoundTrip.{Table, get-insert, new_row, behind}
use cuttle_db.Crypto.{Bytes, Crypto, enc_prefix, is_encrypted, encrypt, decrypt_raw, decrypt}
use cuttle_db.Crypto.Rows.{
  has, string_of, enc_cell, enc_row, dec_cell, dec_row, insert_enc, get_dec,
}
use cuttle_db.Number.{int}
use cuttle_db.Wire.Escape.{Cell, scalar, encode_row}
use cuttle_db.Wire.Row.RoundTrip.{IsClean, shown}

abbrev pub AreBytes : Bytes → Type 0
AreBytes b = All (λ (c : ℕ). c < 256) b

abbrev pub IsKey : Bytes → Type 0
IsKey key = (length key ≡ 32) × AreBytes key

abbrev pub IsNonce : Bytes → Type 0
IsNonce iv = (length iv ≡ 12) × AreBytes iv

-- What node:crypto and Buffer document: as many random bytes as are asked for; for a key of 32 bytes
-- and a nonce of 12, a ciphertext and a tag of 16 bytes, which the inverse of the cipher opens under
-- the same key and nonce; UTF-8 in bytes; and the inverse of base64 on bytes.
pub record IsCrypto {R : Type 0} (m : Crypto R) : Type 0 where
  pub nonce : (n : ℕ) (r : R) → length (m.random_bytes n r).0 ≡ n
  pub random : (n : ℕ) (r : R) → AreBytes (m.random_bytes n r).0
  pub seals :
      (key iv p : Bytes)
      → IsKey key
      → IsNonce iv
      → AreBytes p
      → (length (m.seal key iv p).1 ≡ 16)
        × AreBytes (m.seal key iv p).0
        × AreBytes (m.seal key iv p).1
        × (m.unseal key iv (m.seal key iv p).1 (m.seal key iv p).0 ≡ ok p)
  pub encodes : (s : Text) → AreBytes (m.utf8 s)
  pub bytes : (b : Bytes) → AreBytes b → m.from_base64 (m.base64 b) ≡ b

take_exact : (n : ℕ) (p s : Bytes) → length p ≡ n → take n (p ++ s) ≡ p
take_exact n p s e = ap (λ (k : ℕ). take k (p ++ s)) (sym e) ∙ take-append p s

drop_exact : (n : ℕ) (p s : Bytes) → length p ≡ n → drop n (p ++ s) ≡ s
drop_exact n p s e = ap (λ (k : ℕ). drop k (p ++ s)) (sym e) ∙ drop-append p s

module _ {R : Type 0} (m : Crypto R) (h : IsCrypto m) (key : Bytes) (is_key : IsKey key) where
  decrypt_raw-parts :
      (iv ct tag p : Bytes)
      → length iv ≡ 12
      → length tag ≡ 16
      → m.unseal key iv tag ct ≡ ok p
      → decrypt_raw m key (iv ++ (ct ++ tag)) ≡ ok (m.from_utf8 p)
  unfolding decrypt_raw
  decrypt_raw-parts iv ct tag p n k opened =
      let raw = iv ++ (ct ++ tag) in
      let z : raw ≡ (iv ++ ct) ++ tag = sym (append_assoc iv ct tag) in
      let size : length (iv ++ ct) ≡ length raw - 16 =
        omega (arith, k, ap length z, length-append (iv ++ ct) tag) in
      let front : take (length raw - 16) raw ≡ iv ++ ct =
        ap (take (length raw - 16)) z ∙ take_exact (length raw - 16) (iv ++ ct) tag size in
      let back : drop (length raw - 16) raw ≡ tag =
        ap (drop (length raw - 16)) z ∙ drop_exact (length raw - 16) (iv ++ ct) tag size in
      let long : ltb (length raw) (12 + 16) ≡ false =
        ground (arith, n, k, length-append iv (ct ++ tag), length-append ct tag) in
      rw (long, front, back, take_exact 12 iv (ct ++ tag) n, drop_exact 12 iv ct n, opened)

  decrypt_token : (b : Text) → decrypt m key (enc_prefix ++ b) ≡ decrypt_raw m key (m.from_base64 b)
  unfolding decrypt is_encrypted
  decrypt_token b = refl

  -- `decrypt` of what `encrypt` made is the string, if its UTF-8 is read back as it.
  pub decrypt-encrypt :
      (s : Text) (r : R) → m.from_utf8 (m.utf8 s) ≡ s → decrypt m key (encrypt m key s r).0 ≡ ok s
  unfolding encrypt
  decrypt-encrypt s r e =
      let (iv, r') = m.random_bytes 12 r in
      let (ct, tag) = m.seal key iv (m.utf8 s) in
      let (size, ct_bytes, tag_bytes, opens) =
        h.seals key iv (m.utf8 s) is_key (h.nonce 12 r, h.random 12 r) (h.encodes s) in
      decrypt_token (m.base64 (iv ++ (ct ++ tag)))
      ∙ ap (decrypt_raw m key) (
          h.bytes (iv ++ (ct ++ tag))
            (All-append _ iv _ (h.random 12 r) (All-append _ ct _ ct_bytes tag_bytes)))
      ∙ decrypt_raw-parts iv ct tag (m.utf8 s) (h.nonce 12 r) size opens
      ∙ ap ok e

  -- A cell that is encrypted can be read back as its UTF-8.
  abbrev pub Encodable : Cell → Type 0
  Encodable v = m.from_utf8 (m.utf8 (string_of v)) ≡ string_of v

  module _ (enc_cols : List ℕ) where
    -- What the row with the cells from index `i` on is read back as: an encrypted vector has
    -- commas between its elements, another has bars.
    unfoldable pub plain : ℕ → List Cell → List Text
    unfolding has string_of
    plain i [] = []
    plain i (v ∷ vs) = (if has i enc_cols then string_of v else shown v) ∷ plain (i + 1) vs

    dec_cell-enc_cell :
        (i : ℕ) (v : Cell) (r : R)
        → Encodable v
        → dec_cell m key enc_cols i (shown (enc_cell m key enc_cols i v r).0)
          ≡ ok (if has i enc_cols then string_of v else shown v)
    unfolding dec_cell enc_cell
    dec_cell-enc_cell i v r e = elim (Bool-cases (has i enc_cols)) [
      | inl hidden ↦ rw hidden (decrypt-encrypt (string_of v) r e)
      | inr clear ↦ rw clear
    ]

    -- The cells that are encrypted in a row are decrypted again, and the others are left alone.
    pub dec_row-enc_row :
        (i : ℕ) (vs : List Cell) (r : R)
        → All Encodable vs
        → dec_row m key enc_cols i (map shown (enc_row m key enc_cols i vs r).0) ≡ ok (plain i vs)
    unfolding dec_row enc_row plain
    dec_row-enc_row i [] r e = refl
    dec_row-enc_row i (v ∷ vs) r e = rw (
      dec_cell-enc_cell i v r e.0,
      dec_row-enc_row (i + 1) vs (enc_cell m key enc_cols i v r).1 e.1,
    )

    -- What strings have, and the cells of a row, the encrypted row has.
    pub enc_row-All :
        (P : Cell → Type 0)
        → ((token : Text) → P (scalar token))
        → (i : ℕ) (vs : List Cell) (r : R) → All P vs
        → All P (enc_row m key enc_cols i vs r).0
    unfolding enc_row enc_cell
    enc_row-All P one i [] r c = tt
    enc_row-All P one i (v ∷ vs) r c = elim (Bool-cases (has i enc_cols)) [
      | inl hidden ↦
          rw hidden (one _, enc_row-All P one (i + 1) vs (encrypt m key (string_of v) r).1 c.1)
      | inr clear ↦ rw clear (c.0, enc_row-All P one (i + 1) vs r c.1)
    ]

    pub enc_row-ne-nil :
        (i : ℕ) (vs : List Cell) (r : R) → vs ≢ [] → (enc_row m key enc_cols i vs r).0 ≢ []
    unfolding enc_row
    enc_row-ne-nil i [] r ne = absurd (ne refl)
    enc_row-ne-nil i (v ∷ vs) r ne = λ e. cons-ne-nil _ _ e

    -- Over a server that accepts the row and keeps to the escape contract, `insertEnc` of at least one
    -- cell and then `getDec` of the row whose number it returned, with the same key and columns, give
    -- the cells back.
    pub get_dec-insert_enc :
        {S : Type 0} (t : Transport S) (hid tid : ℕ) (v : Table t hid tid) (values : List Cell)
        (s : S) (r : R)
        → v.accepts (encode_row (enc_row m key enc_cols 0 values r).0) s ≡ true
        → values ≢ []
        → All IsClean values
        → All Encodable values
        → ((insert_enc m key enc_cols t hid tid values r).0 s ≡ (
          ok (int false (new_row t hid tid v (enc_row m key enc_cols 0 values r).0 s)),
          behind t hid tid v (enc_row m key enc_cols 0 values r).0 s,
        ))
          × (get_dec m key enc_cols t hid tid
                (new_row t hid tid v (enc_row m key enc_cols 0 values r).0 s)
                (behind t hid tid v (enc_row m key enc_cols 0 values r).0 s)
              ≡ (ok (plain 0 values), behind t hid tid v (enc_row m key enc_cols 0 values r).0 s))
    unfolding insert_enc get_dec
    get_dec-insert_enc t hid tid v values s r a ne clean encodable =
        let row = (enc_row m key enc_cols 0 values r).0 in
        let (inserted, got) =
          get-insert t hid tid v row s a (enc_row-ne-nil 0 values r ne)
            (enc_row-All IsClean (λ token. tt) 0 values r clean) in
        (inserted, rw (got, dec_row-enc_row 0 values r encodable))
