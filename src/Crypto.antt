-- ===== src/Crypto.antt =====
-- `FieldCipher` and `encRow` of adapters/cuttledb.js. Bytes are numbers; what node:crypto and Buffer
-- do is a parameter, with a state for the random generator.
pub mod Rows
pub mod RoundTrip
pub mod Carried
use cuttle_db.Prelude.{
  ℕ, ◌+◌, ◌-◌, Bool, true, false, List, [], ◌∷◌, ◌++◌, ◌==◌, ltb, if◌then◌else◌, length, take, drop,
  ok, err, Text, text,
}
use cuttle_db.Prelude.Outcome.{Result}
use cuttle_db.Number.{decimal}
use cuttle_db.Text.{starts_with}

abbrev pub Bytes : Type 0
Bytes = List ℕ

-- What the SDK calls: `randomBytes`, the AES-256-GCM cipher with its authentication tag, its inverse,
-- which throws on a tag that does not fit, and the encodings of Buffer.
pub record Crypto (R : Type 0) : Type 0 where
  pub random_bytes : ℕ → R → Bytes × R
  -- Key, nonce and plaintext give the ciphertext and its tag.
  pub seal : Bytes → Bytes → Bytes → Bytes × Bytes
  -- Key, nonce, tag and ciphertext.
  pub unseal : Bytes → Bytes → Bytes → Bytes → Result Bytes
  pub utf8 : Text → Bytes
  pub from_utf8 : Bytes → Text
  pub base64 : Bytes → Text
  pub from_base64 : Text → Bytes

abbrev pub enc_prefix : Text
enc_prefix = text "enc:v1:"

-- The constructor, on a key that is a byte array.
unfoldable pub new_cipher : Bytes → Result Bytes
unfolding decimal
new_cipher key =
    if length key == 32
    then ok key
    else err (text "key must be 32 bytes for AES-256, got " ++ decimal (length key))

-- `generateKey`.
unfoldable pub generate_key : {R : Type 0} → Crypto R → R → Bytes × R
generate_key m r = m.random_bytes 32 r

-- `isEncrypted` on a string.
unfoldable pub is_encrypted : Text → Bool
unfolding starts_with
is_encrypted token = starts_with enc_prefix token

module _ {R : Type 0} (m : Crypto R) (key : Bytes) where
  -- The argument is `String(plaintext)`.
  unfoldable pub encrypt : Text → R → Text × R
  encrypt plaintext r =
      let (iv, r') = m.random_bytes 12 r in
      let (ct, tag) = m.seal key iv (m.utf8 plaintext) in
      (enc_prefix ++ m.base64 (iv ++ (ct ++ tag)), r')

  abbrev decode : Result Bytes → Result Text
  decode (ok plaintext) = ok (m.from_utf8 plaintext)
  decode (err e) = err e

  -- The three parts of a token: nonce, ciphertext, and tag.
  unfoldable pub decrypt_raw : Bytes → Result Text
  decrypt_raw raw =
      let iv = take 12 raw in
      let tag = drop (length raw - 16) raw in
      let ct = drop 12 (take (length raw - 16) raw) in
      if ltb (length raw) (12 + 16)
      then err (text "ciphertext token too short")
      else decode (m.unseal key iv tag ct)

  unfoldable pub decrypt : Text → Result Text
  unfolding is_encrypted decrypt_raw
  decrypt token =
      if is_encrypted token
      then decrypt_raw (m.from_base64 (drop (length enc_prefix) token))
      else ok token
