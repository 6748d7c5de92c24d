-- ===== src/Search/Form.antt =====
-- `URLSearchParams.toString`, which writes the query of adapters/search.js. The encoding of strings
-- by UTF-8 is a parameter.
use cuttle_db.Prelude.{
  ℕ, ◌+◌, ◌-◌, ◌/◌, ◌%◌, Bool, ◌&&◌, ◌||◌, List, [], ◌∷◌, ◌++◌, map, ◌==◌, ltb, leb, if◌then◌else◌,
  Text,
}
use mathlib.Core.List.{flat_map}
use cuttle_db.Text.{join}

abbrev between : ℕ → ℕ → ℕ → Bool
between a b c = leb a c && leb c b

-- A byte that stands for itself.
unfoldable pub is_plain : ℕ → Bool
is_plain c =
    between b'0' b'9' c
    || between b'A' b'Z' c
    || between b'a' b'z' c
    || c == b'*'
    || c == b'-'
    || c == b'.'
    || c == b'_'

abbrev pub hex_digit : ℕ → ℕ
hex_digit n = if ltb n 10 then b'0' + n else b'A' + (n - 10)

unfoldable pub encode_byte : ℕ → Text
unfolding is_plain
encode_byte b =
    if b == b' '
    then b'+' ∷ []
    else if is_plain b
    then b ∷ []
    else b'%' ∷ hex_digit (b / 16) ∷ hex_digit (b % 16) ∷ []

unfoldable pub encode_bytes : List ℕ → Text
unfolding encode_byte flat_map
encode_bytes = flat_map encode_byte

module _ (utf8 : Text → List ℕ) where
  unfoldable pub encode_pair : Text × Text → Text
  unfolding encode_bytes
  encode_pair (name, value) = encode_bytes (utf8 name) ++ b'=' ∷ encode_bytes (utf8 value)

  unfoldable pub encode_form : List (Text × Text) → Text
  unfolding encode_pair join
  encode_form pairs = join (b'&' ∷ []) (map encode_pair pairs)
