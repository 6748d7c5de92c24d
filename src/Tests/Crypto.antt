-- ===== src/Tests/Crypto.antt =====
-- Encrypted cells over a toy cipher, which leaves the plaintext as it is and tags it by its length.
use cuttle_db.Prelude.{
  ℕ, zero, suc, false, List, [], ◌∷◌, ◌≡◌, refl, arith, ok, err, length, map, ◌%◌, Text, text,
}
use cuttle_db.Client.RoundTrip.{new_row, behind}
use cuttle_db.Crypto.{Bytes, Crypto, new_cipher, encrypt, decrypt}
use cuttle_db.Crypto.RoundTrip.{
  AreBytes, IsCrypto, IsKey, decrypt-encrypt, plain, get_dec-insert_enc,
}
use cuttle_db.Crypto.Rows.{enc_row, insert_enc, get_dec}
use cuttle_db.Crypto.Carried.{get_dec-insert_enc_over}
use cuttle_db.Link.{direct}
use cuttle_db.Link.Tcp
use cuttle_db.Link.Tcp.{tcp_link}
use cuttle_db.Link.Tcp.Refines.{tcp_link-Carries}
use cuttle_db.Tests.Servers.{
  row_server, row_server-IsServer, halting, row_table, open_tcp, open_tcp-Ready,
}
use cuttle_db.Number.{int}
use cuttle_db.Tests.Client.{one_row, one_row_table}
use cuttle_db.Transport.Router.{replicate}
use cuttle_db.Wire.Escape.{Cell, scalar, encode_row}
use cuttle_db.Wire.Row.{split_wire_row}

abbrev key : Bytes
key = replicate 32 7

-- The state of the generator is the next byte.
abbrev toy : Crypto ℕ
toy = record {
  random_bytes = λ n r. (replicate n (r % 256), suc r);
  seal = λ key iv p. (p, replicate 16 (length p % 256));
  unseal = λ key iv tag ct. ok ct;
  utf8 = λ s. map (λ c. c % 256) s;
  from_utf8 = λ b. b;
  base64 = λ b. b;
  from_base64 = λ s. s;
}

length-replicate : (n r : ℕ) → length (replicate n r) ≡ n
length-replicate zero r = refl
length-replicate (suc n) r = omega (arith, length-replicate n r)

AreBytes-replicate : (n r : ℕ) → AreBytes (replicate n (r % 256))
AreBytes-replicate zero r = tt
AreBytes-replicate (suc n) r = (omega arith, AreBytes-replicate n r)

AreBytes-map : (s : Text) → AreBytes (map (λ c. c % 256) s)
AreBytes-map [] = tt
AreBytes-map (c ∷ s) = (omega arith, AreBytes-map s)

toy-IsCrypto : IsCrypto toy
toy-IsCrypto = record {
  nonce = λ n r. length-replicate n (r % 256);
  random = AreBytes-replicate;
  seals = λ key iv p is_key is_nonce b. (refl, b, AreBytes-replicate 16 (length p), refl);
  encodes = AreBytes-map;
  bytes = λ b is_bytes. refl;
}

key-IsKey : IsKey key
key-IsKey = (refl, AreBytes-replicate 32 7)

cipher_runs :
    (new_cipher key ≡ ok key)
    × (new_cipher (1 ∷ []) ≡ err (text "key must be 32 bytes for AES-256, got 1"))
    × (decrypt toy key (text "plain") ≡ ok (text "plain"))
    × (decrypt toy key (text "enc:v1:short") ≡ err (text "ciphertext token too short"))
unfolding new_cipher decrypt
cipher_runs = (refl, refl, refl, refl)

secret_read_back : decrypt toy key (encrypt toy key (text "secret") 9).0 ≡ ok (text "secret")
secret_read_back = decrypt-encrypt toy toy-IsCrypto key key-IsKey (text "secret") 9 refl

-- The second cell is encrypted.
abbrev values : List Cell
values = scalar (text "x,y\n") ∷ scalar (text "secret") ∷ []

abbrev columns : List ℕ
columns = 1 ∷ []

abbrev stored : List Cell
stored = (enc_row toy key columns 0 values 9).0

secret_row_comes_back :
    ((insert_enc toy key columns one_row 0 0 values 9).0 [] ≡ (
      ok (int false (new_row one_row 0 0 one_row_table stored [])),
      behind one_row 0 0 one_row_table stored [],
    ))
    × (get_dec toy key columns one_row 0 0
          (new_row one_row 0 0 one_row_table stored [])
          (behind one_row 0 0 one_row_table stored [])
        ≡ (
          ok (plain toy toy-IsCrypto key key-IsKey columns 0 values),
          behind one_row 0 0 one_row_table stored [],
        ))
unfolding split_wire_row encode_row enc_row
secret_row_comes_back =
    get_dec-insert_enc toy toy-IsCrypto key key-IsKey columns one_row 0 0 one_row_table values [] 9
      refl (cc) (tt, (tt, tt)) (refl, (refl, tt))

-- Byte by byte over TCP.
get_dec-insert_enc_over_example :
    let out =
      (insert_enc toy key columns (tcp_link row_server halting) 0 0 values 9).0 (open_tcp, []) in
    (out.0 ≡ ok (int false (new_row (direct row_server) 0 0 row_table stored [])))
    × ((get_dec toy key columns
          (tcp_link row_server halting)
          0
          0
          (new_row (direct row_server) 0 0 row_table stored [])
          out.1).0
        ≡ ok (plain toy toy-IsCrypto key key-IsKey columns 0 values))
unfolding split_wire_row encode_row enc_row row_table
get_dec-insert_enc_over_example =
    get_dec-insert_enc_over toy toy-IsCrypto key key-IsKey columns Tcp.Ready
      (tcp_link row_server halting) (direct row_server)
      (tcp_link-Carries row_server row_server-IsServer halting) 0 0 row_table values open_tcp [] 9
      open_tcp-Ready refl (cc) (tt, (tt, tt)) (tt, (tt, tt)) (refl, (refl, tt))
