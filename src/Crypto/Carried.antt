-- ===== src/Crypto/Carried.antt =====
-- Encrypted rows over a transport that carries commands.
use cuttle_db.Prelude.{ℕ, true, false, List, [], ◌≡◌, ◌≢◌, All, ok, Lacks}
use cuttle_db.Client.Exec.{Transport}
use cuttle_db.Client.Methods.{get-insert_over}
use cuttle_db.Client.OneLine.{Printable}
use cuttle_db.Client.RoundTrip.{Table, new_row}
use cuttle_db.Client.Simulation.{Carries}
use cuttle_db.Crypto.{Bytes, Crypto}
use cuttle_db.Crypto.RoundTrip.{
  IsCrypto, IsKey, Encodable, plain, dec_row-enc_row, enc_row-All, enc_row-ne-nil,
}
use cuttle_db.Crypto.Rows.{enc_row, insert_enc, get_dec}
use cuttle_db.Number.{int}
use cuttle_db.Wire.Escape.{Cell, encode_row}
use cuttle_db.Wire.Row.RoundTrip.{IsClean}

-- Over a transport that carries commands, as those of the client do: `insertEnc` of at least one
-- cell under a key of 32 bytes returns the number of the new row, and `getDec` of it, with the same
-- key and columns, then gives the cells back, if the connection is ready, the server accepts the row
-- with its encrypted cells and keeps to the escape contract, node:crypto and Buffer to their
-- documentation, the UTF-8 of each cell is read back as it, and no element of a vector holds a comma,
-- a backslash or a line break. An encrypted vector is read back with commas between
-- its elements.
pub get_dec-insert_enc_over :
    {R : Type 0} (m : Crypto R) (k : IsCrypto m) (key : Bytes) (i : IsKey key) (enc_cols : List ℕ)
    {L S : Type 0} (Ready : L → Type 0) (t : Transport (L × S)) (d : Transport S)
    (c : Carries Ready (Lacks b'\n') t d) (hid tid : ℕ) (v : Table d hid tid) (values : List Cell)
    (l : L) (s : S) (r : R)
    → Ready l
    → v.accepts (encode_row (enc_row m key enc_cols 0 values r).0) s ≡ true
    → values ≢ []
    → All IsClean values
    → All Printable values
    → All (Encodable m k key i) values
    → let row = new_row d hid tid v (enc_row m key enc_cols 0 values r).0 s in
      let out = (insert_enc m key enc_cols t hid tid values r).0 (l, s) in
      (out.0 ≡ ok (int false row))
      × ((get_dec m key enc_cols t hid tid row out.1).0 ≡ ok (plain m k key i enc_cols 0 values))
unfolding insert_enc get_dec
get_dec-insert_enc_over m k key i enc_cols Ready t d c hid tid v values l s r y a ne clean p e =
    let row = (enc_row m key enc_cols 0 values r).0 in
    let (inserted, got) =
      get-insert_over Ready t d c hid tid v row l s y a
        (enc_row-ne-nil m k key i enc_cols 0 values r ne)
        (enc_row-All m k key i enc_cols IsClean (λ token. tt) 0 values r clean)
        (enc_row-All m k key i enc_cols Printable (λ token. tt) 0 values r p) in
    (inserted, rw got (dec_row-enc_row m k key i enc_cols 0 values r e))
