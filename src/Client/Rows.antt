-- ===== src/Client/Rows.antt =====
-- The methods of `CuttleDB` that write and read rows.
use cuttle_db.Prelude.{ℕ, Bool, false, List, [], ◌∷◌, ◌++◌, map, ◌==◌, Text, text}
use cuttle_db.Client.Exec.{Exec, Transport, pure, lift, ◌>>=◌}
use cuttle_db.Client.Send.{send, send_batch, words}
use cuttle_db.Number.{Number, int, parse_int, decimal}
use cuttle_db.Wire.Escape.{Cell, encode_value, encode_row}
use cuttle_db.Wire.Row.{split_wire_row}
use cuttle_db.Wire.Rowlist.{parse_rowlist}

unfoldable pub insert_command : ℕ → ℕ → List Cell → Text
unfolding words encode_row
insert_command hid tid values =
    words (text "INSERT" ∷ decimal hid ∷ decimal tid ∷ encode_row values ∷ [])

unfoldable pub update_row_str_command : ℕ → ℕ → ℕ → ℕ → Cell → Text
unfolding words encode_value
update_row_str_command hid tid row_id col new_val =
    words (text "UPDRS" ∷ map decimal (hid ∷ tid ∷ row_id ∷ col ∷ []) ++ encode_value new_val ∷ [])

unfoldable pub update_where_str_command : ℕ → ℕ → ℕ → Cell → ℕ → Text → Text → Text
unfolding words encode_value
update_where_str_command hid tid set_col set_val pred_col op threshold = words (
    text "UPDATES" ∷ map decimal (hid ∷ tid ∷ set_col ∷ pred_col ∷ [])
    ++ op ∷ threshold ∷ encode_value set_val ∷ [])

-- `=== 1`.
unfoldable pub is_one : Number → Bool
is_one (int false n) = n == 1
is_one _ = false

module _ {S : Type 0} (t : Transport S) where
  unfoldable pub insert : ℕ → ℕ → List Cell → Exec S Number
  unfolding send insert_command
  insert hid tid values = do body ← send t (insert_command hid tid values); pure (parse_int body)

  unfoldable pub insert_batch : ℕ → ℕ → List (List Cell) → Exec S (List Number)
  unfolding send_batch insert_command
  insert_batch hid tid rows = do
    bodies ← send_batch t (map (insert_command hid tid) rows)
    pure (map parse_int bodies)

  unfoldable pub delete : ℕ → ℕ → ℕ → Exec S Bool
  unfolding send words is_one
  delete hid tid row_id = do
    body ← send t (words (text "DELETE" ∷ decimal hid ∷ decimal tid ∷ decimal row_id ∷ []))
    pure (is_one (parse_int body))

  -- Values, operators and thresholds come as the strings that `String` gives for them.
  unfoldable pub update_where : ℕ → ℕ → ℕ → Text → ℕ → Text → Text → Exec S Number
  unfolding send words
  update_where hid tid set_col set_val pred_col op threshold = do
    body ← send t (
        words (
          text "UPDATE"
          ∷ decimal hid
          ∷ decimal tid
          ∷ decimal set_col
          ∷ set_val
          ∷ decimal pred_col
          ∷ op
          ∷ threshold
          ∷ []))
    pure (parse_int body)

  unfoldable pub update_row_str : ℕ → ℕ → ℕ → ℕ → Cell → Exec S Number
  unfolding send update_row_str_command
  update_row_str hid tid row_id col new_val = do
    body ← send t (update_row_str_command hid tid row_id col new_val)
    pure (parse_int body)

  unfoldable pub update_where_str : ℕ → ℕ → ℕ → Cell → ℕ → Text → Text → Exec S Number
  unfolding send update_where_str_command
  update_where_str hid tid set_col set_val pred_col op threshold = do
    body ← send t (update_where_str_command hid tid set_col set_val pred_col op threshold)
    pure (parse_int body)

  unfoldable pub delete_where : ℕ → ℕ → ℕ → Text → Text → Exec S Number
  unfolding send words
  delete_where hid tid pred_col op threshold = do
    body ←
        send t
          (words (text "DELW" ∷ decimal hid ∷ decimal tid ∷ decimal pred_col ∷ op ∷ threshold ∷ []))
    pure (parse_int body)

  unfoldable pub get : ℕ → ℕ → ℕ → Exec S (List Text)
  unfolding send words split_wire_row
  get hid tid row_id = do
    body ← send t (words (text "GET" ∷ decimal hid ∷ decimal tid ∷ decimal row_id ∷ []))
    pure (split_wire_row body)

  unfoldable pub count : ℕ → ℕ → Exec S Number
  unfolding send words
  count hid tid = do
    body ← send t (words (text "COUNT" ∷ decimal hid ∷ decimal tid ∷ []))
    pure (parse_int body)

  unfoldable pub fcount_gt : ℕ → ℕ → ℕ → Text → Exec S Number
  unfolding send words
  fcount_gt hid tid col threshold = do
    body ← send t (words (text "FCOUNT" ∷ decimal hid ∷ decimal tid ∷ decimal col ∷ threshold ∷ []))
    pure (parse_int body)

  unfoldable pub select_gt : ℕ → ℕ → ℕ → Text → Exec S (List (List Text))
  unfolding send words parse_rowlist
  select_gt hid tid col threshold = do
    body ← send t (words (text "SELGT" ∷ decimal hid ∷ decimal tid ∷ decimal col ∷ threshold ∷ []))
    lift (parse_rowlist body)
