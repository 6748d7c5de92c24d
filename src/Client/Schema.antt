-- ===== src/Client/Schema.antt =====
-- The methods of `CuttleDB` for the connection, tables and handles.
use cuttle_db.Prelude.{
  ℕ, List, [], ◌∷◌, ◌++◌, map, Option, none, some, ◌==◌, if◌then◌else◌, take, drop, ok, err,
  traverse, Text, text,
}
use cuttle_db.Prelude.Outcome.{Result}
use cuttle_db.Client.Exec.{Exec, Transport, pure, lift, ◌>>=◌}
use cuttle_db.Client.Send.{send, words}
use cuttle_db.Number.{Number, parse_int, decimal}
use cuttle_db.Text.{index_of, split, join, text_eq}

-- The own properties of the object that `parseKv` fills: a second value replaces the first, and a
-- string assigned to `__proto__` is dropped.
abbrev pub Properties : Type 0
Properties = List (Text × Text)

unfoldable pub put : Text → Text → Properties → Properties
unfolding text_eq
put k v [] = (k, v) ∷ []
put k v ((j, w) ∷ m) = if text_eq j k then (j, v) ∷ m else (j, w) ∷ put k v m

unfoldable pub assign : Text → Text → Properties → Properties
unfolding put
assign k v m = if text_eq k (text "__proto__") then m else put k v m

-- One round of the loop, by the place of the first `=`.
unfoldable pub kv_token : Text → Properties → Properties
unfolding assign index_of
kv_token tok m = elim (index_of b'=' tok) [
  | none ↦ m
  | some eq ↦ assign (take eq tok) (drop 1 (drop eq tok)) m
]

unfoldable pub kv_loop : List Text → Properties → Properties
unfolding kv_token
kv_loop [] m = m
kv_loop (tok ∷ toks) m = kv_loop toks (kv_token tok m)

-- `parseKv`.
unfoldable pub parse_kv : Text → Properties
unfolding kv_loop split
parse_kv line = kv_loop (split b' ' line) []

-- A column of `create`: what JavaScript sees of the array, and its `JSON.stringify`.
pub data Column : Type 0 where
  two : Text → Text → Column
  three : Text → ℕ → Text → Text → Column
  other : Text → Column

bad_column : Text → Result Text
bad_column json = err (text "bad column spec: " ++ json)

unfoldable pub column_spec : Column → Result Text
unfolding bad_column
column_spec (two name type) = ok (name ++ b':' ∷ type)
column_spec (three name type dim json) =
    if type == 3 then ok (name ++ (text ":3:" ++ dim)) else bad_column json
column_spec (other json) = bad_column json

module _ {S : Type 0} (t : Transport S) where
  unfoldable pub ping : Exec S Text
  unfolding send
  ping = send t (text "PING")

  unfoldable pub hello : Exec S Text
  unfolding send
  hello = send t (text "HELLO")

  unfoldable pub info : Exec S Properties
  unfolding send parse_kv
  info = do body ← send t (text "INFO"); pure (parse_kv body)

  -- The arguments that are given: none, the handle, or the handle and the table.
  unfoldable pub stats : Option ℕ → Option ℕ → Exec S Properties
  unfolding send words parse_kv
  stats none tid = do body ← send t (text "STATS"); pure (parse_kv body)
  stats (some hid) none = do
    body ← send t (words (text "STATS" ∷ decimal hid ∷ []))
    pure (parse_kv body)
  stats (some hid) (some tid) = do
    body ← send t (words (text "STATS" ∷ decimal hid ∷ decimal tid ∷ []))
    pure (parse_kv body)

  unfoldable pub open_handle : Exec S Number
  unfolding send
  open_handle = do body ← send t (text "OPEN"); pure (parse_int body)

  unfoldable pub close_handle : ℕ → Exec S (Unit {0})
  unfolding send words
  close_handle hid = do body ← send t (words (text "CLOSE" ∷ decimal hid ∷ [])); pure tt

  -- A bad column throws before anything is sent.
  unfoldable pub create : ℕ → Text → List Column → Exec S Number
  unfolding send words column_spec traverse join
  create hid name columns = do
    specs ← lift (traverse column_spec columns)
    body ← send t (words (text "CREATE" ∷ decimal hid ∷ name ∷ join (b',' ∷ []) specs ∷ []))
    pure (parse_int body)

  -- `type === 3` takes the dimension, 0 if the caller gave none.
  unfoldable pub alter_add : ℕ → ℕ → Text → ℕ → Text → Exec S Number
  unfolding send words
  alter_add hid tid name type dim = do
    let spec = if type == 3 then name ++ (text ":3:" ++ dim) else name ++ b':' ∷ decimal type
    body ← send t (words (text "ALTER" ∷ decimal hid ∷ decimal tid ∷ text "ADD" ∷ spec ∷ []))
    pure (parse_int body)

  unfoldable pub index : ℕ → ℕ → ℕ → List ℕ → Exec S Number
  unfolding send words
  index hid tid col more_cols = do
    let cols = words (map decimal (col ∷ more_cols))
    body ← send t (words (text "INDEX" ∷ decimal hid ∷ decimal tid ∷ cols ∷ []))
    pure (parse_int body)
