-- ===== src/Client/Queries.antt =====
-- The methods of `CuttleDB` that look rows up, search, and aggregate; persistence, subscriptions and
-- the change feed. Values, vector elements and scores come as the strings that are sent for them.
use cuttle_db.Prelude.{
  ℕ, List, [], ◌∷◌, ◌++◌, map, Option, none, some, ◌==◌, if◌then◌else◌, length, Result, ok, err,
  Text, text,
}
use cuttle_db.Client.Exec.{Exec, Transport, pure, lift, ◌>>=◌}
use cuttle_db.Client.Send.{send, words}
use cuttle_db.Number.{Number, parse_int, decimal}
use cuttle_db.Text.{join}
use cuttle_db.Wire.Results.{parse_ids, parse_join, Scored, parse_knn, Page, parse_log}

-- `Op.EQ`.
abbrev pub op_eq : ℕ
op_eq = 2

unfoldable pub find_command : ℕ → ℕ → ℕ → Text → Text
unfolding words
find_command hid tid col value =
    words (text "FIND" ∷ decimal hid ∷ decimal tid ∷ decimal col ∷ value ∷ [])

-- The values of a composite lookup are joined with the unit separator.
unfoldable pub findc_command : ℕ → ℕ → List ℕ → List Text → Text
unfolding words join
findc_command hid tid cols values = words (
    text "FINDC"
    ∷ decimal hid
    ∷ decimal tid
    ∷ decimal (length cols)
    ∷ words (map decimal cols)
    ∷ join (0x1f ∷ []) values
    ∷ [])

-- `unknown` is a string that is no key of the map of kinds, and none that objects inherit.
pub data How : Type 0 where
  inner : How
  left : How
  right : How
  full : How
  unknown : Text → How

unfoldable pub how_number : How → Result ℕ
how_number inner = ok 0
how_number left = ok 1
how_number right = ok 2
how_number full = ok 3
how_number (unknown how) =
    err (text "unknown how " ++ (how ++ text "; expected one of inner,left,right,full"))

unfoldable pub type_clause : ℕ → Text
type_clause n = if n == 0 then [] else text " TYPE " ++ decimal n

unfoldable pub op_clause : ℕ → Text
op_clause op = if op == op_eq then [] else text " OP " ++ decimal op

unfoldable pub join_command : List ℕ → ℕ → ℕ → Text
unfolding words type_clause op_clause
join_command columns how op =
    words (text "JOIN" ∷ map decimal columns) ++ (type_clause how ++ op_clause op)

-- `if (where)`: no clause, or an empty one, adds nothing.
unfoldable pub where_clause : Option Text → Text
where_clause none = []
where_clause (some []) = []
where_clause (some (c ∷ s)) = text " WHERE " ++ c ∷ s

module _ {S : Type 0} (t : Transport S) where
  unfoldable pub find : ℕ → ℕ → ℕ → Text → Exec S (List Number)
  unfolding send find_command parse_ids
  find hid tid col value = do
    body ← send t (find_command hid tid col value)
    lift (parse_ids (text "find result") body)

  -- Columns and values of different lengths throw before anything is sent.
  unfoldable pub findc : ℕ → ℕ → List ℕ → List Text → Exec S (List Number)
  unfolding send findc_command parse_ids
  findc hid tid cols values s =
      let found =
        (do
          body ← send t (findc_command hid tid cols values)
          lift (parse_ids (text "findc result") body))
          s in
      if length cols == length values
      then found
      else (err (text "findc: cols and values length mismatch"), s)

  -- The columns are `lHid`, `lTid`, `lCol`, `rHid`, `rTid` and `rCol`.
  unfoldable pub join_on : ℕ → ℕ → ℕ → ℕ → ℕ → ℕ → How → ℕ → Exec S (List (Number × Number))
  unfolding send how_number join_command parse_join
  join_on l_hid l_tid l_col r_hid r_tid r_col how op = do
    n ← lift (how_number how)
    body ← send t (join_command (l_hid ∷ l_tid ∷ l_col ∷ r_hid ∷ r_tid ∷ r_col ∷ []) n op)
    lift (parse_join body)

  unfoldable pub save : ℕ → Text → Exec S Text
  unfolding send words
  save hid path = send t (words (text "SAVE" ∷ decimal hid ∷ path ∷ []))

  unfoldable pub load : Text → Exec S Number
  unfolding send words
  load path = do body ← send t (words (text "LOAD" ∷ path ∷ [])); pure (parse_int body)

  unfoldable pub sub : ℕ → ℕ → Exec S Text
  unfolding send words
  sub hid tid = send t (words (text "SUB" ∷ decimal hid ∷ decimal tid ∷ []))

  unfoldable pub unsub : ℕ → ℕ → Exec S Text
  unfolding send words
  unsub hid tid = send t (words (text "UNSUB" ∷ decimal hid ∷ decimal tid ∷ []))

  unfoldable pub log : ℕ → ℕ → ℕ → Exec S Page
  unfolding send words parse_log
  log hid tid since = do
    body ← send t (words (text "LOG" ∷ decimal hid ∷ decimal tid ∷ decimal since ∷ []))
    lift (parse_log body)

-- The parameters are `Number` on strings and `parseFloat`, into the floating-point numbers.
module _ {S F : Type 0} (number : Text → F) (parse_float : Option Text → F) (t : Transport S) where
  unfoldable pub sum : ℕ → ℕ → ℕ → Exec S F
  unfolding send words
  sum hid tid col = do
    body ← send t (words (text "SUM" ∷ decimal hid ∷ decimal tid ∷ decimal col ∷ []))
    pure (number body)

  unfoldable pub min : ℕ → ℕ → ℕ → Exec S F
  unfolding send words
  min hid tid col = do
    body ← send t (words (text "MIN" ∷ decimal hid ∷ decimal tid ∷ decimal col ∷ []))
    pure (number body)

  unfoldable pub max : ℕ → ℕ → ℕ → Exec S F
  unfolding send words
  max hid tid col = do
    body ← send t (words (text "MAX" ∷ decimal hid ∷ decimal tid ∷ decimal col ∷ []))
    pure (number body)

  unfoldable pub knn : ℕ → ℕ → ℕ → ℕ → List Text → Option Text → Exec S (List (Scored F))
  unfolding send words join where_clause parse_knn
  knn hid tid col k query filter = do
    let q = join (b'|' ∷ []) query
    body ← send t (
        words (text "KNN" ∷ decimal hid ∷ decimal tid ∷ decimal col ∷ decimal k ∷ q ∷ [])
        ++ where_clause filter)
    lift (parse_knn parse_float body)

  unfoldable pub lsearch : ℕ → ℕ → ℕ → ℕ → Text → Exec S (List (Scored F))
  unfolding send words parse_knn
  lsearch hid tid col k query = do
    body ←
        send t (
          words (text "LSEARCH" ∷ decimal hid ∷ decimal tid ∷ decimal col ∷ decimal k ∷ query ∷ []))
    lift (parse_knn parse_float body)

  unfoldable pub bsearch : ℕ → ℕ → ℕ → Text → Exec S (List (Scored F))
  unfolding send words parse_knn
  bsearch hid tid k expr = do
    body ← send t (words (text "BSEARCH" ∷ decimal hid ∷ decimal tid ∷ decimal k ∷ expr ∷ []))
    lift (parse_knn parse_float body)

  unfoldable pub search :
      ℕ → ℕ → ℕ → ℕ → ℕ → List Text → Text → Option Text → Exec S (List (Scored F))
  unfolding send words join where_clause parse_knn
  search hid tid vec_col text_col k vec query filter = do
    let v = join (b'|' ∷ []) vec
    body ← send t (
        words (
          text "SEARCH"
          ∷ decimal hid
          ∷ decimal tid
          ∷ decimal vec_col
          ∷ decimal text_col
          ∷ decimal k
          ∷ v
          ∷ text "|||"
          ∷ query
          ∷ [])
        ++ where_clause filter)
    lift (parse_knn parse_float body)
