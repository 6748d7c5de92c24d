-- ===== src/Wire/Results.antt =====
-- The readers of adapters/cuttledb.js for lists of row ids, joined pairs, scored rows and logged
-- events: the bodies of `find`, `findc` and `join`, `parseKnn` and `parseLog`.
pub mod Contract
pub mod Items
pub mod Log
pub mod RoundTrip
use cuttle_db.Prelude.{
  ℕ, ◌+◌, List, [], ◌∷◌, ◌++◌, map, Option, none, some, Result, ok, err, ◌>>=◌, take, drop,
  get_elem?, Text, text,
}
use cuttle_db.Number.{Number, parse_int, part_number}
use cuttle_db.Text.{index_of, drop_last, split}
use cuttle_db.Wire.Body.{bracketed}

-- `if (!inner) return []`, and else `inner.split(";")`.
unfoldable pub items : Text → List Text
unfolding split
items [] = []
items (c ∷ s) = split b';' (c ∷ s)

-- The body of `find` and `findc`, which name themselves in the error.
unfoldable pub parse_ids : Text → Text → Result (List Number)
unfolding bracketed items
parse_ids what body = do inner ← bracketed what body; ok (map parse_int (items inner))

unfoldable pub parse_pair : Text → Number × Number
unfolding split part_number
parse_pair tok =
    let parts = split b',' tok in (part_number (get_elem? parts 0), part_number (get_elem? parts 1))

-- The body of `join`.
unfoldable pub parse_join : Text → Result (List (Number × Number))
unfolding bracketed items parse_pair
parse_join body = do inner ← bracketed (text "join result") body; ok (map parse_pair (items inner))

-- A row with its score, a floating-point number.
pub record Scored (F : Type 0) : Type 0 where
  pub row_id : Number
  pub score : F

-- A parameter reads a floating-point number, `parseFloat`; the part may be undefined.
module _ {F : Type 0} (parse_float : Option Text → F) where
  unfoldable pub parse_scored : Text → Scored F
  unfolding split part_number
  parse_scored tok =
      let parts = split b':' tok in
      record { row_id = part_number (get_elem? parts 0); score = parse_float (get_elem? parts 1) }

  unfoldable pub parse_knn : Text → Result (List (Scored F))
  unfolding bracketed items parse_scored
  parse_knn body = do
    inner ← bracketed (text "knn result") body
    ok (map parse_scored (items inner))

pub record Logged : Type 0 where
  pub ts_ms : Number
  pub row_id : Number
  pub op : Option Text

pub record Page : Type 0 where
  pub cursor : Number
  pub events : List Logged

unfoldable pub parse_logged : Text → Logged
unfolding split part_number
parse_logged tok =
    let parts = split b':' tok in
    record {
      ts_ms = part_number (get_elem? parts 0);
      row_id = part_number (get_elem? parts 1);
      op = get_elem? parts 2;
    }

-- `body.slice(0, sp)` and `body.slice(sp + 1)`, where `sp` may be -1.
unfoldable pub slices : Option ℕ → Text → Text × Text
unfolding drop_last
slices none body = (drop_last body, body)
slices (some sp) body = (take sp body, drop (sp + 1) body)

-- The error shows the whole body, also what stands before the list.
unfoldable pub page_of : Text → Number → Result Text → Result Page
unfolding items parse_logged
page_of body cursor (ok inner) =
    ok (record { cursor = cursor; events = map parse_logged (items inner) })
page_of body cursor (err e) = err (text "bad log result: " ++ body)

unfoldable pub parse_log : Text → Result Page
unfolding index_of slices bracketed page_of
parse_log body =
    let (before, rest) = slices (index_of b' ' body) body in
    page_of body (parse_int before) (bracketed (text "log result") rest)
