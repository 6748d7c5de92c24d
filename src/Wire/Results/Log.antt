-- ===== src/Wire/Results/Log.antt =====
-- `parseLog` gives back the page of the change feed that the server wrote.
use cuttle_db.Prelude.{
  ℕ, ◌^◌, ◌<◌, false, List, [], ◌∷◌, ◌++◌, map, some, ◌≡◌, ◌≢◌, refl, arith, ok, take-append, All,
  All-append, Lacks, Text, text,
}
use cuttle_db.Number.{int, is_digit, part_number, decimal}
use cuttle_db.Number.RoundTrip.{decimal-Lacks}
use cuttle_db.Text.{join}
use cuttle_db.Text.Laws.{split-append, split-Lacks, index_of-append}
use cuttle_db.Wire.Body.{bracketed_lem}
use cuttle_db.Wire.Results.{Logged, parse_logged, page_of, slices, parse_log}
use cuttle_db.Wire.Results.Contract.{in_brackets, logged}
use cuttle_db.Wire.Results.Items.{
  Item, All-first, items-Reads, parse_int-id, append-ne-nil, drop_past,
}

parse_logged-logged :
    (ts n : ℕ) (op : Text)
    → ts < 2 ^ 53
    → n < 2 ^ 53
    → Lacks b':' op
    → parse_logged (logged (ts, (n, op)))
      ≡ record { ts_ms = int false ts; row_id = int false n; op = some op }
unfolding parse_logged logged is_digit part_number
parse_logged-logged ts n op p q l = rw (
  split-append b':' (decimal ts) (decimal n ++ (b':' ∷ op)) (decimal-Lacks b':' ts refl),
  split-append b':' (decimal n) op (decimal-Lacks b':' n refl),
  split-Lacks b':' op l,
  parse_int-id ts p,
  parse_int-id n q,
)

logged-Item : (ts n : ℕ) (op : Text) → Lacks b';' op → Item (logged (ts, (n, op)))
unfolding logged is_digit
logged-Item ts n op l = (
  append-ne-nil (decimal ts) (decimal n ++ (b':' ∷ op)) b':',
  All-append (λ c. c ≢ b';') (decimal ts) _ (decimal-Lacks b';' ts refl)
      (
        omega arith,
        All-append (λ c. c ≢ b';') (decimal n) _ (decimal-Lacks b';' n refl) (omega arith, l),
      ),
)

-- What the server tells of one event, if it can be read back.
abbrev Plain : ℕ × (ℕ × Text) → Type 0
Plain (ts, (n, op)) = (ts < 2 ^ 53) × (n < 2 ^ 53) × Lacks b':' op × Lacks b';' op

abbrev pub event : ℕ × (ℕ × Text) → Logged
event (ts, (n, op)) = record { ts_ms = int false ts; row_id = int false n; op = some op }

event_reads : (e : ℕ × (ℕ × Text)) → Plain e → Item (logged e) × (parse_logged (logged e) ≡ event e)
event_reads (ts, (n, op)) (p, q, colons, semicolons) =
    (logged-Item ts n op semicolons, parse_logged-logged ts n op p q colons)

-- `log` returns the cursor and the events that the server sent, in its order.
pub parse_log-logged :
    (cursor : ℕ) (events : List (ℕ × (ℕ × Text)))
    → cursor < 2 ^ 53
    → All Plain events
    → parse_log (decimal cursor ++ (b' ' ∷ in_brackets (map logged events)))
      ≡ ok (record { cursor = int false cursor; events = map event events })
unfolding parse_log page_of slices is_digit
parse_log-logged cursor events h plain =
    let list = in_brackets (map logged events) in
    rw (
      index_of-append b' ' (decimal cursor) list (decimal-Lacks b' ' cursor refl),
      take-append (decimal cursor) (b' ' ∷ list),
      drop_past (decimal cursor) list b' ',
      bracketed_lem (text "log result") (join (b';' ∷ []) (map logged events)),
      parse_int-id cursor h,
      items-Reads logged parse_logged event events (All-first event_reads events plain),
    )
