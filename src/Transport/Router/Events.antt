-- ===== src/Transport/Router/Events.antt =====
-- Which events a listener hears.
use cuttle_db.Prelude.{
  ℕ, Bool, false, ◌||◌, List, [], ◌∷◌, ◌++◌, ◌≡◌, ◌≢◌, refl, ◌∙◌, ◌==◌, if◌then◌else◌, Bool-cases,
  inl, inr, length, All, none, some, get_elem?, Text,
}
use cuttle_db.Transport.Router.{
  Waiter, single, part, Outcome, failed, Router, Event, parse_event, is_settled, settle, resolve,
  answer_next, is_event, reject_each, promise, add_listener, remove_listener,
}
use cuttle_db.Number.{nan, parse_int, part_number}
use cuttle_db.Text.{split}
use cuttle_db.Transport.Router.Queue.{Action, ask, ask_batch, ask_refused, arrive, break, perform}

-- What happens to a connection, its listeners included.
pub data Happening : Type 0 where
  acts : Action → Happening
  listens : ℕ → Happening
  unlistens : ℕ → Happening

unfoldable pub happen : Happening → Router → Router
unfolding perform add_listener remove_listener
happen (acts a) r = perform a r
happen (listens cb) r = add_listener cb r
happen (unlistens cb) r = remove_listener cb r

unfoldable pub happen_all : List Happening → Router → Router
unfolding happen
happen_all [] r = r
happen_all (h ∷ hs) r = happen_all hs (happen h r)

-- The events that a callback was called with.
unfoldable pub calls_of : ℕ → List (ℕ × Event) → List Event
calls_of cb [] = []
calls_of cb ((c, evt) ∷ heard) =
    let rest = calls_of cb heard in if c == cb then evt ∷ rest else rest

-- The specification of one listener: whether it is registered afterwards, and what it is told.
abbrev pub registered : ℕ → Happening → Bool → Bool
registered cb (acts a) on = on
registered cb (listens c) on = c == cb || on
registered cb (unlistens c) on = if c == cb then false else on

-- An event line is words: the mark, three numbers, and the operation. A number that is missing is
-- not a number, and words behind the operation mean nothing.
abbrev pub read_words : List Text → Event
read_words (mark ∷ hid ∷ tid ∷ row ∷ op ∷ more) = record {
  hid = parse_int hid;
  tid = parse_int tid;
  row_id = parse_int row;
  op = some op;
}
read_words (mark ∷ hid ∷ tid ∷ row ∷ []) = record {
  hid = parse_int hid;
  tid = parse_int tid;
  row_id = parse_int row;
  op = none;
}
read_words (mark ∷ hid ∷ tid ∷ []) = record {
  hid = parse_int hid;
  tid = parse_int tid;
  row_id = nan;
  op = none;
}
read_words (mark ∷ hid ∷ []) = record { hid = parse_int hid; tid = nan; row_id = nan; op = none }
read_words _ = record { hid = nan; tid = nan; row_id = nan; op = none }

abbrev pub read_event : Text → Event
read_event l = read_words (split b' ' l)

numbered_parts-read_words :
    (parts : List Text)
    → ◌≡◌ {A = Event}
        (record {
          hid = part_number (get_elem? parts 1);
          tid = part_number (get_elem? parts 2);
          row_id = part_number (get_elem? parts 3);
          op = get_elem? parts 4;
        })
        (read_words parts)
unfolding part_number
numbered_parts-read_words [] = refl
numbered_parts-read_words (a ∷ []) = refl
numbered_parts-read_words (a ∷ b ∷ []) = refl
numbered_parts-read_words (a ∷ b ∷ c ∷ []) = refl
numbered_parts-read_words (a ∷ b ∷ c ∷ d ∷ []) = refl
numbered_parts-read_words (a ∷ b ∷ c ∷ d ∷ e ∷ more) = refl

pub parse_event-read_event : (l : Text) → parse_event l ≡ read_event l
unfolding parse_event
parse_event-read_event l = numbered_parts-read_words (split b' ' l)

abbrev pub event_of : Text → List Event
event_of l = if is_event l then read_event l ∷ [] else []

abbrev pub told : Bool → Happening → List Event
told on (acts (arrive l)) = if on then event_of l else []
told on (acts ask) = []
told on (acts (ask_batch k)) = []
told on (acts (ask_refused e)) = []
told on (acts (break e)) = []
told on (listens c) = []
told on (unlistens c) = []

unfoldable pub follow : ℕ → Bool → List Happening → Bool × List Event
follow cb on [] = (on, [])
follow cb on (h ∷ hs) =
    let (end, out) = follow cb (registered cb h on) hs in (end, told on h ++ out)

-- The listeners are a set.
abbrev pub Distinct : List ℕ → Type 0
Distinct [] = Unit
Distinct (c ∷ cs) = All (λ d. d ≢ c) cs × Distinct cs

-- Neither the listeners nor their calls change.
abbrev pub Quiet : Router → Router → Type 0
Quiet r r' = (r'.listeners ≡ r.listeners) × (r'.heard ≡ r.heard)

pub settle-Quiet : (p : ℕ) (o : Outcome) (r : Router) → Quiet r (settle p o r)
unfolding settle
settle-Quiet p o r = elim (Bool-cases (is_settled p r.settled)) [
  | inl e ↦ rw e (refl, refl)
  | inr e ↦ rw e (refl, refl)
]

pub reject_each-Quiet : (ws : List Waiter) (e : Text) (r : Router) → Quiet r (reject_each ws e r)
unfolding reject_each
reject_each-Quiet [] e r = (refl, refl)
reject_each-Quiet (w ∷ ws) e r =
    let (l, h) = reject_each-Quiet ws e (settle (promise w) (failed e) r) in
    let (l', h') = settle-Quiet (promise w) (failed e) r in (l ∙ l', h ∙ h')

resolve-Quiet : (w : Waiter) (l : Text) (r : Router) → Quiet r (resolve w l r)
unfolding resolve
resolve-Quiet (single p) l r = settle-Quiet p _ r
resolve-Quiet (part p n) l r =
    let out = r.collected p ++ l ∷ [] in
    elim (Bool-cases (length out == n)) [
      | inl e ↦ rw e (settle-Quiet p _ _)
      | inr e ↦ rw e (refl, refl)
    ]

pub answer_next-Quiet : (ws : List Waiter) (l : Text) (r : Router) → Quiet r (answer_next ws l r)
unfolding answer_next
answer_next-Quiet [] l r = (refl, refl)
answer_next-Quiet (w ∷ ws) l r = resolve-Quiet w l (record r { waiters = ws })
