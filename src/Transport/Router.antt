-- ===== src/Transport/Router.antt =====
-- What `TcpTransport` and `WsTransport` of adapters/cuttledb.js share: the queue of waiters, the
-- promises that their `resolve` and `reject` settle, and the listeners for events. A promise is the
-- number of promises made before it; a callback is a number, and its calls are recorded.
pub mod Queue
pub mod Pending
pub mod Ask
pub mod Receive
pub mod Refines
pub mod Batch
pub mod Lost
pub mod Settles
pub mod Events
pub mod Hears
pub mod Throws
use cuttle_db.Prelude.{
  ℕ, zero, suc, ◌+◌, Bool, true, false, ◌||◌, List, [], ◌∷◌, ◌++◌, map, Option, none, some, ◌==◌,
  if◌then◌else◌, length, get_elem?, Text, text,
}
use cuttle_db.Text.{starts_with, ends_with, drop_last, split}
use cuttle_db.Number.{Number, part_number}

pub record Event : Type 0 where
  pub hid : Number
  pub tid : Number
  pub row_id : Number
  -- `parts[4]`, which may be undefined.
  pub op : Option Text

unfoldable pub parse_event : Text → Event
unfolding part_number
parse_event line =
    let parts = split b' ' line in
    record {
      hid = part_number (get_elem? parts 1);
      tid = part_number (get_elem? parts 2);
      row_id = part_number (get_elem? parts 3);
      op = get_elem? parts 4;
    }

-- `single p` settles the promise `p` by one line; `part p n` is one of the `n` waiters of the batch
-- with the promise `p`, which collects their lines.
pub data Waiter : Type 0 where
  single : ℕ → Waiter
  part : ℕ → ℕ → Waiter

pub data Outcome : Type 0 where
  line : Text → Outcome
  lines : List Text → Outcome
  failed : Text → Outcome

abbrev pub Log : Type 0
Log = List (ℕ × Outcome)

pub record Router : Type 0 where
  pub waiters : List Waiter
  pub listeners : List ℕ
  -- The calls of listeners, in order.
  pub heard : List (ℕ × Event)
  -- How many promises have been made.
  pub created : ℕ
  -- The array `out` of each batch.
  pub collected : ℕ → List Text
  -- The promises that are settled, in order.
  pub settled : Log

unfoldable pub is_settled : ℕ → Log → Bool
is_settled p [] = false
is_settled p ((q, o) ∷ log) = p == q || is_settled p log

-- Only the first settlement of a promise counts.
unfoldable pub settle : ℕ → Outcome → Router → Router
unfolding is_settled
settle p o r = if is_settled p r.settled then r else record r { settled = r.settled ++ (p, o) ∷ [] }

abbrev pub update : (ℕ → List Text) → ℕ → List Text → ℕ → List Text
update f p out q = if q == p then out else f q

-- `w.resolve(line)`.
unfoldable pub resolve : Waiter → Text → Router → Router
unfolding settle
resolve (single p) l r = settle p (line l) r
resolve (part p n) l r =
    let out = r.collected p ++ l ∷ [] in
    let r' = record r { collected = update r.collected p out } in
    if length out == n then settle p (lines out) r' else r'

-- `const w = this._waiters.shift(); if (w) w.resolve(line);`
unfoldable pub answer_next : List Waiter → Text → Router → Router
unfolding resolve
answer_next [] l r = r
answer_next (w ∷ ws) l r = resolve w l (record r { waiters = ws })

-- `for (const cb of this._eventListeners) cb(evt);`, with callbacks that return. Router/Throws has the
-- loop with callbacks that may throw, and Tcp/Throws what it does to `_onData`.
unfoldable pub broadcast : Event → Router → Router
broadcast evt r = record r { heard = r.heard ++ map (λ cb. (cb, evt)) r.listeners }

abbrev pub is_event : Text → Bool
is_event l = starts_with (text ">EVT ") l

-- The body of the receiving loops: an event goes to the listeners, another line to the next waiter.
unfoldable pub route : Text → Router → Router
unfolding answer_next broadcast parse_event
route l r = if is_event l then broadcast (parse_event l) r else answer_next r.waiters l r

unfoldable pub strip_cr : Text → Text
unfolding ends_with drop_last
strip_cr l = if ends_with b'\r' l then drop_last l else l

abbrev pub promise : Waiter → ℕ
promise (single p) = p
promise (part p n) = p

unfoldable pub reject_each : List Waiter → Text → Router → Router
unfolding settle
reject_each [] e r = r
reject_each (w ∷ ws) e r = reject_each ws e (settle (promise w) (failed e) r)

-- `_failAll`.
unfoldable pub fail_all : Text → Router → Router
unfolding reject_each
fail_all e r = reject_each r.waiters e (record r { waiters = [] })

-- A new promise that waits for one line.
unfoldable pub request : Router → ℕ × Router
request r =
    (r.created, record r { created = r.created + 1; waiters = r.waiters ++ single r.created ∷ [] })

abbrev pub replicate {ℓ} : {A : Type ℓ} → ℕ → A → List A
replicate zero x = []
replicate (suc n) x = x ∷ replicate n x

-- The loop of `sendBatch`: `n` waiters for one promise with an empty `out`.
unfoldable pub request_batch : ℕ → Router → ℕ × Router
request_batch n r = (
  r.created,
  record r {
    created = r.created + 1;
    waiters = r.waiters ++ replicate n (part r.created n);
    collected = update r.collected r.created [];
  },
)

-- A new promise that is rejected at once.
unfoldable pub refuse : Text → Router → ℕ × Router
unfolding settle
refuse e r = (r.created, settle r.created (failed e) (record r { created = r.created + 1 }))

unfoldable pub member : ℕ → List ℕ → Bool
member cb [] = false
member cb (c ∷ cs) = c == cb || member cb cs

-- `Set.add` and `Set.delete`, in the order of insertion.
unfoldable pub add_listener : ℕ → Router → Router
unfolding member
add_listener cb r =
    if member cb r.listeners then r else record r { listeners = r.listeners ++ cb ∷ [] }

unfoldable pub without : ℕ → List ℕ → List ℕ
without cb [] = []
without cb (c ∷ cs) = if c == cb then cs else c ∷ without cb cs

unfoldable pub remove_listener : ℕ → Router → Router
unfolding without
remove_listener cb r = record r { listeners = without cb r.listeners }

abbrev pub fresh_router : Router
fresh_router = record {
  waiters = [];
  listeners = [];
  heard = [];
  created = 0;
  collected = λ p. [];
  settled = [];
}
