-- ===== src/Search.antt =====
-- The class `CuttleSearchClient` of adapters/search.js. The network is a state that `fetch` changes.
pub mod Values
pub mod Form
pub mod Query
pub mod Errors
use cuttle_db.Prelude.{
  ℕ, Bool, true, false, ◌&&◌, List, [], ◌∷◌, ◌++◌, ◌==◌, Option, none, some, if◌then◌else◌, ok, err,
  Text, text,
}
use cuttle_db.Prelude.Outcome.{Result}
use cuttle_db.Number.{decimal}
use Values.{Json, null, string, object, end, truthy, property}
use Form.{encode_form}

-- What a promise is rejected with: its `message`, if it has one, and itself as a string.
pub record Reason : Type 0 where
  pub message : Option Text
  pub as_text : Text

-- What `res.text()` comes to.
pub data Body : Type 0 where
  broken : Reason → Body
  received : Text → Body

pub record Response : Type 0 where
  pub status : ℕ
  pub is_ok : Bool
  pub body : Body

pub data Answer : Type 0 where
  refused : Reason → Answer
  responded : Response → Answer

-- `JSON.parse`, which throws at `none`; the test for zero; the string of a value that is none; and
-- UTF-8.
pub record Platform (N : Type 0) : Type 0 where
  pub parse : Text → Option (Json N)
  pub is_zero : N → Bool
  pub to_string : Json N → Text
  pub utf8 : Text → List ℕ

-- `CuttleSearchError`, with null for a code that is not there.
pub record SearchError (N : Type 0) : Type 0 where
  pub message : Text
  pub code : Json N
  pub status : Option ℕ

-- How a method ends: with a value, with its own error, or with what `res.text()` was rejected with.
pub data Ending (N : Type 0) : Type 0 where
  returned : Json N → Ending N
  thrown : SearchError N → Ending N
  passed_on : Reason → Ending N

abbrev pub Fetch : Type 0 → Type 0
Fetch W = Text → W → Answer × W

pub record Client (W : Type 0) : Type 0 where
  pub base_url : Text
  pub fetch : Fetch W

-- What may be given for `fetch`: null or undefined, something that is no function, or a function.
pub data FetchOption (W : Type 0) : Type 0 where
  absent : FetchOption W
  no_function : FetchOption W
  usable : Fetch W → FetchOption W

abbrev pub default_base : Text
default_base = text "http://localhost:8787"

abbrev pub put_before : ℕ → Text → Text
put_before c [] = if c == b'/' then [] else c ∷ []
put_before c (d ∷ s) = c ∷ d ∷ s

-- `s.replace(/\/+$/, "")`.
unfoldable pub strip_slashes : Text → Text
strip_slashes [] = []
strip_slashes (c ∷ s) = put_before c (strip_slashes s)

abbrev or_default : Option Text → Text
or_default none = default_base
or_default (some url) = url

module _ {W : Type 0} where
  abbrev or_global : FetchOption W → FetchOption W → FetchOption W
  or_global absent global = global
  or_global f global = f

  abbrev with_fetch : Text → FetchOption W → Result (Client W)
  with_fetch url (usable f) = ok (record { base_url = url; fetch = f })
  with_fetch url other = err (
      text
        "no fetch available — pass { fetch } (e.g. from the `undici` or `node-fetch` package on Node < 18)")

  -- The constructor: `String(baseUrl)` if one is given, the option `fetch`, and `globalThis.fetch`.
  unfoldable pub construct : Option Text → FetchOption W → FetchOption W → Result (Client W)
  unfolding strip_slashes
  construct base_url fetch_impl global =
      with_fetch (strip_slashes (or_default base_url)) (or_global fetch_impl global)

abbrev message_or_itself : Reason → Text
message_or_itself e = elim e.message [ none ↦ e.as_text | some s ↦ s ]

abbrev clause : Text → Option Text → List (Text × Text)
clause name none = []
clause name (some value) = (name, value) ∷ []

-- What `search` sets in its URLSearchParams.
unfoldable pub search_params : Text → Option Text → Option Text → List (Text × Text)
search_params q k mode = (text "q", q) ∷ (clause (text "k") k ++ clause (text "mode") mode)

module _ {N : Type 0} (m : Platform N) where
  -- `text ? JSON.parse(text) : {}`.
  unfoldable pub parse_body : Text → Option (Json N)
  parse_body [] = some (object end)
  parse_body (c ∷ s) = m.parse (c ∷ s)

  -- `(body && body.error) || {}`.
  abbrev or_empty : Option (Json N) → Json N
  or_empty none = object end
  or_empty (some j) = if truthy m.is_zero j then j else object end

  unfoldable pub error_of : Json N → Json N
  unfolding truthy property
  error_of body =
      or_empty (if truthy m.is_zero body then property (text "error") body else some body)

  -- The string that the constructor of Error makes of a value.
  abbrev as_message : Json N → Text
  as_message (string s) = s
  as_message j = m.to_string j

  -- `err.message || "HTTP ..."`.
  abbrev or_status : ℕ → Option (Json N) → Text
  or_status status none = text "HTTP " ++ decimal status
  or_status status (some j) =
      if truthy m.is_zero j then as_message j else text "HTTP " ++ decimal status

  abbrev or_null : Option (Json N) → Json N
  or_null none = null
  or_null (some j) = j

  unfoldable pub refusal : ℕ → Json N → SearchError N
  unfolding error_of decimal
  refusal status body = record {
    message = or_status status (property (text "message") (error_of body));
    code = or_null (property (text "code") (error_of body));
    status = some status;
  }

  -- The end of `_get`, from the parsed body on.
  unfoldable pub conclude : ℕ → Bool → Option (Json N) → Ending N
  unfolding refusal
  conclude status is_ok none = thrown (record {
    message = text "non-JSON response (HTTP " ++ (decimal status ++ text ")");
    code = null;
    status = some status;
  })
  conclude status is_ok (some body) = if is_ok then returned body else thrown (refusal status body)

  abbrev pub read_text : Response → Body → Ending N
  read_text res (broken e) = passed_on e
  read_text res (received s) = conclude res.status res.is_ok (parse_body s)

  unfoldable pub receive : Answer → Ending N
  unfolding parse_body conclude
  receive (refused e) = thrown (record {
    message = text "connection failed: " ++ message_or_itself e;
    code = null;
    status = none;
  })
  receive (responded res) = read_text res res.body

  module _ {W : Type 0} (c : Client W) where
    -- `_get`.
    unfoldable pub get : Text → W → Ending N × W
    unfolding receive
    get path w = let (answer, w') = c.fetch (c.base_url ++ path) w in (receive answer, w')

    abbrev empty_query : Ending N
    empty_query =
        thrown
          (record { message = text "query must be a non-empty string"; code = null; status = none })

    -- `search`, with `none` for a query that is no string and the options as `String` gives them.
    unfoldable pub search : Option Text → Option Text → Option Text → W → Ending N × W
    unfolding get search_params encode_form
    search none k mode w = (empty_query, w)
    search (some []) k mode w = (empty_query, w)
    search (some (x ∷ q)) k mode w =
        get (text "/search?" ++ encode_form m.utf8 (search_params (x ∷ q) k mode)) w

    unfoldable pub health : W → Ending N × W
    unfolding get
    health w = get (text "/health") w
