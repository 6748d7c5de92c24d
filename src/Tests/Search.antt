-- ===== src/Tests/Search.antt =====
-- `CuttleSearchClient` over a network that answers every request the same way.
use cuttle_db.Prelude.{
  ℕ, ◌<◌, ◌%◌, false, List, [], ◌∷◌, ◌++◌, ◌==◌, none, some, if◌then◌else◌, ◌≡◌, refl, arith, ok,
  All, Text, text,
}
use mathlib.Core.List.{cons-ne-nil}
use cuttle_db.Search
use cuttle_db.Search.{
  Platform, Client, Fetch, Answer, refused, responded, received, thrown, returned, usable, absent,
  construct, default_base,
}
use cuttle_db.Search.Errors.{slashes, construct-slashes}
use cuttle_db.Search.Form.{encode_form, is_plain}
use cuttle_db.Search.Query.{read_form, search-read_form}
use cuttle_db.Search.Values.{Json, null, string, object, field, end, truthy, property}
use cuttle_db.Text.{text_eq, ends_with}
use cuttle_db.Number.{decimal}

-- The texts of this platform are Latin-1, and its JSON is one error.
abbrev latin : Text → List ℕ
latin [] = []
latin (c ∷ s) = c % 256 ∷ latin s

latin-bytes : (s : Text) → All (λ b. b < 256) (latin s)
latin-bytes [] = tt
latin-bytes (c ∷ s) = (omega arith, latin-bytes s)

abbrev refusal_body : Json ℕ
refusal_body = object (
    field (text "error")
      (object (
        field (text "code") (string (text "bad_request"))
          (field (text "message") (string (text "no")) end)))
      end)

abbrev platform : Platform ℕ
platform = record {
  parse = λ s. if text_eq s (text "ERR") then some refusal_body else none;
  is_zero = λ n. n == 0;
  to_string = λ j. text "[object Object]";
  utf8 = latin;
}

-- The state is the list of addresses asked for.
abbrev answering : Answer → Fetch (List Text)
answering a url asked = (a, asked ++ url ∷ [])

abbrev local : Answer → Client (List Text)
local a = record { base_url = default_base; fetch = answering a }

abbrev bad_request : Answer
bad_request = responded (record { status = 400; is_ok = false; body = received (text "ERR") })

search_runs :
    (Search.search platform (local bad_request) (some (text "a b&c=é")) (some (text "5")) none []
      ≡ (
        thrown
            (record { message = text "no"; code = string (text "bad_request"); status = some 400 }),
        text "http://localhost:8787/search?q=a+b%26c%3D%E9&k=5" ∷ [],
      ))
    × (Search.health platform
          (local
            (responded (record { status = 502; is_ok = false; body = received (text "oops") })))
          []
        ≡ (
          thrown (record {
            message = text "non-JSON response (HTTP 502)";
            code = null;
            status = some 502;
          }),
          text "http://localhost:8787/health" ∷ [],
        ))
    × (Search.health platform
          (local (responded (record { status = 503; is_ok = false; body = received [] })))
          []
        ≡ (
          thrown (record { message = text "HTTP 503"; code = null; status = some 503 }),
          text "http://localhost:8787/health" ∷ [],
        ))
    × (construct (some (text "http://h//")) absent (usable (answering bad_request))
        ≡ ok (record { base_url = text "http://h"; fetch = answering bad_request }))
unfolding Search.search Search.health Search.search_params encode_form is_plain text_eq decimal
    construct truthy property
search_runs = (refl, refl, refl, refl)

search-read_form_example :
    (s : Text) × (Search.search platform
        (local bad_request)
        (some (text "a b"))
        (some (text "5"))
        none
        []
      ≡ Search.get platform (local bad_request) (text "/search?" ++ s) [])
    × (read_form s ≡ (text "q", text "a b") ∷ (text "k", text "5") ∷ [])
unfolding Search.search_params
search-read_form_example =
    search-read_form platform latin-bytes (local bad_request) (text "a b") (some (text "5")) none []
      (cons-ne-nil _ _)

slashes_are_gone :
    (c : Client (List Text)) × (construct
        (some (text "http://h//"))
        (usable (answering bad_request))
        absent
      ≡ ok c)
    × ((n : ℕ) × (c.base_url ++ slashes n ≡ text "http://h//"))
    × (ends_with b'/' c.base_url ≡ false)
slashes_are_gone = construct-slashes (text "http://h//") (answering bad_request) absent
