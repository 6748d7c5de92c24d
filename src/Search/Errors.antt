-- ===== src/Search/Errors.antt =====
-- How the methods of `CuttleSearchClient` end, for each answer of the network, and the address that
-- its constructor keeps.
use cuttle_db.Prelude.{
  ℕ, zero, suc, true, false, [], ◌∷◌, ◌++◌, ◌==◌, ◌≡◌, ◌⊎◌, inl, inr, refl, sym, ap, Option, none,
  some, ok, Bool-cases, ==→eq, Text,
}
use cuttle_db.Text.{ends_with}
use cuttle_db.Search.{
  broken, received, Response, Answer, refused, responded, Platform, Ending, returned, thrown,
  passed_on, Fetch, Client, FetchOption, usable, put_before, strip_slashes, construct, parse_body,
}

-- The status that the network gave.
abbrev pub status_of : Answer → Option ℕ
status_of (refused e) = none
status_of (responded res) = some res.status

module _ {N : Type 0} (m : Platform N) where
  -- No success: there was no response, or not a good one, or its text is no JSON.
  abbrev pub Failed : Answer → Type 0
  Failed (refused e) = Unit
  Failed (responded res) =
      (res.is_ok ≡ false) ⊎ ((s : Text) × (res.body ≡ received s) × (parse_body m s ≡ none))

  -- What an answer of the network has to do with the ending of a method.
  abbrev pub Explains : Answer → Ending N → Type 0
  Explains a (returned j) =
      (res : Response) × (s : Text) × (a ≡ responded res)
      × (res.is_ok ≡ true)
      × (res.body ≡ received s)
      × (parse_body m s ≡ some j)
  Explains a (thrown e) = (e.status ≡ status_of a) × Failed a
  Explains a (passed_on e) = (res : Response) × (a ≡ responded res) × (res.body ≡ broken e)

abbrev pub slashes : ℕ → Text
slashes zero = []
slashes (suc n) = b'/' ∷ slashes n

put_before-slashes :
    (c : ℕ) (r s : Text) (n : ℕ)
    → r ++ slashes n ≡ s
    → ends_with b'/' r ≡ false
    → ((k : ℕ) × (put_before c r ++ slashes k ≡ c ∷ s)) × (ends_with b'/' (put_before c r) ≡ false)
unfolding ends_with
put_before-slashes c (d ∷ r) s n e f = ((n, ap (λ (t : Text). c ∷ t) e), f)
put_before-slashes c [] s n e f = elim (Bool-cases (c == b'/')) [
  | inl h ↦ rw h ((suc n, λ i. sym (==→eq c b'/' h) i ∷ e i), refl)
  | inr h ↦ rw h ((n, ap (λ (t : Text). c ∷ t) e), h)
]

strip_slashes-slashes :
    (s : Text)
    → ((n : ℕ) × (strip_slashes s ++ slashes n ≡ s)) × (ends_with b'/' (strip_slashes s) ≡ false)
unfolding strip_slashes ends_with
strip_slashes-slashes [] = ((0, refl), refl)
strip_slashes-slashes (c ∷ s) =
    let ((n, e), f) = strip_slashes-slashes s in put_before-slashes c (strip_slashes s) s n e f

-- The constructor with a `fetch` keeps the address that it is given, less all the slashes at its end.
pub construct-slashes :
    {W : Type 0} (url : Text) (f : Fetch W) (global : FetchOption W)
    → (c : Client W) × (construct (some url) (usable f) global ≡ ok c)
      × ((n : ℕ) × (c.base_url ++ slashes n ≡ url))
      × (ends_with b'/' c.base_url ≡ false)
unfolding construct
construct-slashes url f global = (
  record { base_url = strip_slashes url; fetch = f },
  refl,
  (strip_slashes-slashes url).0,
  (strip_slashes-slashes url).1,
)
