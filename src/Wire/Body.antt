-- ===== src/Wire/Body.antt =====
-- The test for brackets that the readers of a list of results make first.
use cuttle_db.Prelude.{
  not, ◌||◌, true, [], ◌∷◌, ◌++◌, ◌≡◌, ap, if◌then◌else◌, drop, Result, ok, err, Text, text,
}
use cuttle_db.Text.{starts_with, ends_with, drop_last}
use cuttle_db.Text.Laws.{ends_with-concat, drop_last-concat}

-- `throw new Error(`bad ${what}: ${body}`)`, or `body.slice(1, -1)`.
unfoldable pub bracketed : Text → Text → Result Text
unfolding starts_with ends_with drop_last
bracketed what body =
    if not (starts_with (b'[' ∷ []) body) || not (ends_with b']' body)
    then err (text "bad " ++ (what ++ (text ": " ++ body)))
    else ok (drop_last (drop 1 body))

ends_with-bracket : (s : Text) → ends_with b']' (b'[' ∷ (s ++ b']' ∷ [])) ≡ true
ends_with-bracket s = ends_with-concat b']' (b'[' ∷ s)

pub bracketed_lem : (what s : Text) → bracketed what (b'[' ∷ (s ++ b']' ∷ [])) ≡ ok s
unfolding bracketed
bracketed_lem what s = rw (ends_with-bracket s) (ap ok (drop_last-concat b']' s))
