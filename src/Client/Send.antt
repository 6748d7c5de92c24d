-- ===== src/Client/Send.antt =====
-- `send`, `sendBatch` and `_ok` of the class `CuttleDB`.
use cuttle_db.Prelude.{
  List, [], ◌∷◌, ◌++◌, if◌then◌else◌, drop, length, ltb, ok, err, traverse, ◌≡◌, refl, arith, Text,
  text,
}
use cuttle_db.Prelude.Outcome.{Result}
use cuttle_db.Client.Exec.{Exec, Transport, lift, ◌>>=◌, continue-state}
use cuttle_db.Text.{starts_with, join}

-- `_ok`: the body of an answer, or the error that it reports.
unfoldable pub unwrap : Text → Result Text
unfolding starts_with
unwrap line =
    if starts_with (text "+OK") line
    then ok (if ltb 3 (length line) then drop 4 line else [])
    else if starts_with (text "-ERR ") line
    then err (drop 5 line)
    else err (text "unexpected response: " ++ line)

-- The words of a command, with a space between any two.
unfoldable pub words : List Text → Text
unfolding join
words = join (b' ' ∷ [])

module _ {S : Type 0} (t : Transport S) where
  unfoldable pub send : Text → Exec S Text
  unfolding unwrap
  send cmd = do line ← t.send cmd; lift (unwrap line)

  -- The first answer that is no success makes the whole call throw.
  unfoldable pub send_batch : List Text → Exec S (List Text)
  unfolding unwrap traverse
  send_batch cmds = do answers ← t.send_batch cmds; lift (traverse unwrap answers)

  -- A command moves the transport by its own step, whatever the answer.
  pub send-state : (cmd : Text) (s : S) → (send cmd s).1 ≡ (t.send cmd s).1
  unfolding send
  send-state cmd s =
      let (r, s') = t.send cmd s in continue-state r (λ l. lift (unwrap l)) s' (λ l. refl)

  pub send_ok :
      (cmd line body : Text) (s s' : S)
      → t.send cmd s ≡ (ok line, s')
      → unwrap line ≡ ok body
      → send cmd s ≡ (ok body, s')
  unfolding send
  send_ok cmd line body s s' h u = rw (h, u)

  pub send_err :
      (cmd line e : Text) (s s' : S)
      → t.send cmd s ≡ (ok line, s')
      → unwrap line ≡ err e
      → send cmd s ≡ (err e, s')
  unfolding send
  send_err cmd line e s s' h u = rw (h, u)

-- An answer with a body, and an error.
pub unwrap-ok : (body : Text) → unwrap (text "+OK " ++ body) ≡ ok body
unfolding unwrap
unwrap-ok body = ground arith

pub unwrap-err : (e : Text) → unwrap (text "-ERR " ++ e) ≡ err e
unfolding unwrap
unwrap-err e = refl
