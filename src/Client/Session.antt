-- ===== src/Client/Session.antt =====
-- The constructor, `connect` and `on` of `CuttleDB`.
use cuttle_db.Prelude.{
  ℕ, [], ◌∷◌, ◌++◌, Option, none, some, if◌then◌else◌, ok, err, ◌≡◌, refl, Text, text,
}
use cuttle_db.Prelude.Outcome.{Result}
use cuttle_db.Client.Exec.{Exec, Transport, pure, continue, ◌>>=◌, ◌>>◌}
use cuttle_db.Client.Send.{send, unwrap}
use cuttle_db.Text.{text_eq}

-- `opts.transport`: a name, which may be empty, or a transport of the caller.
pub data TransportOption : Type 0 where
  not_given : TransportOption
  named : Text → TransportOption
  injected : TransportOption

pub data Selected : Type 0 where
  tcp : Selected
  ws : Selected
  object : Selected

unfoldable pub select_named : Text → Result Selected
unfolding text_eq
select_named name =
    if text_eq name (text "tcp")
    then ok tcp
    else if text_eq name (text "ws")
    then ok ws
    else err (text "unknown transport: " ++ name)

unfoldable pub select : TransportOption → Result Selected
unfolding select_named
select not_given = ok tcp
select (named []) = ok tcp
select (named (c ∷ s)) = select_named (c ∷ s)
select injected = ok object

-- `opts.auth || null`.
unfoldable pub stored_auth : Option Text → Option Text
stored_auth none = none
stored_auth (some []) = none
stored_auth (some (c ∷ s)) = some (c ∷ s)

-- `on`, up to the registration of the callback by the transport.
unfoldable pub check_event : Text → Result (Unit {0})
unfolding text_eq
check_event name =
    if text_eq name (text "event") then ok tt else err (text "unknown event: " ++ name)

-- `on`: the callback is registered if the name is the one there is. `L` is the state of a transport,
-- and `on_event` its method.
unfoldable pub on {ℓ} : {L : Type ℓ} → (ℕ → L → L) → Text → ℕ → L → Result (Unit {0}) × L
unfolding check_event
on on_event name cb l = elim (check_event name) [
  | ok done ↦ (ok tt, on_event cb l)
  | err e ↦ (err e, l)
]

abbrev pub acknowledge : Result Text → Result (Unit {0})
acknowledge (ok body) = ok tt
acknowledge (err e) = err e

continue-acknowledge :
    {S : Type 0} (r : Result Text) (s : S)
    → continue r (λ (body : Text). pure tt) s ≡ (acknowledge r, s)
continue-acknowledge (ok body) s = refl
continue-acknowledge (err e) s = refl

module _ {S : Type 0} (t : Transport S) where
  unfoldable pub authenticate : Option Text → Exec S (Unit {0})
  unfolding send
  authenticate none = pure tt
  authenticate (some token) = do body ← send t (text "AUTH " ++ token); pure tt

  -- The first argument is the `connect` of the transport.
  unfoldable pub connect : Exec S (Unit {0}) → Option Text → Exec S (Unit {0})
  unfolding authenticate
  connect start auth = do start; authenticate auth

  -- When the transport is up, `connect` with a token sends AUTH alone and ends as the answer says: it
  -- returns on `+OK`, and else throws what the server reports.
  pub connect-auth :
      (start : Exec S (Unit {0})) (token line : Text) (s up behind : S)
      → start s ≡ (ok tt, up)
      → t.send (text "AUTH " ++ token) up ≡ (ok line, behind)
      → connect start (some token) s ≡ (acknowledge (unwrap line), behind)
  unfolding connect authenticate send
  connect-auth start token line s up behind opened answered =
      rw (opened, answered) (continue-acknowledge (unwrap line) behind)
