-- ===== src/Tests/Session.antt =====
-- Connecting to a server that takes one token.
use cuttle_db.Prelude.{[], Bool, true, false, some, none, if◌then◌else◌, ◌≡◌, refl, ok, err, text}
use cuttle_db.Client.Exec.{Exec, Transport}
use cuttle_db.Client.Send.{unwrap}
use cuttle_db.Client.Session.{
  named, not_given, tcp, select, stored_auth, connect, acknowledge, connect-auth,
}
use cuttle_db.Text.{text_eq}

-- The state tells whether the connection is accepted.
abbrev guarded : Transport Bool
guarded = record {
  send = λ cmd s.
      if text_eq cmd (text "AUTH key")
      then (ok (text "+OK authed"), true)
      else (ok (text "-ERR auth"), s);
  send_batch = λ cmds s. (ok [], s);
}

abbrev start : Exec Bool (Unit {0})
start s = (ok tt, false)

select_runs :
    (select not_given ≡ ok tcp)
    × (select (named []) ≡ ok tcp)
    × (select (named (text "udp")) ≡ err (text "unknown transport: udp"))
    × (stored_auth (some []) ≡ none)
unfolding select stored_auth
select_runs = (refl, refl, refl, refl)

connect_runs :
    (connect guarded start (some (text "key")) false ≡ (ok tt, true))
    × (connect guarded start none false ≡ (ok tt, false))
unfolding connect text_eq
connect_runs = (refl, refl)

token_is_sent :
    connect guarded start (some (text "bad")) false
    ≡ (acknowledge (unwrap (text "-ERR auth")), false)
unfolding text_eq
token_is_sent =
    connect-auth guarded start (text "bad") (text "-ERR auth") false false false refl refl
