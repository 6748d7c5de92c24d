-- ===== src/Transport/Connect/First.antt =====
-- The promise of `connect` ends by the first report that can end it.
use cuttle_db.Prelude.{
  ℕ, Bool, Bool-cases, true, false, List, [], ◌∷◌, Option, none, some, ◌≡◌, ◌⊎◌, inl, inr, refl, ap,
  ◌∙◌, if◌then◌else◌, ok, err, Text, text,
}
use cuttle_db.Prelude.Outcome.{Result}
use cuttle_db.Transport.Connect.{
  settle_once, if_listening, TcpEvent, TcpAttempt, tcp_attempt, tcp_run, WsEvent, WsAttempt, ws_run,
}
use cuttle_db.Transport.Ws.{Ws, on_open, on_message, on_close}
use cuttle_db.Transport.Tcp.{Tcp, on_data, on_failure}

abbrev pub Settlement : Type 0
Settlement = Option (Result (Unit {0}))

-- The first of a connection and an error.
abbrev pub tcp_first : List TcpEvent → Settlement
tcp_first [] = none
tcp_first (TcpEvent.connected ∷ es) = some (ok tt)
tcp_first (TcpEvent.broke e ∷ es) = some (err e)
tcp_first (TcpEvent.data_came chunk ∷ es) = tcp_first es
tcp_first (TcpEvent.closed ∷ es) = tcp_first es

abbrev pub ws_first : List WsEvent → Settlement
ws_first [] = none
ws_first (WsEvent.opened ∷ es) = some (ok tt)
ws_first (WsEvent.failed ∷ es) = some (err (text "WebSocket connect failed"))
ws_first (WsEvent.message d ∷ es) = ws_first es
ws_first (WsEvent.closed ∷ es) = ws_first es

-- A settlement stands; else the next report decides.
abbrev or_first : Settlement → Settlement → Settlement
or_first none later = later
or_first (some r) later = some r

settle_once-or_first :
    (r : Result (Unit {0})) (p later : Settlement)
    → or_first (settle_once r p) later ≡ or_first p (some r)
settle_once-or_first r none later = refl
settle_once-or_first r (some first) later = refl

if_listening-promise : (f : Tcp → Tcp) (a : TcpAttempt) → (if_listening f a).promise ≡ a.promise
if_listening-promise f a = elim (Bool-cases a.listening) [ inl e ↦ rw e refl | inr e ↦ rw e refl ]

or_first-none : (p : Settlement) → p ≡ or_first p none
or_first-none none = refl
or_first-none (some r) = refl

tcp_run-or_first :
    (es : List TcpEvent) (a : TcpAttempt)
    → (tcp_run es a).promise ≡ or_first a.promise (tcp_first es)
unfolding tcp_run
tcp_run-or_first [] a = or_first-none a.promise
tcp_run-or_first (TcpEvent.connected ∷ es) a =
    tcp_run-or_first es _ ∙ settle_once-or_first (ok tt) a.promise (tcp_first es)
tcp_run-or_first (TcpEvent.data_came chunk ∷ es) a =
    tcp_run-or_first es _
    ∙ ap (λ (p : Settlement). or_first p (tcp_first es)) (if_listening-promise (on_data chunk) a)
tcp_run-or_first (TcpEvent.broke e ∷ es) a =
    let rejected = record a { promise = settle_once (err e) a.promise } in
    tcp_run-or_first es _
    ∙ ap (λ (p : Settlement). or_first p (tcp_first es))
        (if_listening-promise (on_failure e) rejected)
    ∙ settle_once-or_first (err e) a.promise (tcp_first es)
tcp_run-or_first (TcpEvent.closed ∷ es) a =
    tcp_run-or_first es _
    ∙ ap (λ (p : Settlement). or_first p (tcp_first es))
        (if_listening-promise (on_failure (text "connection closed")) a)

-- A socket that is open has settled the promise.
abbrev IsDecided : WsAttempt → Type 0
IsDecided a = (a.transport.connected ≡ false) ⊎ ((r : Result (Unit {0})) × (a.promise ≡ some r))

settle_once-some :
    (r : Result (Unit {0})) (p : Settlement)
    → (first : Result (Unit {0})) × (settle_once r p ≡ some first)
settle_once-some r none = (r, refl)
settle_once-some r (some first) = (first, refl)

settled-or_first :
    (p x y : Settlement) → (r : Result (Unit {0})) × (p ≡ some r) → or_first p x ≡ or_first p y
settled-or_first none x y (r, e) = cc
settled-or_first (some q) x y h = refl

decided :
    (a : WsAttempt)
    → IsDecided a
    → a.transport.connected ≡ true
    → (r : Result (Unit {0})) × (a.promise ≡ some r)
decided a (inl shut) up = cc
decided a (inr r) up = r

module _ (decode : List ℕ → Text) where
  ws_run-or_first :
      (es : List WsEvent) (a : WsAttempt)
      → IsDecided a
      → (ws_run decode es a).promise ≡ or_first a.promise (ws_first es)
  unfolding ws_run on_open on_message on_close
  ws_run-or_first [] a h = or_first-none a.promise
  ws_run-or_first (WsEvent.opened ∷ es) a h =
      ws_run-or_first es _ (inr (settle_once-some (ok tt) a.promise))
      ∙ settle_once-or_first (ok tt) a.promise (ws_first es)
  ws_run-or_first (WsEvent.message d ∷ es) a h = ws_run-or_first es _ h
  ws_run-or_first (WsEvent.closed ∷ es) a h = ws_run-or_first es _ h
  ws_run-or_first (WsEvent.failed ∷ es) a h =
      let why : Result (Unit {0}) = err (text "WebSocket connect failed") in
      let rejected = record a { promise = settle_once why a.promise } in
      let next : Bool → WsAttempt = λ b. if b then a else rejected in
      elim (Bool-cases a.transport.connected) [
        | inl e ↦
            ap (λ (b : Bool). (ws_run decode es (next b)).promise) e
            ∙ ws_run-or_first es a h
            ∙ settled-or_first a.promise (ws_first es) (some why) (decided a h e)
        | inr e ↦
            ap (λ (b : Bool). (ws_run decode es (next b)).promise) e
            ∙ ws_run-or_first es rejected (inr (settle_once-some why a.promise))
            ∙ settle_once-or_first why a.promise (ws_first es)
      ]

-- The promise of `connect` ends by the first report that can end it, for both transports, where the
-- socket of a WebSocket transport is not set, as its constructor leaves it: the promise is fulfilled if the connection came before any error, rejected with the first error if that came
-- before, and open as long as neither came; data, closes and later errors do not change it.
pub connect-first :
    (decode : List ℕ → Text) (tcp : List TcpEvent) (ws : List WsEvent) (w : Ws)
    → w.connected ≡ false
    → ((tcp_run tcp tcp_attempt).promise ≡ tcp_first tcp)
      × ((ws_run decode ws (record { transport = w; promise = none })).promise ≡ ws_first ws)
connect-first decode tcp ws w h =
    (tcp_run-or_first tcp tcp_attempt, ws_run-or_first decode ws _ (inl h))
