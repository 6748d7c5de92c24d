-- ===== src/Transport/Tcp.antt =====
-- `TcpTransport` of adapters/cuttledb.js. The socket is known by the calls that it gets.
pub mod Stream
pub mod Pipeline
pub mod Closed
pub mod Throws
use cuttle_db.Prelude.{
  ℕ, zero, suc, ◌+◌, Bool, true, false, List, [], ◌∷◌, ◌++◌, Option, none, some, if◌then◌else◌,
  length, take, drop, Text, text,
}
use cuttle_db.Text.{index_of, join}
use cuttle_db.Transport.Router.{
  Router, route, strip_cr, fail_all, request, request_batch, refuse, add_listener, remove_listener,
  fresh_router,
}

pub data SocketCall : Type 0 where
  write : Text → SocketCall
  end : SocketCall

pub record Tcp : Type 0 where
  -- `this.socket` is not null.
  pub connected : Bool
  pub buf : Text
  pub router : Router
  pub calls : List SocketCall

abbrev pub fresh_tcp : Tcp
fresh_tcp = record { connected = false; buf = []; router = fresh_router; calls = [] }

-- The callback of `createConnection` in `connect`.
unfoldable pub on_connect : Tcp → Tcp
on_connect t = record t { connected = true }

module _ {ℓ} {R : Type ℓ} (route_line : Text → R → R) where
  -- The `while` loop of `_onData` over the buffer, with what it does to one line as a parameter.
  unfoldable pub drain : ℕ → Text → R → Text × R
  unfolding index_of
  drain zero buf r = (buf, r)
  drain (suc fuel) buf r = elim (index_of b'\n' buf) [
    | none ↦ (buf, r)
    | some nl ↦ drain fuel (drop (nl + 1) buf) (route_line (take nl buf) r)
  ]

abbrev pub route_stripped : Text → Router → Router
route_stripped l r = route (strip_cr l) r

-- `_onData`. Each round takes a newline off the buffer, so its length is fuel enough.
unfoldable pub on_data : Text → Tcp → Tcp
unfolding drain
on_data chunk t =
    let buf = t.buf ++ chunk in
    let (rest, router) = drain route_stripped (length buf + 1) buf t.router in
    record t { buf = rest; router = router }

-- The callbacks for `error` and `close`.
unfoldable pub on_failure : Text → Tcp → Tcp
unfolding fail_all
on_failure e t = record t { router = fail_all e t.router }

-- The `send` of a command gives the number of its promise.
unfoldable pub send : Text → Tcp → ℕ × Tcp
unfolding request refuse
send cmd t =
    let (p, refused) = refuse (text "not connected") t.router in
    let (q, waiting) = request t.router in
    if t.connected
    then (q, record t { router = waiting; calls = t.calls ++ write (cmd ++ b'\n' ∷ []) ∷ [] })
    else (p, record t { router = refused })

unfoldable pub send_batch : List Text → Tcp → ℕ × Tcp
unfolding request_batch refuse join
send_batch cmds t =
    let (p, refused) = refuse (text "not connected") t.router in
    let (q, waiting) = request_batch (length cmds) t.router in
    let packet = join (b'\n' ∷ []) cmds ++ b'\n' ∷ [] in
    if t.connected
    then (q, record t { router = waiting; calls = t.calls ++ write packet ∷ [] })
    else (p, record t { router = refused })

-- `onEvent`, and the function that it returns.
unfoldable pub on_event : ℕ → Tcp → Tcp
unfolding add_listener
on_event cb t = record t { router = add_listener cb t.router }

unfoldable pub off_event : ℕ → Tcp → Tcp
unfolding remove_listener
off_event cb t = record t { router = remove_listener cb t.router }

unfoldable pub close : Tcp → Tcp
close t = if t.connected then record t { connected = false; calls = t.calls ++ end ∷ [] } else t
