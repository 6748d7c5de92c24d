-- ===== src/Transport/Ws.antt =====
-- `WsTransport` of adapters/cuttledb.js.
pub mod Frames
use cuttle_db.Prelude.{
  ℕ, zero, suc, ◌+◌, Bool, true, false, List, [], ◌∷◌, ◌++◌, map, if◌then◌else◌, length, Text, text,
}
use cuttle_db.Text.{split}
use cuttle_db.Transport.Router.{
  Router, route, strip_cr, fail_all, request, request_batch, refuse, add_listener, remove_listener,
  fresh_router,
}

pub data SocketCall : Type 0 where
  frame : Text → SocketCall
  shut : SocketCall

pub record Ws : Type 0 where
  pub connected : Bool
  pub router : Router
  pub calls : List SocketCall

-- The two errors that the constructor may throw: no `url`, and no `WebSocket` to be had. The
-- arguments tell whether the one and the other is given.
pub data Construction : Type 0 where
  made : Ws → Construction
  thrown : Text → Construction

unfoldable pub construct : Bool → Bool → Construction
construct has_url has_socket_class =
    if has_url
    then (if has_socket_class
        then made (record { connected = false; router = fresh_router; calls = [] })
        else thrown
            (text "WsTransport: no WebSocket available. Use Node 22+ or pass opts.WebSocket."))
    else thrown (text "WsTransport: pass url (e.g. ws://host:7780)")

-- The callback `onopen`.
unfoldable pub on_open : Ws → Ws
on_open w = record w { connected = true }

-- `if (!line) continue`, and the routing.
unfoldable pub route_nonempty : Text → Router → Router
unfolding route
route_nonempty [] r = r
route_nonempty (c ∷ l) r = route (c ∷ l) r

-- What the loop of `_onMessage` does with one part.
unfoldable pub route_part : Text → Router → Router
unfolding route_nonempty strip_cr
route_part raw r = route_nonempty (strip_cr raw) r

unfoldable pub route_parts : List Text → Router → Router
unfolding route_part
route_parts [] r = r
route_parts (p ∷ ps) r = route_parts ps (route_part p r)

-- `_onMessage`, for the text of one frame.
unfoldable pub on_message : Text → Ws → Ws
unfolding route_parts split
on_message message w = record w { router = route_parts (split b'\n' message) w.router }

unfoldable pub on_close : Ws → Ws
unfolding fail_all
on_close w = record w { router = fail_all (text "WebSocket closed") w.router }

unfoldable pub send : Text → Ws → ℕ × Ws
unfolding request refuse
send cmd w =
    let (p, refused) = refuse (text "not connected") w.router in
    let (q, waiting) = request w.router in
    if w.connected
    then (q, record w { router = waiting; calls = w.calls ++ frame cmd ∷ [] })
    else (p, record w { router = refused })

-- One frame for each command.
unfoldable pub send_batch : List Text → Ws → ℕ × Ws
unfolding request_batch refuse
send_batch cmds w =
    let (p, refused) = refuse (text "not connected") w.router in
    let (q, waiting) = request_batch (length cmds) w.router in
    if w.connected
    then (q, record w { router = waiting; calls = w.calls ++ map frame cmds })
    else (p, record w { router = refused })

unfoldable pub on_event : ℕ → Ws → Ws
unfolding add_listener
on_event cb w = record w { router = add_listener cb w.router }

unfoldable pub off_event : ℕ → Ws → Ws
unfolding remove_listener
off_event cb w = record w { router = remove_listener cb w.router }

unfoldable pub close : Ws → Ws
close w = if w.connected then record w { connected = false; calls = w.calls ++ shut ∷ [] } else w
