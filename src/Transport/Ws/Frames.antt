-- ===== src/Transport/Ws/Frames.antt =====
-- A frame of whole lines is read as TCP reads a chunk of them.
use cuttle_db.Prelude.{
  ◌++◌, List, [], ◌∷◌, map, append_assoc, ◌≡◌, ◌≢◌, refl, sym, ap, ◌∙◌, All, Lacks, Text,
}
use cuttle_db.Text.{split}
use cuttle_db.Text.Laws.{split-append}
use cuttle_db.Transport.Router.{Router, route}
use cuttle_db.Transport.Router.Queue.{arrive, perform_all}
use cuttle_db.Transport.Tcp.{Tcp, on_data}
use cuttle_db.Transport.Tcp.Pipeline.{frame, strip_cr-concat, Lacks-cr, on_data-frame}
use cuttle_db.Transport.Ws.{Ws, route_nonempty, route_part, route_parts, on_message}

route_nonempty_lem : (l : Text) (r : Router) → l ≢ [] → route_nonempty l r ≡ route l r
unfolding route_nonempty
route_nonempty_lem [] r ne = absurd (ne refl)
route_nonempty_lem (c ∷ l) r ne = refl

route_part-cr : (l : Text) (r : Router) → l ≢ [] → route_part (l ++ b'\r' ∷ []) r ≡ route l r
unfolding route_part
route_part-cr l r ne = rw (strip_cr-concat l) (route_nonempty_lem l r ne)

route_parts-cons :
    (p : Text) (ps : List Text) (r : Router)
    → route_parts (p ∷ ps) r ≡ route_parts ps (route_part p r)
unfolding route_parts
route_parts-cons p ps r = refl

pub route_parts-frame :
    (ls : List Text) (r : Router)
    → All (Lacks b'\n') ls
    → All (λ l. l ≢ []) ls
    → route_parts (split b'\n' (frame ls)) r ≡ perform_all (map arrive ls) r
unfolding perform_all
route_parts-frame [] r h ne = unfold split route_parts in refl
route_parts-frame (l ∷ ls) r h ne =
    rw
      (
        ← append_assoc l (b'\r' ∷ []) (b'\n' ∷ frame ls),
        split-append b'\n' (l ++ b'\r' ∷ []) (frame ls) (Lacks-cr l h.0),
        route_parts-cons,
        route_part-cr l r ne.0,
      )
      (route_parts-frame ls (route l r) h.1 ne.1)

pub on_message_lem :
    (message : Text) (w : Ws)
    → (on_message message w).router ≡ route_parts (split b'\n' message) w.router
unfolding on_message
on_message_lem message w = refl

-- Whole lines that are not empty, replies and events mixed as they may be, have the same effect in
-- one WebSocket frame as in one TCP chunk, from the same state of the waiters.
pub on_message-on_data :
    (ls : List Text) (w : Ws) (t : Tcp)
    → w.router ≡ t.router
    → t.buf ≡ []
    → All (Lacks b'\n') ls
    → All (λ l. l ≢ []) ls
    → (on_message (frame ls) w).router ≡ (on_data (frame ls) t).router
on_message-on_data ls w t same b h ne =
    on_message_lem (frame ls) w
    ∙ route_parts-frame ls w.router h ne
    ∙ ap (perform_all (map arrive ls)) same
    ∙ sym (on_data-frame ls t b h)
