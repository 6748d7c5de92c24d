-- ===== src/Link/Flight/Ws/Steps.antt =====
-- What every step over a WebSocket keeps.
use cuttle_db.Prelude.{
  ℕ, true, List, [], ◌∷◌, ◌++◌, map, append_assoc, append-nil, ◌≡◌, sym, ap, subst, ◌∙◌,
  drop-append, All, All-append, Text,
}
use cuttle_db.Link.{Server, IsServer, IsLine, serve}
use cuttle_db.Link.Answers.{serve-IsLine}
use cuttle_db.Link.Flight.{Call, command, commands, commands_of, Run, opens, later}
use cuttle_db.Link.Flight.Calls.{action_of}
use cuttle_db.Link.Flight.Due.{
  Due, fresh-Due, called-Due, read-Due, tell-Due, arrive-Due, add-Due, remove-Due,
}
use cuttle_db.Link.Flight.Ws.{
  call, sent, World, Step, calls, reads, tells, frames, arrives, registers, removes, start,
}
use cuttle_db.Link.Ws as Link
use cuttle_db.Link.Ws.{flat_lines}
use cuttle_db.Link.Ws.Refines.{
  All-front, on_message-lines, commands-frames, send_lem, send_batch_lem,
}
use cuttle_db.Transport.Router.{Router, is_event}
use cuttle_db.Transport.Router.Queue.{perform}
use cuttle_db.Transport.Tcp.Pipeline
use cuttle_db.Transport.Ws.{Ws, frame, on_event, off_event, on_message}

-- The connection behind a call.
abbrev called : Call → Ws → Ws
called c w = record w {
  router = perform (action_of c) w.router;
  calls = w.calls ++ map frame (commands_of c);
}

call-called : (c : Call) (w : Ws) → w.connected ≡ true → call c w ≡ called c w
unfolding perform
call-called (command cmd) w h = ap (λ (out : ℕ × Ws). out.1) (send_lem cmd w h)
call-called (commands cmd cmds) w h = ap (λ (out : ℕ × Ws). out.1) (send_batch_lem (cmd ∷ cmds) w h)

sent-called : (c : Call) (w : Ws) → sent w (called c w) ≡ commands_of c
sent-called c w =
    ap Link.commands (drop-append w.calls (map frame (commands_of c)))
    ∙ commands-frames (commands_of c)

flat_lines-concat :
    (gs : List (List Text)) (g : List Text) → flat_lines (gs ++ g ∷ []) ≡ flat_lines gs ++ g
flat_lines-concat [] g = append-nil g
flat_lines-concat (f ∷ gs) g =
    ap (λ (ls : List Text). f ++ ls) (flat_lines-concat gs g)
    ∙ sym (append_assoc f (flat_lines gs) g)

-- The lines that have not come to the client.
abbrev pub lines_of : {S : Type 0} → World S → List Text
lines_of w = flat_lines w.flying ++ w.unsent

pub record Open {S : Type 0} (v : Server S) (s : S) (cs : List Call) (w : World S) : Type 0 where
  pub due : Due v s cs w.ws.router w.server w.unread (lines_of w)
  pub each : All IsLine (lines_of w)

module _ {S : Type 0} (v : Server S) (s : S) (cs : List Call) (w : World S)
    (o : Open v s cs w) where
  called-Open :
      (h : IsServer v) (c : Call)
      → Open v s
          (cs ++ c ∷ [])
          (record w { ws = called c w.ws; unread = w.unread ++ commands_of c })
  called-Open h c = record {
    due = called-Due v s cs w.ws.router w.server w.unread (lines_of w) o.due h c;
    each = o.each;
  }

  -- The server has the lines `ls` to send.
  write-Open :
      (ls unread : List Text) (server : S)
      → All IsLine ls
      → Due v s cs w.ws.router server unread (lines_of w ++ ls)
      → Open v s cs (record w { unread = unread; unsent = w.unsent ++ ls; server = server })
  write-Open ls unread server one due =
      let same = append_assoc (flat_lines w.flying) w.unsent ls in
      record {
        due = subst (Due v s cs w.ws.router server unread) same due;
        each = subst (All IsLine) same (All-append IsLine (lines_of w) ls o.each one);
      }

  read-Open :
      (h : IsServer v) (cmd : Text) (rest : List Text)
      → w.unread ≡ cmd ∷ rest
      → Open v s cs (record w {
        unread = rest;
        unsent = w.unsent ++ (serve v (cmd ∷ []) w.server).0;
        server = (v.answer cmd w.server).1;
      })
  read-Open h cmd rest e =
      write-Open (serve v (cmd ∷ []) w.server).0 rest (v.answer cmd w.server).1
        (serve-IsLine v h (cmd ∷ []) w.server)
        (read-Due v s cs w.ws.router w.server w.unread (lines_of w) o.due cmd rest e)

  tell-Open :
      (l : Text)
      → is_event l ≡ true
      → IsLine l
      → Open v s cs (record w { unsent = w.unsent ++ l ∷ [] })
  tell-Open l k one =
      write-Open (l ∷ []) w.unread w.server (one, tt)
        (tell-Due v s cs w.ws.router w.server w.unread (lines_of w) o.due l k)

  frame-Open :
      (ls rest : List Text)
      → w.unsent ≡ ls ++ rest
      → Open v s cs (record w { unsent = rest; flying = w.flying ++ ls ∷ [] })
  frame-Open ls rest e =
      let same : lines_of w ≡ flat_lines (w.flying ++ ls ∷ []) ++ rest =
        ap (λ (x : List Text). flat_lines w.flying ++ x) e
        ∙ sym (append_assoc (flat_lines w.flying) ls rest)
        ∙ ap (λ (x : List Text). x ++ rest) (sym (flat_lines-concat w.flying ls)) in
      record {
        due = subst (Due v s cs w.ws.router w.server w.unread) same o.due;
        each = subst (All IsLine) same o.each;
      }

  arrive-Open :
      (ls : List Text) (rest : List (List Text))
      → w.flying ≡ ls ∷ rest
      → Open v s cs (record w { ws = on_message (Pipeline.frame ls) w.ws; flying = rest })
  arrive-Open ls rest e =
      let same : lines_of w ≡ ls ++ (flat_lines rest ++ w.unsent) =
        ap (λ (x : List (List Text)). flat_lines x ++ w.unsent) e
        ∙ append_assoc ls (flat_lines rest) w.unsent in
      let (now, coming) =
        All-front IsLine ls (flat_lines rest ++ w.unsent) (subst (All IsLine) same o.each) in
      subst (λ (x : Ws). Open v s cs (record w { ws = x; flying = rest }))
        (sym (on_message-lines ls w.ws now))
        (record {
          due =
              arrive-Due v s cs w.ws.router w.server w.unread (lines_of w) o.due ls
                (flat_lines rest ++ w.unsent) same;
          each = coming;
        })

  listen-Open :
      (r : Router)
      → Due v s cs r w.server w.unread (lines_of w)
      → Open v s cs (record w { ws = record w.ws { router = r } })
  listen-Open r due = record { due = due; each = o.each }

  no_call : Open v s (cs ++ []) w
  no_call = subst (λ (made : List Call). Open v s made w) (sym (append-nil cs)) o

module _ {S : Type 0} (v : Server S) (h : IsServer v) (s : S) where
  Step-Open :
      {cs ds : List Call} {w w' : World S} → Open v s cs w → Step v w ds w' → Open v s (cs ++ ds) w'
  unfolding serve on_event off_event
  Step-Open {cs} {w = w} o (calls c connected) =
      subst
        (λ (x : Ws).
          Open v s (cs ++ c ∷ []) (record w { ws = x; unread = w.unread ++ sent w.ws x }))
        (sym (call-called c w.ws connected))
        (subst
          (λ (b : List Text).
            Open v s (cs ++ c ∷ []) (record w { ws = called c w.ws; unread = w.unread ++ b }))
          (sym (sent-called c w.ws)) (called-Open v s cs w o h c))
  Step-Open {cs} {w = w} o (reads cmd rest e) = no_call v s cs _ (read-Open v s cs w o h cmd rest e)
  Step-Open {cs} {w = w} o (tells l k one) = no_call v s cs _ (tell-Open v s cs w o l k one)
  Step-Open {cs} {w = w} o (frames ls rest e) = no_call v s cs _ (frame-Open v s cs w o ls rest e)
  Step-Open {cs} {w = w} o (arrives ls rest e) = no_call v s cs _ (arrive-Open v s cs w o ls rest e)
  Step-Open {cs} {w = w} o (registers cb) =
      no_call v s cs _
        (listen-Open v s cs w o _ (add-Due v s cs w.ws.router w.server w.unread _ o.due cb))
  Step-Open {cs} {w = w} o (removes cb) =
      no_call v s cs _
        (listen-Open v s cs w o _ (remove-Due v s cs w.ws.router w.server w.unread _ o.due cb))

  pub Run-Open : {cs : List Call} {w : World S} → Run (Step v) (start v s) cs w → Open v s cs w
  Run-Open opens = record { due = fresh-Due v s; each = tt }
  Run-Open (later r step) = Step-Open (Run-Open r) step
