-- ===== src/Link/Flight/Tcp/Steps.antt =====
-- What every step over TCP keeps.
use cuttle_db.Prelude.{
  ℕ, true, List, [], ◌∷◌, ◌++◌, append_assoc, append-nil, ◌≡◌, refl, sym, ap, subst, ◌∙◌, length,
  drop-append, All, All-append, Lacks, Text,
}
use cuttle_db.Link.{Server, IsServer, IsLine, serve}
use cuttle_db.Link.Answers.{serve-IsLine}
use cuttle_db.Link.Flight.{Call, command, commands, commands_of, Run, opens, later}
use cuttle_db.Link.Flight.Calls.{action_of}
use cuttle_db.Link.Flight.Due.{
  Due, fresh-Due, called-Due, read-Due, tell-Due, arrive-Due, add-Due, remove-Due,
}
use cuttle_db.Link.Flight.Tcp.{
  call, sent, World, Step, calls, reads, tells, arrives, registers, removes, start,
}
use cuttle_db.Link.Flight.Tcp.Lines.{
  read, read-append, read_rest, read-append_frame, on_data-read, lines_text, lines_text-append,
  lines_text-join, first_line,
}
use cuttle_db.Link.Tcp.{written}
use cuttle_db.Link.Tcp.Refines.{IsLine-Lacks}
use cuttle_db.Text.{split}
use cuttle_db.Transport.Router.{Router, is_event}
use cuttle_db.Transport.Router.Queue.{ask_batch, perform}
use cuttle_db.Transport.Tcp.{Tcp, write, on_event, off_event, on_data}
use cuttle_db.Transport.Tcp.Pipeline.{frame, send_lem, send_batch_connected}

-- The connection behind a call.
abbrev called : Call → Tcp → Tcp
called c t = record t {
  router = perform (action_of c) t.router;
  calls = t.calls ++ write (lines_text (commands_of c)) ∷ [];
}

call-called : (c : Call) (t : Tcp) → t.connected ≡ true → call c t ≡ called c t
unfolding perform
call-called (command cmd) t h = ap (λ (out : ℕ × Tcp). out.1) (send_lem cmd t h)
call-called (commands cmd cmds) t h =
    ap (λ (out : ℕ × Tcp). out.1) (send_batch_connected (cmd ∷ cmds) t h)
    ∙ ap
        (λ (packet : Text). record t {
          router = perform (ask_batch (length cmds)) t.router;
          calls = t.calls ++ write packet ∷ [];
        })
        (lines_text-join cmd cmds)

sent-called : (c : Call) (t : Tcp) → sent t (called c t) ≡ lines_text (commands_of c)
unfolding written
sent-called c t =
    ap written (drop-append t.calls (write (lines_text (commands_of c)) ∷ []))
    ∙ append-nil (lines_text (commands_of c))

-- `waiting` is what the server has not read of the calls. The bytes on their way end with a line, and
-- the buffer holds none.
pub record Open {S : Type 0} (v : Server S) (s : S) (cs : List Call) (w : World S) : Type 0 where
  pub waiting : List Text
  pub due : Due v s cs w.tcp.router w.server waiting (read (w.tcp.buf ++ w.flying)).1
  pub whole : (read (w.tcp.buf ++ w.flying)).0 ≡ []
  pub unfinished : read w.tcp.buf ≡ (w.tcp.buf, [])
  pub unread : w.unread ≡ lines_text waiting
  pub one_line : All (Lacks b'\n') waiting

module _ {S : Type 0} (v : Server S) (s : S) (cs : List Call) (w : World S)
    (o : Open v s cs w) where
  called-Open :
      (h : IsServer v) (c : Call)
      → All (Lacks b'\n') (commands_of c)
      → Open v s
          (cs ++ c ∷ [])
          (record w { tcp = called c w.tcp; unread = w.unread ++ lines_text (commands_of c) })
  called-Open h c one = record {
    waiting = o.waiting ++ commands_of c;
    due = called-Due v s cs w.tcp.router w.server o.waiting _ o.due h c;
    whole = o.whole;
    unfinished = o.unfinished;
    unread =
        ap (λ (b : Text). b ++ lines_text (commands_of c)) o.unread
        ∙ sym (lines_text-append o.waiting (commands_of c));
    one_line = All-append _ o.waiting _ o.one_line one;
  }

  -- The server writes the lines `ls`.
  write-Open :
      (ls waiting : List Text) (unread : Text) (server : S)
      → All (Lacks b'\n') ls
      → Due v s cs w.tcp.router server waiting ((read (w.tcp.buf ++ w.flying)).1 ++ ls)
      → unread ≡ lines_text waiting
      → All (Lacks b'\n') waiting
      → Open v s cs (record w { unread = unread; flying = w.flying ++ frame ls; server = server })
  write-Open ls waiting unread server one due left each =
      let next : read (w.tcp.buf ++ (w.flying ++ frame ls))
          ≡ ([], (read (w.tcp.buf ++ w.flying)).1 ++ ls) =
        ap read (sym (append_assoc w.tcp.buf w.flying (frame ls)))
        ∙ read-append_frame (w.tcp.buf ++ w.flying) ls o.whole one in
      record {
        waiting = waiting;
        due =
            subst (λ (out : Text × List Text). Due v s cs w.tcp.router server waiting out.1)
              (sym next) due;
        whole = ap (λ (out : Text × List Text). out.0) next;
        unfinished = o.unfinished;
        unread = left;
        one_line = each;
      }

  read-Open :
      (h : IsServer v) (cmd rest : Text)
      → Lacks b'\n' cmd
      → w.unread ≡ cmd ++ b'\n' ∷ rest
      → Open v s cs (record w {
        unread = rest;
        flying = w.flying ++ frame (serve v (cmd ∷ []) w.server).0;
        server = (v.answer cmd w.server).1;
      })
  read-Open h cmd rest k e =
      let (more, same, left) = first_line o.waiting cmd rest o.one_line k (sym o.unread ∙ e) in
      let ls = (serve v (cmd ∷ []) w.server).0 in
      write-Open ls more rest (v.answer cmd w.server).1
        (IsLine-Lacks ls (serve-IsLine v h (cmd ∷ []) w.server))
        (read-Due v s cs w.tcp.router w.server o.waiting _ o.due cmd more same) left
        (subst (All (Lacks b'\n')) same o.one_line).1

  tell-Open :
      (l : Text)
      → is_event l ≡ true
      → IsLine l
      → Open v s cs (record w { flying = w.flying ++ frame (l ∷ []) })
  tell-Open l k one =
      write-Open (l ∷ []) o.waiting w.unread w.server (one.0, tt)
        (tell-Due v s cs w.tcp.router w.server o.waiting _ o.due l k) o.unread o.one_line

  arrive-Open :
      (chunk rest : Text)
      → w.flying ≡ chunk ++ rest
      → Open v s cs (record w { tcp = on_data chunk w.tcp; flying = rest })
  arrive-Open chunk rest e =
      let (left, ls) = read (w.tcp.buf ++ chunk) in
      let seen : read (w.tcp.buf ++ w.flying)
          ≡ ((read (left ++ rest)).0, ls ++ (read (left ++ rest)).1) =
        ap (λ (b : Text). read (w.tcp.buf ++ b)) e
        ∙ ap read (sym (append_assoc w.tcp.buf chunk rest))
        ∙ read-append (w.tcp.buf ++ chunk) rest in
      subst (λ (t : Tcp). Open v s cs (record w { tcp = t; flying = rest }))
        (sym (on_data-read chunk w.tcp))
        (record {
          waiting = o.waiting;
          due =
              arrive-Due v s cs w.tcp.router w.server o.waiting _ o.due ls (read (left ++ rest)).1
                (ap (λ (out : Text × List Text). out.1) seen);
          whole = ap (λ (out : Text × List Text). out.0) (sym seen) ∙ o.whole;
          unfinished = read_rest (w.tcp.buf ++ chunk);
          unread = o.unread;
          one_line = o.one_line;
        })

  listen-Open :
      (r : Router)
      → Due v s cs r w.server o.waiting (read (w.tcp.buf ++ w.flying)).1
      → Open v s cs (record w { tcp = record w.tcp { router = r } })
  listen-Open r due = record {
    waiting = o.waiting;
    due = due;
    whole = o.whole;
    unfinished = o.unfinished;
    unread = o.unread;
    one_line = o.one_line;
  }

  no_call : Open v s (cs ++ []) w
  no_call = subst (λ (made : List Call). Open v s made w) (sym (append-nil cs)) o

module _ {S : Type 0} (v : Server S) (h : IsServer v) (s : S) where
  Step-Open :
      {cs ds : List Call} {w w' : World S} → Open v s cs w → Step v w ds w' → Open v s (cs ++ ds) w'
  unfolding serve on_event off_event
  Step-Open {cs} {w = w} o (calls c connected one) =
      subst
        (λ (t : Tcp).
          Open v s (cs ++ c ∷ []) (record w { tcp = t; unread = w.unread ++ sent w.tcp t }))
        (sym (call-called c w.tcp connected))
        (subst
          (λ (b : Text).
            Open v s (cs ++ c ∷ []) (record w { tcp = called c w.tcp; unread = w.unread ++ b }))
          (sym (sent-called c w.tcp)) (called-Open v s cs w o h c one))
  Step-Open {cs} {w = w} o (reads cmd rest k e) =
      no_call v s cs _ (read-Open v s cs w o h cmd rest k e)
  Step-Open {cs} {w = w} o (tells l k one) = no_call v s cs _ (tell-Open v s cs w o l k one)
  Step-Open {cs} {w = w} o (arrives chunk rest e) =
      no_call v s cs _ (arrive-Open v s cs w o chunk rest e)
  Step-Open {cs} {w = w} o (registers cb) =
      no_call v s cs _
        (listen-Open v s cs w o _ (add-Due v s cs w.tcp.router w.server o.waiting _ o.due cb))
  Step-Open {cs} {w = w} o (removes cb) =
      no_call v s cs _
        (listen-Open v s cs w o _ (remove-Due v s cs w.tcp.router w.server o.waiting _ o.due cb))

  pub Run-Open : {cs : List Call} {w : World S} → Run (Step v) (start v s) cs w → Open v s cs w
  Run-Open opens = record {
    waiting = [];
    due = unfold split in fresh-Due v s;
    whole = unfold split in refl;
    unfinished = unfold split in refl;
    unread = refl;
    one_line = tt;
  }
  Run-Open (later r step) = Step-Open (Run-Open r) step
