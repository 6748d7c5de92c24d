-- ===== src/Link.antt =====
-- A transport of adapters/cuttledb.js with a server at its other end, as the client awaits it. The
-- server is a parameter: it answers each line that it reads by one line, and may put events before.
pub mod Answers
pub mod Tcp
pub mod Ws
pub mod Wasm
pub mod Injection
pub mod Flight
pub mod BatchInsert
use cuttle_db.Prelude.{
  ℕ, List, [], ◌∷◌, ◌++◌, Option, none, some, ◌≡◌, ◌≢◌, true, ◌==◌, if◌then◌else◌, ok, err, All,
  Lacks, Text, text,
}
use cuttle_db.Prelude.Outcome.{Result}
use cuttle_db.Client.Exec.{Transport}
use cuttle_db.Transport.Router.{Outcome, line, lines, failed, Log, Router, is_event}
use cuttle_db.Transport.Router.Batch.{IsReply}
use cuttle_db.Transport.Router.Pending.{Models}

pub record Server (S : Type 0) : Type 0 where
  pub answer : Text → S → Text × S
  pub events : Text → S → List Text

-- A line that a transport can carry: without a newline, and not empty.
abbrev pub IsLine : Text → Type 0
IsLine l = Lacks b'\n' l × (l ≢ [])

-- PROTOCOL.md: an answer is one line that is no event, and an event is one line.
pub record IsServer {S : Type 0} (v : Server S) : Type 0 where
  pub reply : (l : Text) (s : S) → IsReply (v.answer l s).0
  pub reply_line : (l : Text) (s : S) → IsLine (v.answer l s).0
  pub event : (l : Text) (s : S) → All (λ e. is_event e ≡ true) (v.events l s)
  pub event_line : (l : Text) (s : S) → All IsLine (v.events l s)

module _ {S : Type 0} (v : Server S) where
  -- What the server writes for the lines that it reads.
  unfoldable pub serve : List Text → S → List Text × S
  serve [] s = ([], s)
  serve (l ∷ ls) s =
      let (r, s') = v.answer l s in let (out, s'') = serve ls s' in (v.events l s ++ (r ∷ out), s'')

  unfoldable pub replies : List Text → S → List Text × S
  replies [] s = ([], s)
  replies (l ∷ ls) s = let (r, s') = v.answer l s in let (rs, s'') = replies ls s' in (r ∷ rs, s'')

  -- The server without a transport between: what the client is to see.
  unfoldable pub direct : Transport S
  unfolding replies
  direct = record {
    send = λ l s. (ok (v.answer l s).0, (v.answer l s).1);
    send_batch = λ ls s. (ok (replies ls s).0, (replies ls s).1);
  }

-- What promise `p` is settled with.
unfoldable pub outcome : ℕ → Log → Option Outcome
outcome p [] = none
outcome p ((q, o) ∷ log) = if q == p then some o else outcome p log

-- `await` of the promise of a command, and of that of a batch. One that is not settled when the
-- server has answered hangs; the model gives an error for it.
unfoldable pub await_line : Option Outcome → Result Text
await_line (some (line l)) = ok l
await_line (some (failed e)) = err e
await_line (some (lines ls)) = err (text "hangs")
await_line none = err (text "hangs")

unfoldable pub await_lines : Option Outcome → Result (List Text)
await_lines (some (lines ls)) = ok ls
await_lines (some (failed e)) = err e
await_lines (some (line l)) = err (text "hangs")
await_lines none = err (text "hangs")

-- Nothing waits for a line.
abbrev pub Idle : Router → Type 0
Idle r = (n : ℕ) × Models r (record { pending = []; next = n })
