-- ===== src/Link/Flight.antt =====
-- Many calls in flight over one connection: the client may call before earlier calls are answered,
-- and it, the server and the network take their steps in any order. Flight/Due is what the transports
-- share; Flight/Tcp and Flight/Ws are the two.
pub mod Fits
pub mod Calls
pub mod Due
pub mod Tcp
pub mod Ws
use cuttle_db.Prelude.{ℕ, ◌+◌, List, [], ◌∷◌, ◌++◌, Text}
use cuttle_db.Link.{Server, replies}
use cuttle_db.Transport.Router.{Outcome, line, lines, Log}

-- `send` of a command, or `sendBatch` of at least one.
pub data Call : Type 0 where
  command : Text → Call
  commands : Text → List Text → Call

abbrev pub commands_of : Call → List Text
commands_of (command cmd) = cmd ∷ []
commands_of (commands cmd cmds) = cmd ∷ cmds

-- The states that a connection may come to from `start` by steps, with the calls made on the way.
pub data Run {W : Type 0} (Step : W → List Call → W → Type 0) (start : W)
    : List Call → W → Type 0 where
  opens : Run Step start [] start
  later :
      {cs ds : List Call} {w w' : W}
      → Run Step start cs w
      → Step w ds w'
      → Run Step start (cs ++ ds) w'

module _ {S : Type 0} (v : Server S) where
  -- The server alone, which takes one call after the other.
  abbrev pub outcome_of : Call → S → Outcome × S
  outcome_of (command cmd) s = (line (v.answer cmd s).0, (v.answer cmd s).1)
  outcome_of (commands cmd cmds) s =
      (lines (replies v (cmd ∷ cmds) s).0, (replies v (cmd ∷ cmds) s).1)

  unfoldable pub sequential : ℕ → List Call → S → Log × S
  unfolding replies
  sequential p [] s = ([], s)
  sequential p (c ∷ cs) s =
      let (o, s') = outcome_of c s in
      let (log, s'') = sequential (p + 1) cs s' in ((p, o) ∷ log, s'')
