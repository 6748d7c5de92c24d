-- ===== src/Transport/Router/Queue.antt =====
-- The specification of a connection: the requests that wait, first in first out, each for as many
-- lines as it has commands.
use cuttle_db.Prelude.{ℕ, zero, suc, ◌+◌, List, [], ◌∷◌, ◌++◌, map, ◌≡◌, refl, if◌then◌else◌, Text}
use cuttle_db.Transport.Router.{
  Outcome, line, lines, failed, Log, Router, is_event, route, fail_all, request, request_batch,
  refuse,
}

-- `one p` waits for one line; `many p got k` has got some of its lines, and waits for `k + 1` more.
pub data Request : Type 0 where
  one : ℕ → Request
  many : ℕ → List Text → ℕ → Request

abbrev pub promise_of : Request → ℕ
promise_of (one p) = p
promise_of (many p got k) = p

pub record Queue : Type 0 where
  pub pending : List Request
  -- The number of the next promise.
  pub next : ℕ

-- A line goes to the first request. The requests that wait then, and what has been settled.
abbrev pub receive : List Request → Text → List Request × Log
receive [] l = ([], [])
receive (one p ∷ qs) l = (qs, (p, line l) ∷ [])
receive (many p got zero ∷ qs) l = (qs, (p, lines (got ++ l ∷ [])) ∷ [])
receive (many p got (suc k) ∷ qs) l = (many p (got ++ l ∷ []) k ∷ qs, [])

-- What happens to a connection. A batch has at least one command: `ask_batch k` has `k + 1`.
pub data Action : Type 0 where
  ask : Action
  ask_batch : ℕ → Action
  ask_refused : Text → Action
  arrive : Text → Action
  break : Text → Action

abbrev pub fails : Text → Request → ℕ × Outcome
fails e q = (promise_of q, failed e)

-- One action on the specification, and the promises that it settles.
abbrev pub act : Action → Queue → Queue × Log
act ask q = (record { pending = q.pending ++ one q.next ∷ []; next = q.next + 1 }, [])
act (ask_batch k) q =
    (record { pending = q.pending ++ many q.next [] k ∷ []; next = q.next + 1 }, [])
act (ask_refused e) q = (record q { next = q.next + 1 }, (q.next, failed e) ∷ [])
act (arrive l) q =
    if is_event l
    then (q, [])
    else (record q { pending = (receive q.pending l).0 }, (receive q.pending l).1)
act (break e) q = (record q { pending = [] }, map (fails e) q.pending)

unfoldable pub act_all : List Action → Queue → Queue × Log
act_all [] q = (q, [])
act_all (a ∷ more) q =
    let (q', log) = act a q in let (q'', rest) = act_all more q' in (q'', log ++ rest)

-- The same action in the code.
unfoldable pub perform : Action → Router → Router
unfolding route fail_all request request_batch refuse
perform ask r = (request r).1
perform (ask_batch k) r = (request_batch (suc k) r).1
perform (ask_refused e) r = (refuse e r).1
perform (arrive l) r = route l r
perform (break e) r = fail_all e r

unfoldable pub perform_all : List Action → Router → Router
unfolding perform
perform_all [] r = r
perform_all (a ∷ more) r = perform_all more (perform a r)

pub perform_all-append :
    (a b : List Action) (r : Router) → perform_all (a ++ b) r ≡ perform_all b (perform_all a r)
unfolding perform_all
perform_all-append [] b r = refl
perform_all-append (x ∷ a) b r = perform_all-append a b (perform x r)
