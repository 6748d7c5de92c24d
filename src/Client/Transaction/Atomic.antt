-- ===== src/Client/Transaction/Atomic.antt =====
-- `transaction` is atomic over a server that keeps to what PROTOCOL.md says of its transactions.
use cuttle_db.Prelude.{◌++◌, Option, none, some, ◌≡◌, ◌⊎◌, inl, inr, refl, ◌∙◌, ok, err, Text, text}
use cuttle_db.Prelude.Outcome.{Result}
use cuttle_db.Client.Exec.{Exec, Transport, pure, ◌>>=◌, continue, continue-state}
use cuttle_db.Client.Send.{send, send-state, send_ok, send_err, unwrap-ok, unwrap-err}
use cuttle_db.Number.{Number, parse_int}
use cuttle_db.Client.Transaction.{begin, commit, rollback, transaction, try_else}

-- The server behind a transport, as a client sees it: the rows, and what a rollback would restore
-- while a transaction is open.
pub record TxServer {S : Type 0} (t : Transport S) (Rows : Type 0) : Type 0 where
  pub rows : S → Rows
  pub snapshot : S → Option Rows
  -- BEGIN outside a transaction is answered by +OK, and opens one.
  pub begun : S → S
  pub begins : (s : S) → snapshot s ≡ none → t.send (text "BEGIN") s ≡ (ok (text "+OK"), begun s)
  pub begun_rows : (s : S) → rows (begun s) ≡ rows s
  pub begun_snapshot : (s : S) → snapshot (begun s) ≡ some (rows s)
  -- COMMIT inside a transaction keeps the rows and closes it, or is refused.
  pub committed : S → S
  pub commits :
      (s : S) (old : Rows)
      → snapshot s ≡ some old
      → ((n : Text) × (t.send (text "COMMIT") s ≡ (ok (text "+OK " ++ n), committed s)))
        ⊎ ((e : Text) × (t.send (text "COMMIT") s ≡ (ok (text "-ERR " ++ e), s)))
  pub committed_rows : (s : S) → rows (committed s) ≡ rows s
  pub committed_snapshot : (s : S) → snapshot (committed s) ≡ none
  -- ROLLBACK inside a transaction restores the rows and closes it, whatever it answers.
  pub rolls_back :
      (s : S) (old : Rows)
      → snapshot s ≡ some old
      → (rows (t.send (text "ROLLBACK") s).1 ≡ old)
        × (snapshot (t.send (text "ROLLBACK") s).1 ≡ none)

module _ {S : Type 0} {Rows : Type 0} (t : Transport S) (v : TxServer t Rows) where
  -- The transaction is closed; a throw left the rows as they were, and else they are those of `fn`.
  abbrev pub Atomic {ℓ} : {A : Type ℓ} → S → S → Result A × S → Type 0
  Atomic s done (ok a, s') = (v.rows s' ≡ v.rows done) × (v.snapshot s' ≡ none)
  Atomic s done (err e, s') = (v.rows s' ≡ v.rows s) × (v.snapshot s' ≡ none)

  begin_lem : (s : S) → v.snapshot s ≡ none → begin t s ≡ (ok tt, v.begun s)
  unfolding begin
  begin_lem s h = rw (v.begins s h)

  rollback_state : (s : S) → (rollback t s).1 ≡ (t.send (text "ROLLBACK") s).1
  unfolding rollback
  rollback_state s =
      let (r, s') = send t (text "ROLLBACK") s in
      continue-state r (λ body. pure (parse_int body)) s' (λ body. refl)
      ∙ send-state t (text "ROLLBACK") s

  -- The cleanup after a throw, while the transaction is open.
  rolled_back :
      (s s' : S)
      → v.snapshot s' ≡ some (v.rows s)
      → (v.rows (rollback t s').1 ≡ v.rows s) × (v.snapshot (rollback t s').1 ≡ none)
  rolled_back s s' h = rw (rollback_state s') (v.rolls_back s' (v.rows s) h)

  commit_cases :
      (s : S) (old : Rows)
      → v.snapshot s ≡ some old
      → ((n : Number) × (commit t s ≡ (ok n, v.committed s)))
        ⊎ ((e : Text) × (commit t s ≡ (err e, s)))
  unfolding commit
  commit_cases s old h = elim (v.commits s old h) [
    | inl (n, answer) ↦
        inl (parse_int n, rw (send_ok t _ _ n s (v.committed s) answer (unwrap-ok n)))
    | inr (e, answer) ↦ inr (e, rw (send_err t _ _ e s s answer (unwrap-err e)))
  ]

  -- What is tried behind BEGIN, and the handler.
  abbrev tried {ℓ} : {A : Type ℓ} → Result A × S → Result A × S
  tried (r, s') = try_else (λ u. continue r (λ a. commit t >>= λ n. pure a) u) (rollback t) s'

  tried-Atomic {ℓ} :
      {A : Type ℓ} (s : S) (r : Result A) (s' : S)
      → v.snapshot s' ≡ some (v.rows s)
      → Atomic s s' (tried (r, s'))
  tried-Atomic s (err e) s' h = rolled_back s s' h
  tried-Atomic s (ok a) s' h = elim (commit_cases s' (v.rows s) h) [
    | inl (n, done) ↦ rw done (v.committed_rows s', v.committed_snapshot s')
    | inr (e, refused) ↦ rw refused (rolled_back s s' h)
  ]

  -- A transaction closes what it opened. If it returns, the rows are those that `fn` left; if it
  -- throws, because `fn` threw or COMMIT was refused, they are those from before BEGIN. The function
  -- must leave the transaction open.
  pub transaction-Atomic {ℓ} :
      {A : Type ℓ} (fn : Exec S A) (s : S)
      → v.snapshot s ≡ none
      → v.snapshot (fn (v.begun s)).1 ≡ some (v.rows s)
      → Atomic s (fn (v.begun s)).1 (transaction t fn s)
  unfolding transaction
  transaction-Atomic fn s outside open_still =
      rw (begin_lem s outside) (tried-Atomic s (fn (v.begun s)).0 (fn (v.begun s)).1 open_still)
