-- ===== src/Client/Methods.antt =====
-- The methods of `CuttleDB` over a transport that carries its commands do what they do on the
-- server, so what holds there holds over the transport.
use cuttle_db.Prelude.{
  true, ℕ, false, List, [], ◌∷◌, map, ◌≡◌, ◌≢◌, inl, refl, sym, ap, subst, ◌∙◌, arith, none, some,
  ok, err, All, Lacks, Text, text,
}
use cuttle_db.Prelude.Outcome.{Result}
use cuttle_db.Client.Exec.{Exec, Transport, pure, lift, ◌>>=◌}
use cuttle_db.Client.OneLine.{Printable, insert_command-Lacks, words-Lacks}
use cuttle_db.Client.RoundTrip.{Table, new_row, get-insert}
use cuttle_db.Client.Rows.{insert, insert_command, get}
use cuttle_db.Client.Send.{send, words, unwrap}
use cuttle_db.Client.Simulation.{
  Same, Simulates, Carries, pure-Simulates, lift-Simulates, >>=-Simulates,
}
use cuttle_db.Client.Transaction.{begin, commit, rollback, transaction, try_else, rethrow_after}
use cuttle_db.Client.Transaction.Atomic.{TxServer, Atomic, transaction-Atomic}
use cuttle_db.Number.{Number, int, is_digit, decimal, parse_int}
use cuttle_db.Number.RoundTrip.{decimal-Lacks}
use cuttle_db.Wire.Escape.{Cell, encode_row}
use cuttle_db.Wire.Row.{split_wire_row}
use cuttle_db.Wire.Row.RoundTrip.{IsClean, shown}

module _ {L S : Type 0} (Ready : L → Type 0) (t : Transport (L × S)) (d : Transport S)
    (c : Carries Ready (Lacks b'\n') t d) where
  pub send-Simulates : (cmd : Text) → Lacks b'\n' cmd → Simulates Ready (send t cmd) (send d cmd)
  unfolding send
  send-Simulates cmd h =
      >>=-Simulates Ready (λ l. lift (unwrap l)) (λ l. lift (unwrap l)) (t.send cmd) (d.send cmd)
        (c.single cmd h) (λ l. lift-Simulates Ready (unwrap l))

  -- A method that sends one command and reads the answer.
  pub call-Simulates :
      {A : Type 0} (cmd : Text) (read : Text → Result A)
      → Lacks b'\n' cmd
      → Simulates Ready
          (send t cmd >>= λ (body : Text). lift (read body))
          (send d cmd >>= λ (body : Text). lift (read body))
  call-Simulates cmd read h =
      >>=-Simulates Ready (λ body. lift (read body)) (λ body. lift (read body)) (send t cmd)
        (send d cmd) (send-Simulates cmd h) (λ body. lift-Simulates Ready (read body))

  pub insert-Simulates :
      (hid tid : ℕ) (values : List Cell)
      → All Printable values
      → Simulates Ready (insert t hid tid values) (insert d hid tid values)
  unfolding insert
  insert-Simulates hid tid values p =
      call-Simulates (insert_command hid tid values) (λ body. ok (parse_int body))
        (insert_command-Lacks b'\n' (inl refl) hid tid values p)

  pub get-Simulates :
      (hid tid row_id : ℕ) → Simulates Ready (get t hid tid row_id) (get d hid tid row_id)
  unfolding get is_digit
  get-Simulates hid tid row_id =
      call-Simulates (words (text "GET" ∷ decimal hid ∷ decimal tid ∷ decimal row_id ∷ []))
        (λ body. ok (split_wire_row body))
        (words-Lacks b'\n' (text "GET" ∷ decimal hid ∷ decimal tid ∷ decimal row_id ∷ []) (inl refl)
          (
            omega arith,
            (
              decimal-Lacks b'\n' hid refl,
              (decimal-Lacks b'\n' tid refl, (decimal-Lacks b'\n' row_id refl, tt)),
            ),
          ))

  begin-Simulates : Simulates Ready (begin t) (begin d)
  unfolding begin
  begin-Simulates = call-Simulates (text "BEGIN") (λ body. ok tt) (omega arith)

  commit-Simulates : Simulates Ready (commit t) (commit d)
  unfolding commit
  commit-Simulates = call-Simulates (text "COMMIT") (λ body. ok (parse_int body)) (omega arith)

  rollback-Simulates : Simulates Ready (rollback t) (rollback d)
  unfolding rollback
  rollback-Simulates = call-Simulates (text "ROLLBACK") (λ body. ok (parse_int body)) (omega arith)

  module _ {A : Type 0} (f : Exec (L × S) Number) (g : Exec S Number)
      (k : Simulates Ready f g) where
    rethrow-Same :
        (r : Result A) (l : L) (s : S)
        → Ready l
        → Same Ready (rethrow_after f r (l, s)) (rethrow_after g r s)
    rethrow-Same (ok a) l s y = record { result = refl; server = refl; ready = y }
    rethrow-Same (err e) l s y =
        let run = k l s y in record { result = refl; server = run.server; ready = run.ready }

    try_else-Simulates :
        (m : Exec (L × S) A) (n : Exec S A)
        → Simulates Ready m n
        → Simulates Ready (try_else m f) (try_else n g)
    try_else-Simulates m n h l s y =
        let run = h l s y in
        subst
          (λ (out : Result A × S). Same Ready (try_else m f (l, s)) (rethrow_after g out.0 out.1))
          (λ i. (run.result i, run.server i))
          (rethrow-Same (m (l, s)).0 (m (l, s)).1.0 (m (l, s)).1.1 run.ready)

  module _ {A : Type 0} (fn : Exec (L × S) A) (on_server : Exec S A)
      (same : Simulates Ready fn on_server) where
    finish-Simulates :
        (a : A)
        → Simulates Ready
            (commit t >>= λ (done : Number). pure a)
            (commit d >>= λ (done : Number). pure a)
    finish-Simulates a =
        >>=-Simulates Ready (λ done. pure a) (λ done. pure a) (commit t) (commit d) commit-Simulates
          (λ done. pure-Simulates Ready a)

    transaction-Simulates : Simulates Ready (transaction t fn) (transaction d on_server)
    unfolding transaction
    transaction-Simulates =
        >>=-Simulates Ready (λ b. try_else (fn >>= λ a. commit t >>= λ done. pure a) (rollback t))
          (λ b. try_else (on_server >>= λ a. commit d >>= λ done. pure a) (rollback d)) (begin t)
          (begin d) begin-Simulates
          (λ b.
            try_else-Simulates (rollback t) (rollback d) rollback-Simulates
              (fn >>= λ a. commit t >>= λ done. pure a)
              (on_server >>= λ a. commit d >>= λ done. pure a)
              (>>=-Simulates Ready (λ a. commit t >>= λ done. pure a)
                (λ a. commit d >>= λ done. pure a) fn on_server same finish-Simulates))

    -- Over a transport that carries commands, as those of the client do, a transaction is atomic:
    -- it closes what it opened, keeps the rows of `fn` if it returns, and restores those from before
    -- if it throws, and the connection is ready for the next call; if the connection is ready, the
    -- server outside a transaction, and `fn` does over the transport what it does on the server and
    -- leaves the transaction open.
    pub transaction_over :
        {Rows : Type 0} (v : TxServer d Rows) (l : L) (s : S)
        → Ready l
        → v.snapshot s ≡ none
        → v.snapshot (on_server (v.begun s)).1 ≡ some (v.rows s)
        → let out = transaction t fn (l, s) in
          Atomic d v s (on_server (v.begun s)).1 (out.0, out.1.1) × Ready out.1.0
    transaction_over v l s y outside open_still =
        let run = transaction-Simulates l s y in
        (
          subst (λ (out : Result A × S). Atomic d v s (on_server (v.begun s)).1 out)
              (sym (λ i. (run.result i, run.server i)))
              (transaction-Atomic d v on_server s outside open_still),
          run.ready,
        )

  -- Over a transport that carries commands, as those of the client do: `insert` of at least one
  -- cell returns the number of the new row, and `get` of it then gives the cells back, whatever
  -- strings they hold, if the connection is ready, the server accepts the row and keeps to the escape
  -- contract, and no element of a vector holds a comma, a backslash or a line break.
  pub get-insert_over :
      (hid tid : ℕ) (v : Table d hid tid) (values : List Cell) (l : L) (s : S)
      → Ready l
      → v.accepts (encode_row values) s ≡ true
      → values ≢ []
      → All IsClean values
      → All Printable values
      → let out = insert t hid tid values (l, s) in
        (out.0 ≡ ok (int false (new_row d hid tid v values s)))
        × ((get t hid tid (new_row d hid tid v values s) out.1).0 ≡ ok (map shown values))
  get-insert_over hid tid v values l s y a ne clean p =
      let (inserted, got) = get-insert d hid tid v values s a ne clean in
      let first = insert-Simulates hid tid values p l s y in
      let row = new_row d hid tid v values s in
      let (l', s') = (insert t hid tid values (l, s)).1 in
      let second = get-Simulates hid tid row l' s' first.ready in
      (
        first.result ∙ ap (λ (out : Result Number × S). out.0) inserted,
        second.result
            ∙ ap (λ (u : S). (get d hid tid row u).0)
                (first.server ∙ ap (λ (out : Result Number × S). out.1) inserted)
            ∙ ap (λ (out : Result (List Text) × S). out.0) got,
      )
