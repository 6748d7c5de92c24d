-- ===== src/Link/BatchInsert.antt =====
-- `insertBatch`, which sends all its commands at once, beside a loop of `insert`.
use cuttle_db.Prelude.{
  ℕ, List, [], ◌∷◌, map, ◌≡◌, ◌⊎◌, inl, inr, refl, sym, ap, subst, ◌∙◌, ok, err, traverse, All,
  Lacks, Text,
}
use cuttle_db.Prelude.Outcome.{Result}
use cuttle_db.Client.Exec.{Exec, Transport, pure, lift, continue, ◌>>=◌}
use cuttle_db.Client.OneLine.{Printable, insert_command-Lacks}
use cuttle_db.Client.Rows.{insert, insert_batch, insert_command}
use cuttle_db.Client.Send.{send, send_batch, unwrap}
use cuttle_db.Client.Simulation.{Simulates, Carries, pure-Simulates, lift-Simulates, >>=-Simulates}
use cuttle_db.Link.{Server, replies, direct}
use cuttle_db.Number.{Number, parse_int}
use cuttle_db.Wire.Escape.{Cell}

-- One row after the other, up to the first that is refused.
unfoldable pub insert_each :
    {S : Type 0} → Transport S → ℕ → ℕ → List (List Cell) → Exec S (List Number)
unfolding insert
insert_each t hid tid [] = pure []
insert_each t hid tid (row ∷ rows) = do
  n ← insert t hid tid row
  ns ← insert_each t hid tid rows
  pure (n ∷ ns)

abbrev as_numbers : Result (List Text) → Result (List Number)
as_numbers (ok bodies) = ok (map parse_int bodies)
as_numbers (err e) = err e

abbrev onto : Number → Result (List Number) → Result (List Number)
onto n (ok ns) = ok (n ∷ ns)
onto n (err e) = err e

abbrev onto_text : Text → Result (List Text) → Result (List Text)
onto_text b (ok bs) = ok (b ∷ bs)
onto_text b (err e) = err e

onto-as_numbers :
    (b : Text) (r : Result (List Text))
    → as_numbers (onto_text b r) ≡ onto (parse_int b) (as_numbers r)
onto-as_numbers b (ok bs) = refl
onto-as_numbers b (err e) = refl

continue-onto :
    {S : Type 0} (n : Number) (r : Result (List Number)) (s : S)
    → continue r (λ ns. pure (n ∷ ns)) s ≡ (onto n r, s)
continue-onto n (ok ns) s = refl
continue-onto n (err e) s = refl

continue-as_numbers :
    {S : Type 0} (r : Result (List Text)) (s : S)
    → continue r (λ bodies. pure (map parse_int bodies)) s ≡ (as_numbers r, s)
continue-as_numbers (ok bodies) s = refl
continue-as_numbers (err e) s = refl

onto_text-cases :
    (b : Text) (r : Result (List Text))
    → (elim r [ ok bs ↦ ok (b ∷ bs) | err e ↦ err e ]) ≡ onto_text b r
onto_text-cases b (ok bs) = refl
onto_text-cases b (err e) = refl

traverse-cons :
    (l b : Text) (ls : List Text)
    → unwrap l ≡ ok b
    → traverse unwrap (l ∷ ls) ≡ onto_text b (traverse unwrap ls)
unfolding traverse
traverse-cons l b ls h = rw (traverse, h) (onto_text-cases b (traverse unwrap ls))

traverse-err : (l e : Text) (ls : List Text) → unwrap l ≡ err e → traverse unwrap (l ∷ ls) ≡ err e
unfolding traverse
traverse-err l e ls h = rw (traverse, h) refl

-- On the server: what `insert_batch` does.
module _ {S : Type 0} (v : Server S) (hid tid : ℕ) where
  abbrev commands : List (List Cell) → List Text
  commands rows = map (insert_command hid tid) rows

  insert_batch_lem :
      (rows : List (List Cell)) (s : S)
      → insert_batch (direct v) hid tid rows s ≡ (
        as_numbers (traverse unwrap (replies v (commands rows) s).0),
        (replies v (commands rows) s).1,
      )
  unfolding insert_batch send_batch direct
  insert_batch_lem rows s = continue-as_numbers (traverse unwrap (replies v (commands rows) s).0) _

  -- The results agree, and the states if the loop goes through.
  abbrev pub Agrees : List (List Cell) → S → Type 0
  Agrees rows s =
      let (batch, s') = insert_batch (direct v) hid tid rows s in
      let (each, s'') = insert_each (direct v) hid tid rows s in
      (batch ≡ each) × (((e : Text) × (each ≡ err e)) ⊎ (s' ≡ s''))

  -- The loop at a row that is taken, and at one that is refused.
  insert_each-ok :
      (row : List Cell) (rows : List (List Cell)) (s : S) (b : Text)
      → unwrap (v.answer (insert_command hid tid row) s).0 ≡ ok b
      → let s' = (v.answer (insert_command hid tid row) s).1 in
        insert_each (direct v) hid tid (row ∷ rows) s ≡ (
          onto (parse_int b) (insert_each (direct v) hid tid rows s').0,
          (insert_each (direct v) hid tid rows s').1,
        )
  unfolding insert_each insert send direct
  insert_each-ok row rows s b h = rw h (continue-onto (parse_int b) _ _)

  insert_each-err :
      (row : List Cell) (rows : List (List Cell)) (s : S) (e : Text)
      → unwrap (v.answer (insert_command hid tid row) s).0 ≡ err e
      → (insert_each (direct v) hid tid (row ∷ rows) s).0 ≡ err e
  unfolding insert_each insert send direct
  insert_each-err row rows s e h = rw h refl

  -- The same, from the replies.
  abbrev Follows : List (List Cell) → S → Type 0
  Follows rows s =
      let (answers, s') = replies v (commands rows) s in
      let (each, s'') = insert_each (direct v) hid tid rows s in
      (as_numbers (traverse unwrap answers) ≡ each) × (((e : Text) × (each ≡ err e)) ⊎ (s' ≡ s''))

  Follows-cons :
      (row : List Cell) (rows : List (List Cell)) (s : S) (r : Result Text)
      → unwrap (v.answer (insert_command hid tid row) s).0 ≡ r
      → Follows rows (v.answer (insert_command hid tid row) s).1
      → Follows (row ∷ rows) s
  unfolding replies
  Follows-cons row rows s (err e) h k =
      let refused = insert_each-err row rows s e h in
      (ap as_numbers (traverse-err _ e _ h) ∙ sym refused, inl (e, refused))
  Follows-cons row rows s (ok b) h (same, after) =
      let taken = insert_each-ok row rows s b h in
      (
        ap as_numbers (traverse-cons _ b _ h)
            ∙ onto-as_numbers b _
            ∙ ap (onto (parse_int b)) same
            ∙ sym (ap (λ (out : Result (List Number) × S). out.0) taken),
        elim after [
          | inl (e, z) ↦
              inl (
                e,
                ap (λ (out : Result (List Number) × S). out.0) taken ∙ ap (onto (parse_int b)) z,
              )
          | inr z ↦ inr (z ∙ sym (ap (λ (out : Result (List Number) × S). out.1) taken))
        ],
      )

  follows : (rows : List (List Cell)) (s : S) → Follows rows s
  unfolding replies
  follows [] s = (unfold traverse insert_each in refl, inr (unfold insert_each in refl))
  follows (row ∷ rows) s = Follows-cons row rows s _ refl (follows rows _)

  insert_batch-Agrees : (rows : List (List Cell)) (s : S) → Agrees rows s
  insert_batch-Agrees rows s =
      let (each, s'') = insert_each (direct v) hid tid rows s in
      subst
        (λ (out : Result (List Number) × S).
          (out.0 ≡ each) × (((e : Text) × (each ≡ err e)) ⊎ (out.1 ≡ s'')))
        (sym (insert_batch_lem rows s)) (follows rows s)

module _ {L S : Type 0} (Ready : L → Type 0) (t : Transport (L × S)) (v : Server S)
    (c : Carries Ready (Lacks b'\n') t (direct v)) where
  all-Lacks :
      (hid tid : ℕ) (rows : List (List Cell))
      → All (All Printable) rows
      → All (Lacks b'\n') (map (insert_command hid tid) rows)
  all-Lacks hid tid [] p = tt
  all-Lacks hid tid (row ∷ rows) p =
      (insert_command-Lacks b'\n' (inl refl) hid tid row p.0, all-Lacks hid tid rows p.1)

  insert_batch-Simulates :
      (hid tid : ℕ) (row : List Cell) (rows : List (List Cell))
      → All (All Printable) (row ∷ rows)
      → Simulates Ready
          (insert_batch t hid tid (row ∷ rows))
          (insert_batch (direct v) hid tid (row ∷ rows))
  unfolding insert_batch send_batch
  insert_batch-Simulates hid tid row rows p =
      let cmds = map (insert_command hid tid) (row ∷ rows) in
      >>=-Simulates Ready (λ bodies. pure (map parse_int bodies))
        (λ bodies. pure (map parse_int bodies)) (send_batch t cmds) (send_batch (direct v) cmds)
        (>>=-Simulates Ready (λ answers. lift (traverse unwrap answers))
          (λ answers. lift (traverse unwrap answers)) (t.send_batch cmds)
          ((direct v).send_batch cmds) (c.several _ _ (all-Lacks hid tid (row ∷ rows) p))
          (λ answers. lift-Simulates Ready (traverse unwrap answers)))
        (λ bodies. pure-Simulates Ready (map parse_int bodies))

  -- Over a transport that carries commands, as those of the client do, `insertBatch` of at least one
  -- row returns or throws what inserting the rows one after the other on the server would, and leaves
  -- the server as that would if it goes through; and the connection is ready for the next call. The
  -- connection is to be ready, and the elements of vectors are to print on one line.
  pub insert_batch-insert_each :
      (hid tid : ℕ) (row : List Cell) (rows : List (List Cell)) (l : L) (s : S)
      → Ready l
      → All (All Printable) (row ∷ rows)
      → let (batch, (l', s')) = insert_batch t hid tid (row ∷ rows) (l, s) in
        let (each, s'') = insert_each (direct v) hid tid (row ∷ rows) s in
        (batch ≡ each) × (((e : Text) × (each ≡ err e)) ⊎ (s' ≡ s'')) × Ready l'
  insert_batch-insert_each hid tid row rows l s y p =
      let run = insert_batch-Simulates hid tid row rows p l s y in
      let (same, after) = insert_batch-Agrees v hid tid (row ∷ rows) s in
      (run.result ∙ same, elim after [ inl z ↦ inl z | inr z ↦ inr (run.server ∙ z) ], run.ready)
