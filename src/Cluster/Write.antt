-- ===== src/Cluster/Write.antt =====
-- `writeToAll` of adapters/cluster.js, on what the call of `writeFn` comes to for each node: it throws,
-- or gives a promise that `Promise.allSettled` reports with a value or the message of its error.
use mathlib.Core.List.{cons-ne-nil}
use cuttle_db.Prelude.{
  ℕ, ◌+◌, List, [], ◌∷◌, ◌++◌, map, Option, none, some, ◌≡◌, ◌⊎◌, inl, inr, refl, ap, ◌∙◌, ok, err,
  Text, text,
}
use cuttle_db.Prelude.Outcome.{Result}
use cuttle_db.Number.{decimal}
use cuttle_db.Text.{join}

-- `node[${i}]: ${message}`.
unfoldable pub node_error : ℕ → Text → Text
node_error i e = text "node[" ++ (decimal i ++ (text "]: " ++ e))

pub data WriteCall (A : Type 0) : Type 0 where
  threw : Text → WriteCall A
  settles : Result A → WriteCall A

List-cases : (es : List Text) → (es ≡ []) ⊎ ((f : Text) × (fs : List Text) × (es ≡ f ∷ fs))
List-cases [] = inl refl
List-cases (f ∷ fs) = inr (f, fs, refl)

module _ {A : Type 0} where
  -- The callback of `map`, from node `i` on: the results, and the messages that it pushes.
  unfoldable pub collect : ℕ → List (Result A) → List (Option A) × List Text
  unfolding node_error
  collect i [] = ([], [])
  collect i (ok a ∷ rest) =
      let (results, errors) = collect (i + 1) rest in (some a ∷ results, errors)
  collect i (err e ∷ rest) =
      let (results, errors) = collect (i + 1) rest in (none ∷ results, node_error i e ∷ errors)

  unfoldable pub report : List (Option A) → List Text → Result (List (Option A))
  unfolding join
  report results [] = ok results
  report results (e ∷ errors) =
      err (text "writeToAll partial failure: " ++ join (text "; ") (e ∷ errors))

  -- `this.nodes.map(writeFn)`: a call that throws ends it, and `writeToAll` rejects with that error.
  unfoldable pub start_writes : List (WriteCall A) → Result (List (Result A))
  start_writes [] = ok []
  start_writes (threw e ∷ rest) = err e
  start_writes (settles r ∷ rest) = elim (start_writes rest) [ ok rs ↦ ok (r ∷ rs) | err e ↦ err e ]

  -- What comes behind `Promise.allSettled`.
  unfoldable pub conclude_all : List (Result A) → Result (List (Option A))
  unfolding collect report
  conclude_all settled = let (results, errors) = collect 0 settled in report results errors

  unfoldable pub write_to_all : List (WriteCall A) → Result (List (Option A))
  unfolding start_writes conclude_all
  write_to_all calls = elim (start_writes calls) [
    | ok settled ↦ conclude_all settled
    | err e ↦ err e
  ]

  -- The messages of the nodes that failed, each under its own number.
  pub failures : ℕ → List (Result A) → List Text
  unfolding decimal
  failures i [] = []
  failures i (ok a ∷ rest) = failures (i + 1) rest
  failures i (err e ∷ rest) =
      (text "node[" ++ (decimal i ++ (text "]: " ++ e))) ∷ failures (i + 1) rest

  collect-ok : (i : ℕ) (xs : List A) → collect i (map ok xs) ≡ (map some xs, [])
  unfolding collect
  collect-ok i [] = refl
  collect-ok i (x ∷ xs) = rw (collect-ok (i + 1) xs)

  collect-errors : (i : ℕ) (rs : List (Result A)) → (collect i rs).1 ≡ failures i rs
  unfolding collect failures node_error
  collect-errors i [] = refl
  collect-errors i (ok a ∷ rs) = collect-errors (i + 1) rs
  collect-errors i (err e ∷ rs) =
      ap (λ (es : List Text). (text "node[" ++ (decimal i ++ (text "]: " ++ e))) ∷ es)
        (collect-errors (i + 1) rs)

  -- What the call comes to: values of all the nodes, the messages of those whose promise was rejected,
  -- or the error that a call of `writeFn` threw.
  abbrev pub Outcome : List (WriteCall A) → Type 0
  Outcome calls =
      ((xs : List A) × (calls ≡ map (λ (x : A). settles (ok x)) xs)
        × (write_to_all calls ≡ ok (map some xs)))
      ⊎ ((rs : List (Result A)) × (e : Text) × (es : List Text) × (calls ≡ map settles rs)
          × (failures 0 rs ≡ e ∷ es)
          × (write_to_all calls
              ≡ err (text "writeToAll partial failure: " ++ join (text "; ") (e ∷ es))))
      ⊎ ((rs : List (Result A)) × (e : Text) × (rest : List (WriteCall A)) × (calls
            ≡ map settles rs ++ threw e ∷ rest)
          × (write_to_all calls ≡ err e))

  all_ok : (i : ℕ) (rs : List (Result A)) → failures i rs ≡ [] → (xs : List A) × (rs ≡ map ok xs)
  unfolding failures
  all_ok i [] h = ([], refl)
  all_ok i (ok a ∷ rs) h =
      let (xs, e) = all_ok (i + 1) rs h in (a ∷ xs, ap (λ (ys : List (Result A)). ok a ∷ ys) e)
  all_ok i (err e ∷ rs) h = absurd (cons-ne-nil _ _ h)

  start_writes-settles : (rs : List (Result A)) → start_writes (map settles rs) ≡ ok rs
  unfolding start_writes
  start_writes-settles [] = refl
  start_writes-settles (r ∷ rs) = rw (start_writes-settles rs)

  start_writes-threw :
      (rs : List (Result A)) (e : Text) (rest : List (WriteCall A))
      → start_writes (map settles rs ++ threw e ∷ rest) ≡ err e
  unfolding start_writes
  start_writes-threw [] e rest = refl
  start_writes-threw (r ∷ rs) e rest = rw (start_writes-threw rs e rest)

  call-cases :
      (calls : List (WriteCall A))
      → ((rs : List (Result A)) × (calls ≡ map settles rs))
        ⊎ ((rs : List (Result A)) × (e : Text) × (rest : List (WriteCall A)) × (calls
              ≡ map settles rs ++ threw e ∷ rest))
  call-cases [] = inl ([], refl)
  call-cases (threw e ∷ rest) = inr ([], e, rest, refl)
  call-cases (settles r ∷ rest) = elim (call-cases rest) [
    | inl (rs, same) ↦ inl (r ∷ rs, ap (λ (cs : List (WriteCall A)). settles r ∷ cs) same)
    | inr (rs, e, more, same) ↦
        inr (r ∷ rs, e, more, ap (λ (cs : List (WriteCall A)). settles r ∷ cs) same)
  ]

  settles-ok :
      (xs : List A)
      → ◌≡◌ {A = List (WriteCall A)} (map settles (map ok xs)) (map (λ (x : A). settles (ok x)) xs)
  settles-ok [] = refl
  settles-ok (x ∷ xs) = ap (λ (cs : List (WriteCall A)). settles (ok x) ∷ cs) (settles-ok xs)

  settled-Outcome :
      (calls : List (WriteCall A)) (rs : List (Result A)) → calls ≡ map settles rs → Outcome calls
  unfolding write_to_all conclude_all
  settled-Outcome calls rs same = elim (List-cases (failures 0 rs)) [
    | inl none_failed ↦
        let (xs, e) = all_ok 0 rs none_failed in
        inl (
          xs,
          same ∙ ap (map settles) e ∙ settles-ok xs,
          ap write_to_all (same ∙ ap (map settles) e)
              ∙ rw (write_to_all, start_writes-settles (map ok xs), conclude_all, collect-ok 0 xs),
        )
    | inr (f, fs, failed) ↦ inr (
        inl (
          rs,
          f,
          fs,
          same,
          failed,
          ap write_to_all same
              ∙ rw (
                write_to_all,
                start_writes-settles rs,
                conclude_all,
                collect-errors 0 rs,
                failed,
              ),
        ))
  ]

  -- If every call of `writeFn` gave a promise and none was rejected, the values are returned in the
  -- order of the nodes. If each gave one and some were rejected, the call throws, and the message
  -- has `node[i]: ` and the error of each node that failed, in that order. If a call of `writeFn`
  -- threw, the call throws the error of the first that did, whatever became of the others.
  pub write_to_all-Outcome : (calls : List (WriteCall A)) → Outcome calls
  unfolding write_to_all
  write_to_all-Outcome calls = elim (call-cases calls) [
    | inl (rs, same) ↦ settled-Outcome calls rs same
    | inr (rs, e, rest, same) ↦ inr (
        inr (
          rs,
          e,
          rest,
          same,
          ap write_to_all same ∙ rw (write_to_all, start_writes-threw rs e rest),
        ))
  ]
