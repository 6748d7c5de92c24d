-- ===== src/Tests/Module.antt =====
-- A module with a server of short answers, which keeps to the size of the block and to its address.
use cuttle_db.Prelude.{
  ℕ, suc, ◌+◌, ◌≤◌, true, ◌&&◌, Bool-cases, inl, inr, [], ◌∷◌, Option, none, some, ◌≡◌, refl, sym,
  ap, ◌∙◌, arith, ◌==◌, leb, if◌then◌else◌, ok, length, take, Lacks, Text, text,
}
use cuttle_db.Prelude.Outcome.{Result}
use cuttle_db.Client.Simulation.{Carries}
use cuttle_db.Link.{Server, direct}
use cuttle_db.Link.Wasm.{IsEngine, written, wasm_transport-Carries}
use cuttle_db.Text.{text_eq}
use cuttle_db.Wasm.{Engine, out_cap, wasm_transport}

-- A server with short answers in a module. The link has the size of the block in use, 0 if there is
-- none, and what was written, with the address; the only address is 1024.
abbrev counter : Server ℕ
counter = record {
  answer =
      λ cmd n. if text_eq cmd (text "PING") then (text "+OK pong", n) else (text "-ERR bad", n + 1);
  events = λ cmd n. [];
}

abbrev Buffer : Type 0
Buffer = ℕ × (ℕ × Text)

-- The entry point at the end, with the answer and the counter behind it.
abbrev store : Text → ℕ → ℕ → ℕ → Buffer × ℕ → Result (Option ℕ) × (Buffer × ℕ)
store out after p cap e =
    if p == 1024 && (cap == e.0.0 && leb (length (written out)) cap)
    then (ok (some (length (written out))), ((e.0.0, (p, written out)), after))
    else (ok none, e)

abbrev engine : Engine (Buffer × ℕ)
engine = record {
  malloc = λ n e. (1024, ((n, (0, [])), e.1));
  free = λ p e. ((if p == 1024 then 0 else e.0.0, (0, [])), e.1);
  exec_line = λ cmd p cap e. store (counter.answer cmd e.1).0 (counter.answer cmd e.1).1 p cap e;
  utf8_to_string = λ p n e. if p == e.0.1.0 then take n e.0.1.1 else [];
  write_file = λ name bytes e. e;
}

abbrev InUse : ℕ → ℕ → Buffer → Type 0
InUse p n l = (p ≡ 1024) × (l.0 ≡ n)

take_all : (s : Text) → take (length s) s ≡ s
take_all [] = refl
take_all (c ∷ s) = ap (λ (t : Text). c ∷ t) (take_all s)

some_bytes : (out : Text) → (k : ℕ) × (suc k ≡ length (written out))
some_bytes [] = (1, refl)
some_bytes (c ∷ out) = (length (written out), refl)

store-runs :
    (out : Text) (after p cap : ℕ) (l : Buffer) (n : ℕ)
    → InUse p cap l
    → length (written out) ≤ cap
    → let (r, e) = store out after p cap (l, n) in
      (k : ℕ) × (suc k ≡ length (written out))
      × (r ≡ ok (some (suc k)))
      × (engine.utf8_to_string p (suc k) e ≡ written out)
      × (e.1 ≡ after)
      × Unit {0}
      × InUse p cap e.0
store-runs out after p cap l n (at_1024, sized) h =
    let here : (p == 1024 && (cap == l.0 && leb (length (written out)) cap)) ≡ true =
      ground (arith, at_1024, sized, h) in
    let same : (p == p) ≡ true = ground arith in
    let (k, bytes) = some_bytes out in
    rw here (
      k,
      bytes,
      ap (λ (x : ℕ). ok (some x)) (sym bytes),
      rw same (ap (λ (x : ℕ). take x (written out)) bytes ∙ take_all (written out)),
      refl,
      tt,
      (at_1024, sized),
    )

counter_fits : (cmd : Text) (n : ℕ) → length (written (counter.answer cmd n).0) ≤ out_cap
unfolding text_eq
counter_fits cmd n = elim (Bool-cases (text_eq cmd (text "PING"))) [
  | inl e ↦ rw e (omega arith)
  | inr e ↦ rw e (omega arith)
]

engine-IsEngine : IsEngine engine counter (λ memory. Unit {0}) InUse length
engine-IsEngine = record {
  taken = λ n l s y. (refl, tt, (refl, refl));
  given_back = λ p n l s y block. (refl, tt);
  runs = λ cmd p cap l s one y block h.
      store-runs (counter.answer cmd s).0 (counter.answer cmd s).1 p cap l s block h;
}

wasm_transport-Carries_example :
    Carries (λ (memory : Buffer). Unit {0}) (Lacks b'\n') (wasm_transport engine) (direct counter)
wasm_transport-Carries_example =
    wasm_transport-Carries engine counter (λ memory. Unit {0}) InUse length engine-IsEngine
      (λ cmd n one. counter_fits cmd n)

-- The second command is refused by the server, and the block has been given back.
wasm_runs :
    (wasm_transport engine).send_batch (text "PING" ∷ text "NO" ∷ []) ((0, (0, [])), 4)
    ≡ (ok (text "+OK pong" ∷ text "-ERR bad" ∷ []), ((0, (0, [])), 5))
unfolding wasm_transport text_eq
wasm_runs = refl
