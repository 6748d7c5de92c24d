-- ===== src/Tests/Wasm.antt =====
-- The WASM transport over a module that echoes its lines and traps on an empty one.
use cuttle_db.Prelude.{
  ℕ, List, [], ◌∷◌, ◌++◌, Option, some, ◌≡◌, refl, ok, err, length, take, drop, Text, text,
}
use cuttle_db.Prelude.Outcome.{Result}
use cuttle_db.Transport.Router.{strip_cr}
use cuttle_db.Wasm.{Engine, exec, exec_all}
use cuttle_db.Wasm.Memory.{traced, Rounds, exec_all-Rounds, exec-strip_cr}

-- The blocks in use, and the bytes of the buffer.
abbrev Heap : Type 0
Heap = List ℕ × Text

abbrev echo_line : Text → Heap → Result (Option ℕ) × Heap
echo_line [] s = (err (text "trap"), s)
echo_line (c ∷ l) s =
    let out = text "+OK " ++ ((c ∷ l) ++ text "\r\n") in (ok (some (length out)), (s.0, out))

abbrev echo : Engine Heap
echo = record {
  malloc = λ n s. (length s.0, (length s.0 ∷ s.0, s.1));
  free = λ p s. (drop 1 s.0, s.1);
  exec_line = λ l p cap s. echo_line l s;
  utf8_to_string = λ p n s. take n s.1;
  write_file = λ name bytes s. s;
}

-- The second line traps, and the third is not run.
exec_all_runs : (exec_all echo (text "PING" ∷ [] ∷ text "INFO" ∷ []) ([], [])).0 ≡ err (text "trap")
unfolding exec_all
exec_all_runs = refl

exec_all-Rounds_example :
    Rounds echo
      (exec_all (traced echo) (text "PING" ∷ [] ∷ text "INFO" ∷ []) ((7 ∷ [], []), []))
      (exec_all echo (text "PING" ∷ [] ∷ text "INFO" ∷ []) (7 ∷ [], []))
      []
      (text "PING" ∷ [] ∷ text "INFO" ∷ [])
exec_all-Rounds_example = exec_all-Rounds echo (text "PING" ∷ [] ∷ text "INFO" ∷ []) (7 ∷ [], []) []

cr_is_stripped : (exec echo (text "PING") ([], [])).0 ≡ ok (strip_cr (text "+OK PING\r"))
cr_is_stripped = exec-strip_cr echo (text "PING") (text "+OK PING\r") 9 ([], []) refl refl
