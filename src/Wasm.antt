-- ===== src/Wasm.antt =====
-- `WasmTransport` of wasm/cuttledb.mjs (adapters/wasm/cuttledb.mjs has the same code), and the
-- `loadSnapshot` that `connect` adds to the client. The module that Emscripten builds is a parameter.
pub mod Memory
use cuttle_db.Prelude.{
  ℕ, zero, suc, ◌^◌, List, [], ◌∷◌, Option, none, some, if◌then◌else◌, ok, err, Text, text,
}
use cuttle_db.Prelude.Outcome.{Result}
use cuttle_db.Client.Exec.{Exec, Transport, pure, ◌>>=◌}
use cuttle_db.Client.Send.{send, words}
use cuttle_db.Number.{Number, parse_int}
use cuttle_db.Text.{ends_with, drop_last}

-- `OUT_CAP`.
abbrev pub out_cap : ℕ
out_cap = 2 ^ 16

-- What the transport calls of the module, on the module's state.
pub record Engine (E : Type 0) : Type 0 where
  pub malloc : ℕ → E → ℕ × E
  pub free : ℕ → E → E
  -- The entry point `cuttledb_exec_line` on a line, a pointer and a capacity: the number of bytes
  -- that it wrote, with `none` for a negative number, or a trap.
  pub exec_line : Text → ℕ → ℕ → E → Result (Option ℕ) × E
  pub utf8_to_string : ℕ → ℕ → E → Text
  pub write_file : Text → Text → E → E

-- `s.replace(/\r?\n$/, "")`.
unfoldable pub strip_newline : Text → Text
unfolding ends_with drop_last
strip_newline s =
    if ends_with b'\n' s
    then (let l = drop_last s in if ends_with b'\r' l then drop_last l else l)
    else s

module _ {E : Type 0} (m : Engine E) where
  -- `if (n <= 0) return ""`, and else the text of the bytes that were written.
  unfoldable pub read_out : Result (Option ℕ) → ℕ → E → Result Text
  unfolding strip_newline
  read_out (err e) p s = err e
  read_out (ok none) p s = ok []
  read_out (ok (some zero)) p s = ok []
  read_out (ok (some (suc n))) p s = ok (strip_newline (m.utf8_to_string p (suc n) s))

  -- `_exec`: the buffer is freed also when the call traps.
  unfoldable pub exec : Text → Exec E Text
  unfolding read_out
  exec line s =
      let (p, s1) = m.malloc out_cap s in
      let (n, s2) = m.exec_line line p out_cap s1 in (read_out n p s2, m.free p s2)

  -- `cmds.map((c) => this._exec(c))`: a trap ends it.
  unfoldable pub exec_all : List Text → Exec E (List Text)
  unfolding exec
  exec_all [] = pure []
  exec_all (c ∷ cs) = do line ← exec c; lines ← exec_all cs; pure (line ∷ lines)

  unfoldable pub wasm_transport : Transport E
  unfolding exec exec_all
  wasm_transport = record { send = exec; send_batch = exec_all }

  -- `db.loadSnapshot(bytes, name)`.
  unfoldable pub load_snapshot : Text → Text → Exec E Number
  unfolding wasm_transport send words
  load_snapshot bytes name s =
      (do body ← send wasm_transport (words (text "LOAD" ∷ name ∷ [])); pure (parse_int body))
        (m.write_file name bytes s)
