-- ===== src/Link/Wasm.antt =====
-- `WasmTransport` with a server compiled into the module: the engine's memory is the state of the
-- connection.
use cuttle_db.Prelude.{
  ℕ, suc, ◌≤◌, List, [], ◌∷◌, ◌++◌, append_assoc, Option, some, ◌≡◌, refl, sym, ap, ◌∙◌, ok, All,
  Lacks, Text,
}
use cuttle_db.Prelude.Outcome.{Result}
use cuttle_db.Client.Exec.{pure, ◌>>=◌}
use cuttle_db.Client.Simulation.{Simulates, Carries, pure-Simulates, >>=-Simulates}
use cuttle_db.Link.{Server, replies, direct}
use cuttle_db.Text.Laws.{ends_with-concat, drop_last-concat}
use cuttle_db.Wasm.{Engine, out_cap, strip_newline, read_out, exec, exec_all, wasm_transport}

-- The bytes that the engine writes for an answer.
abbrev pub written : Text → Text
written answer = answer ++ b'\r' ∷ b'\n' ∷ []

-- What the SDK relies on, in a module that does not run out of memory (`Ready`). The allocator gives
-- a block of the size asked for (`Block` is that the pointer is one in use, of this size), takes it
-- back, and does not touch the data. The entry point, on a block with its size, writes the answer to
-- the line and CR LF behind it into the block, if they fit, and gives the number of their bytes, and
-- `UTF8ToString` reads them there. The size of a text is that of its UTF-8.
pub record IsEngine {L S : Type 0} (m : Engine (L × S)) (v : Server S) (Ready : L → Type 0)
    (Block : ℕ → ℕ → L → Type 0) (size : Text → ℕ) : Type 0 where
  pub taken :
      (n : ℕ) (l : L) (s : S)
      → Ready l
      → let (p, e) = m.malloc n (l, s) in (e.1 ≡ s) × Ready e.0 × Block p n e.0
  pub given_back :
      (p n : ℕ) (l : L) (s : S)
      → Ready l
      → Block p n l
      → ((m.free p (l, s)).1 ≡ s) × Ready (m.free p (l, s)).0
  pub runs :
      (cmd : Text) (p cap : ℕ) (l : L) (s : S)
      → Lacks b'\n' cmd
      → Ready l
      → Block p cap l
      → size (written (v.answer cmd s).0) ≤ cap
      → let (n, e) = m.exec_line cmd p cap (l, s) in
        (k : ℕ) × (suc k ≡ size (written (v.answer cmd s).0))
        × (n ≡ ok (some (suc k)))
        × (m.utf8_to_string p (suc k) e ≡ written (v.answer cmd s).0)
        × (e.1 ≡ (v.answer cmd s).1)
        × Ready e.0
        × Block p cap e.0

strip_newline-crlf : (l : Text) → strip_newline (l ++ b'\r' ∷ b'\n' ∷ []) ≡ l
unfolding strip_newline
strip_newline-crlf l =
    ap strip_newline (sym (append_assoc l (b'\r' ∷ []) (b'\n' ∷ [])))
    ∙ rw
        (
          ends_with-concat b'\n' (l ++ b'\r' ∷ []),
          drop_last-concat b'\n' (l ++ b'\r' ∷ []),
          ends_with-concat b'\r' l,
          drop_last-concat b'\r' l,
        )
        refl

module _ {L S : Type 0} (m : Engine (L × S)) (v : Server S) (Ready : L → Type 0)
    (Block : ℕ → ℕ → L → Type 0) (size : Text → ℕ) (h : IsEngine m v Ready Block size)
    (fits : (cmd : Text) (s : S)
      → Lacks b'\n' cmd
      → size (written (v.answer cmd s).0) ≤ out_cap) where
  exec-Simulates :
      (cmd : Text) → Lacks b'\n' cmd → Simulates Ready (exec m cmd) ((direct v).send cmd)
  unfolding exec direct read_out
  exec-Simulates cmd one l s y =
      let (p, e1) = m.malloc out_cap (l, s) in
      let (same, ready, block) = h.taken out_cap l s y in
      let (k, sized, wrote, content, after, ready', block') =
        h.runs cmd p out_cap e1.0 e1.1 one ready block (fits cmd e1.1 one) in
      let e2 = (m.exec_line cmd p out_cap e1).1 in
      let (kept, ready'') = h.given_back p out_cap e2.0 e2.1 ready' block' in
      record {
        result =
            ap (λ (n : Result (Option ℕ)). read_out m n p e2) wrote
            ∙ ap (λ (out : Text). ok (strip_newline out)) content
            ∙ ap ok (strip_newline-crlf (v.answer cmd e1.1).0)
            ∙ ap (λ (t : S). ok (v.answer cmd t).0) same;
        server = kept ∙ after ∙ ap (λ (t : S). (v.answer cmd t).1) same;
        ready = ready'';
      }

  exec_all-Simulates :
      (cmds : List Text)
      → All (Lacks b'\n') cmds
      → Simulates Ready (exec_all m cmds) ((direct v).send_batch cmds)
  unfolding exec_all direct replies
  exec_all-Simulates [] one = pure-Simulates Ready []
  exec_all-Simulates (c ∷ cs) one =
      >>=-Simulates Ready (λ line. exec_all m cs >>= λ lines. pure (line ∷ lines))
        (λ line. (direct v).send_batch cs >>= λ lines. pure (line ∷ lines)) (exec m c)
        ((direct v).send c) (exec-Simulates c one.0)
        (λ line.
          >>=-Simulates Ready (λ lines. pure (line ∷ lines)) (λ lines. pure (line ∷ lines))
            (exec_all m cs) ((direct v).send_batch cs) (exec_all-Simulates cs one.1)
            (λ lines. pure-Simulates Ready (line ∷ lines)))

  -- A client over the WASM transport sees the server in the module itself, if the module never runs
  -- out of memory, the allocator gives blocks of the size asked for and leaves the data alone, the engine answers each line by a line
  -- with CR LF behind that it writes into the block it is given, if they fit, and every answer fits
  -- the 64 KiB of `OUT_CAP`: a command without a newline returns the answer, a batch of such the
  -- answers in order, and the module is ready for the next call.
  pub wasm_transport-Carries : Carries Ready (Lacks b'\n') (wasm_transport m) (direct v)
  unfolding wasm_transport
  wasm_transport-Carries = record {
    single = exec-Simulates;
    several = λ cmd cmds. exec_all-Simulates (cmd ∷ cmds);
  }
