-- ===== src/Wasm/Memory.antt =====
-- The WASM transport gives back the memory that it takes, and takes off the end of the line that the
-- TCP transport takes off.
use cuttle_db.Prelude.{
  ℕ, zero, suc, List, [], ◌∷◌, ◌++◌, append_assoc, append-nil, map, Option, none, some, ◌≡◌, ◌⊎◌,
  inl, inr, refl, sym, ap, subst, ◌∙◌, ok, err, Text,
}
use cuttle_db.Prelude.Outcome.{Result}
use cuttle_db.Client.Exec.{continue, pure, ◌>>=◌}
use cuttle_db.Text.Laws.{ends_with-concat, drop_last-concat}
use cuttle_db.Transport.Router.{strip_cr}
use cuttle_db.Wasm.{Engine, out_cap, strip_newline, read_out, exec, exec_all}

-- What a call of the module has to do with its memory: the size that is asked for and the pointer,
-- the line with the pointer and the capacity, or the pointer that is given back.
pub data HeapCall : Type 0 where
  took : ℕ → ℕ → HeapCall
  ran : Text → ℕ → ℕ → HeapCall
  gave : ℕ → HeapCall

-- A module that keeps a list of these calls beside its state, and else does what `m` does.
abbrev pub traced : {E : Type 0} → Engine E → Engine (E × List HeapCall)
traced m = record {
  malloc = λ n st. let (p, s) = m.malloc n st.0 in (p, (s, st.1 ++ took n p ∷ []));
  free = λ p st. (m.free p st.0, st.1 ++ gave p ∷ []);
  exec_line = λ line p cap st.
      let (r, s) = m.exec_line line p cap st.0 in (r, (s, st.1 ++ ran line p cap ∷ []));
  utf8_to_string = λ p n st. m.utf8_to_string p n st.0;
  write_file = λ name bytes st. (m.write_file name bytes st.0, st.1);
}

-- One line: a block of `out_cap` bytes is taken, the engine gets it with its size, and it is given
-- back.
abbrev pub rounds : List (Text × ℕ) → List HeapCall
rounds [] = []
rounds ((line, p) ∷ more) = took out_cap p ∷ (ran line p out_cap ∷ (gave p ∷ rounds more))

module _ {E : Type 0} (m : Engine E) where
  read_out-traced :
      (n : Result (Option ℕ)) (p : ℕ) (s : E) (log : List HeapCall)
      → read_out (traced m) n p (s, log) ≡ read_out m n p s
  unfolding read_out
  read_out-traced (err e) p s log = refl
  read_out-traced (ok none) p s log = refl
  read_out-traced (ok (some zero)) p s log = refl
  read_out-traced (ok (some (suc n))) p s log = refl

  exec-traced :
      (line : Text) (s : E) (log : List HeapCall)
      → exec (traced m) line (s, log) ≡ (
        (exec m line s).0,
        ((exec m line s).1, log ++ rounds ((line, (m.malloc out_cap s).0) ∷ [])),
      )
  unfolding exec
  exec-traced line s log =
      let (p, s1) = m.malloc out_cap s in
      let (n, s2) = m.exec_line line p out_cap s1 in
      let calls = ((log ++ took out_cap p ∷ []) ++ ran line p out_cap ∷ []) ++ gave p ∷ [] in
      ap (λ (r : Result Text). (r, (m.free p s2, calls))) (read_out-traced n p s2 _)
      ∙ ap (λ (l : List HeapCall). (read_out m n p s2, (m.free p s2, l)))
          (append_assoc (log ++ took out_cap p ∷ []) (ran line p out_cap ∷ []) (gave p ∷ [])
            ∙ append_assoc log (took out_cap p ∷ []) (ran line p out_cap ∷ gave p ∷ []))

  -- A run with the calls `log` in front, beside the run of the module itself: the lines that were
  -- run, each in a round, and the others, which are none unless there was an error.
  abbrev pub Rounds :
      Result (List Text) × (E × List HeapCall)
      → Result (List Text) × E
      → List HeapCall
      → List Text
      → Type 0
  Rounds out own log cmds =
      (runs : List (Text × ℕ)) × (rest : List Text) × (cmds
        ≡ map (λ (r : Text × ℕ). r.0) runs ++ rest)
      × (out ≡ (own.0, (own.1, log ++ rounds runs)))
      × ((rest ≡ []) ⊎ ((e : Text) × (own.0 ≡ err e)))

  onto_each :
      (line : Text) (r : Result (List Text)) (s : E) (calls : List HeapCall)
      → continue {S = E × List HeapCall} r (λ lines st. (ok (line ∷ lines), st)) (s, calls) ≡ (
        (continue r (λ lines s'. (ok (line ∷ lines), s')) s).0,
        ((continue r (λ lines s'. (ok (line ∷ lines), s')) s).1, calls),
      )
  onto_each line (ok lines) s calls = refl
  onto_each line (err e) s calls = refl

  stays_error :
      (line : Text) (r : Result (List Text)) (s : E)
      → (e : Text) × (r ≡ err e)
      → (e : Text) × ((continue r (λ lines s'. (ok (line ∷ lines), s')) s).0 ≡ err e)
  stays_error line r s (e, same) = (e, rw same)

  exec_all-step :
      (r : Result Text) (line : Text) (p : ℕ) (cs : List Text) (s : E) (log : List HeapCall)
      → Rounds
          (exec_all (traced m) cs (s, log ++ rounds ((line, p) ∷ [])))
          (exec_all m cs s)
          (log ++ rounds ((line, p) ∷ []))
          cs
      → Rounds
          (continue {S = E × List HeapCall} r
            (λ reply. exec_all (traced m) cs >>= λ lines. pure (reply ∷ lines))
            (s, log ++ rounds ((line, p) ∷ [])))
          (continue r (λ reply. exec_all m cs >>= λ lines. pure (reply ∷ lines)) s)
          log
          (line ∷ cs)
  exec_all-step (err e) line p cs s log h = ((line, p) ∷ [], cs, refl, refl, inr (e, refl))
  exec_all-step (ok reply) line p cs s log (runs, rest, same, out, done) =
      let (replies, s') = exec_all m cs s in
      (
        (line, p) ∷ runs,
        rest,
        ap (λ (ls : List Text). line ∷ ls) same,
        ap
              (λ (x : Result (List Text) × (E × List HeapCall)).
                continue {S = E × List HeapCall} x.0 (λ lines st. (ok (reply ∷ lines), st)) x.1)
              out
            ∙ onto_each reply replies s' _
            ∙ ap
                (λ (calls : List HeapCall). (
                  (continue replies (λ lines s1. (ok (reply ∷ lines), s1)) s').0,
                  ((continue replies (λ lines s1. (ok (reply ∷ lines), s1)) s').1, calls),
                ))
                (append_assoc log (rounds ((line, p) ∷ [])) (rounds runs)),
        (elim done [ inl all ↦ inl all | inr failed ↦ inr (stays_error reply replies s' failed) ]),
      )

  -- Whatever the module does, a batch runs the lines of its front in order, all of them unless it
  -- throws. For each it takes a block of `OUT_CAP` bytes, gives the engine that block with its size,
  -- and gives the same block back before the next is taken, once, also for a line on which the engine
  -- traps; and it makes no other calls of these.
  pub exec_all-Rounds :
      (cmds : List Text) (s : E) (log : List HeapCall)
      → Rounds (exec_all (traced m) cmds (s, log)) (exec_all m cmds s) log cmds
  unfolding exec_all
  exec_all-Rounds [] s log =
      ([], [], refl, ap (λ (l : List HeapCall). (ok [], (s, l))) (sym (append-nil log)), inl refl)
  exec_all-Rounds (c ∷ cs) s log =
      let p = (m.malloc out_cap s).0 in
      subst
        (λ (x : Result Text × (E × List HeapCall)).
          Rounds
            (continue {S = E × List HeapCall} x.0
              (λ reply. exec_all (traced m) cs >>= λ lines. pure (reply ∷ lines)) x.1)
            (continue (exec m c s).0 (λ reply. exec_all m cs >>= λ lines. pure (reply ∷ lines))
              (exec m c s).1)
            log (c ∷ cs))
        (sym (exec-traced c s log))
        (exec_all-step (exec m c s).0 c p cs (exec m c s).1 log
          (exec_all-Rounds cs (exec m c s).1 (log ++ rounds ((c, p) ∷ []))))

strip_newline-strip_cr : (l : Text) → strip_newline (l ++ b'\n' ∷ []) ≡ strip_cr l
unfolding strip_newline strip_cr
strip_newline-strip_cr l = rw (ends_with-concat b'\n' l, drop_last-concat b'\n' l)

-- When the engine writes a line and a newline, the transport gives the text that the TCP transport
-- hands on for the same bytes: the line without its newline and without one CR before it.
pub exec-strip_cr :
    {E : Type 0} (m : Engine E) (cmd l : Text) (n : ℕ) (s : E)
    → (m.exec_line cmd (m.malloc out_cap s).0 out_cap (m.malloc out_cap s).1).0 ≡ ok (some (suc n))
    → m.utf8_to_string
        (m.malloc out_cap s).0
        (suc n)
        (m.exec_line cmd (m.malloc out_cap s).0 out_cap (m.malloc out_cap s).1).1
      ≡ l ++ b'\n' ∷ []
    → (exec m cmd s).0 ≡ ok (strip_cr l)
unfolding exec read_out
exec-strip_cr m cmd l n s written content = rw (written, content) (ap ok (strip_newline-strip_cr l))
