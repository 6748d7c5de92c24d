-- ===== src/Client/Transaction.antt =====
-- `begin`, `commit`, `rollback` and `transaction` of `CuttleDB`.
pub mod Atomic
use cuttle_db.Prelude.{ℕ, List, [], ◌∷◌, ok, err, Text, text}
use cuttle_db.Prelude.Outcome.{Result}
use cuttle_db.Client.Exec.{Exec, Transport, pure, ◌>>=◌, ◌>>◌}
use cuttle_db.Client.Send.{send}
use cuttle_db.Number.{Number, parse_int}

module _ {ℓ} {S : Type 0} {A : Type ℓ} where
  -- `catch (e) { try { cleanup } catch {} throw e; }`, behind what was tried.
  abbrev pub rethrow_after : Exec S Number → Result A → Exec S A
  rethrow_after cleanup (ok a) s = (ok a, s)
  rethrow_after cleanup (err e) s = (err e, (cleanup s).1)

  abbrev pub try_else : Exec S A → Exec S Number → Exec S A
  try_else body cleanup s = let (r, s') = body s in rethrow_after cleanup r s'

module _ {S : Type 0} (t : Transport S) where
  unfoldable pub begin : Exec S (Unit {0})
  unfolding send
  begin = do body ← send t (text "BEGIN"); pure tt

  unfoldable pub commit : Exec S Number
  unfolding send
  commit = do body ← send t (text "COMMIT"); pure (parse_int body)

  unfoldable pub rollback : Exec S Number
  unfolding send
  rollback = do body ← send t (text "ROLLBACK"); pure (parse_int body)

  unfoldable pub transaction {ℓ} : {A : Type ℓ} → Exec S A → Exec S A
  unfolding begin commit rollback
  transaction fn = do begin; try_else (do r ← fn; done ← commit; pure r) rollback
