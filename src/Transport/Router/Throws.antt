-- ===== src/Transport/Router/Throws.antt =====
-- The loop `for (const cb of this._eventListeners) cb(evt);` when callbacks may throw.
use cuttle_db.Prelude.{
  ℕ, Bool, true, false, List, [], ◌∷◌, ◌++◌, map, ◌≡◌, refl, if◌then◌else◌, All,
}
use cuttle_db.Transport.Router.{Event}

-- The parameter tells which callbacks throw. The calls that the loop makes, in order, and whether it ends
-- by throwing.
unfoldable pub notify : (ℕ → Bool) → Event → List ℕ → List (ℕ × Event) × Bool
notify throws evt [] = ([], false)
notify throws evt (cb ∷ cbs) =
    let (calls, thrown) = notify throws evt cbs in
    if throws cb then ((cb, evt) ∷ [], true) else ((cb, evt) ∷ calls, thrown)

module _ (throws : ℕ → Bool) (evt : Event) where
  pub notify-calm :
      (cbs : List ℕ)
      → All (λ cb. throws cb ≡ false) cbs
      → notify throws evt cbs ≡ (map (λ (cb : ℕ). (cb, evt)) cbs, false)
  unfolding notify
  notify-calm [] h = refl
  notify-calm (cb ∷ cbs) h = rw (h.0, notify-calm cbs h.1)

  pub notify-stops :
      (before : List ℕ) (cb : ℕ) (after : List ℕ)
      → All (λ c. throws c ≡ false) before
      → throws cb ≡ true
      → notify throws evt (before ++ cb ∷ after)
        ≡ (map (λ (c : ℕ). (c, evt)) (before ++ cb ∷ []), true)
  unfolding notify
  notify-stops [] cb after h e = rw e
  notify-stops (c ∷ before) cb after h e = rw (h.0, notify-stops before cb after h.1 e)
