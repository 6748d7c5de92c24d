-- ===== src/Text/Laws.antt =====
-- Laws of splitting, joining and searching.
use cuttle_db.Prelude.{
  ℕ, true, List, [], ◌∷◌, ◌++◌, append_assoc, ◌≢◌, inl, inr, none, some, ◌≡◌, refl, sym, ap, ◌∙◌,
  arith, ◌==◌, if◌then◌else◌, Bool-cases, length, All, All-append, Lacks, Text,
}
use cuttle_db.Text.{index_of, starts_with, ends_with, drop_last, split, join, replace_all, text_eq}

pub index_of-Lacks : (c : ℕ) (s : Text) → Lacks c s → index_of c s ≡ none
unfolding index_of
index_of-Lacks c [] h = refl
index_of-Lacks c (x ∷ s) h = ground (arith, index_of-Lacks c s h.1)

pub index_of-append : (c : ℕ) (p s : Text) → Lacks c p → index_of c (p ++ c ∷ s) ≡ some (length p)
unfolding index_of
index_of-append c [] s h = ground arith
index_of-append c (x ∷ p) s h = ground (arith, index_of-append c p s h.1)

pub split-Lacks : (c : ℕ) (p : Text) → Lacks c p → split c p ≡ p ∷ []
unfolding split
split-Lacks c [] h = refl
split-Lacks c (x ∷ p) h = ground (arith, split-Lacks c p h.1)

pub split-append : (c : ℕ) (p s : Text) → Lacks c p → split c (p ++ c ∷ s) ≡ p ∷ split c s
unfolding split
split-append c [] s h = ground arith
split-append c (x ∷ p) s h = ground (arith, split-append c p s h.1)

-- Splitting a join gives the parts back.
pub split-join :
    (c : ℕ) (ps : List Text) → ps ≢ [] → All (Lacks c) ps → split c (join (c ∷ []) ps) ≡ ps
unfolding join
split-join c [] ne h = absurd (ne refl)
split-join c (p ∷ []) ne h = split-Lacks c p h.0
split-join c (p ∷ q ∷ ps) ne h =
    split-append c p _ h.0 ∙ ap (λ (r : List Text). p ∷ r) (split-join c (q ∷ ps) (cc) h.1)

pub ends_with-concat : (c : ℕ) (s : Text) → ends_with c (s ++ c ∷ []) ≡ true
unfolding ends_with
ends_with-concat c [] = ground arith
ends_with-concat c (x ∷ []) = ground arith
ends_with-concat c (x ∷ y ∷ s) = ends_with-concat c (y ∷ s)

pub drop_last-concat : (c : ℕ) (s : Text) → drop_last (s ++ c ∷ []) ≡ s
unfolding drop_last
drop_last-concat c [] = refl
drop_last-concat c (x ∷ []) = refl
drop_last-concat c (x ∷ y ∷ s) = ap (λ (r : Text). x ∷ r) (drop_last-concat c (y ∷ s))

pub starts_with-append : (p s : Text) → starts_with p (p ++ s) ≡ true
unfolding starts_with
starts_with-append [] s = refl
starts_with-append (x ∷ p) s = ground (arith, starts_with-append p s)

pub replace_all-append :
    (c : ℕ) (by s t : Text) → replace_all c by (s ++ t) ≡ replace_all c by s ++ replace_all c by t
unfolding replace_all
replace_all-append c by [] t = refl
replace_all-append c by (x ∷ s) t =
    ap (λ (r : Text). (if x == c then by else x ∷ []) ++ r) (replace_all-append c by s t)
    ∙ sym (append_assoc (if x == c then by else x ∷ []) _ _)

pub text_eq→eq : (s t : Text) → text_eq s t ≡ true → s ≡ t
unfolding text_eq
text_eq→eq [] [] h = refl
text_eq→eq (x ∷ s) (y ∷ t) h = ground (arith, text_eq→eq s t)
text_eq→eq [] (y ∷ t) h = cc
text_eq→eq (x ∷ s) [] h = cc

pub text_eq_refl : (s : Text) → text_eq s s ≡ true
unfolding text_eq
text_eq_refl [] = refl
text_eq_refl (x ∷ s) = ground (arith, text_eq_refl s)

pub join-ne-nil : (c : ℕ) (p q : Text) (ps : List Text) → join (c ∷ []) (p ∷ q ∷ ps) ≢ []
unfolding join
join-ne-nil c [] q ps h = cc
join-ne-nil c (x ∷ p) q ps h = cc

-- A split has at least one part.
pub split-cons : (c : ℕ) (s : Text) → (h : Text) × (t : List Text) × (split c s ≡ h ∷ t)
unfolding split
split-cons c [] = ([], [], refl)
split-cons c (x ∷ s) =
    let (h, t, e) = split-cons c s in
    elim (Bool-cases (x == c)) [
      | inl here ↦ ([], split c s, rw here)
      | inr later ↦ (x ∷ h, t, rw (later, e))
    ]

pub join-Lacks :
    (b : ℕ) (sep : Text) (ps : List Text) → Lacks b sep → All (Lacks b) ps → Lacks b (join sep ps)
unfolding join
join-Lacks b sep [] h k = tt
join-Lacks b sep (p ∷ []) h k = k.0
join-Lacks b sep (p ∷ q ∷ ps) h k =
    All-append _ p _ k.0 (All-append _ sep _ h (join-Lacks b sep (q ∷ ps) h k.1))
