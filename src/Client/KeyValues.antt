-- ===== src/Client/KeyValues.antt =====
-- The key-value lists that `info` and `stats` read with `parseKv`.
use mathlib.Core.List.{cons-ne-nil}
use cuttle_db.Prelude.{
  false, List, [], ◌∷◌, ◌++◌, append_assoc, append-nil, map, ◌≡◌, refl, sym, ap, ◌∙◌, arith, ok,
  take-append, drop-append, All, All-append, Lacks, Text, text,
}
use cuttle_db.Client.Exec.{Transport, pure}
use cuttle_db.Client.Schema.{Properties, put, assign, kv_token, kv_loop, parse_kv, info}
use cuttle_db.Client.Send.{send_ok, unwrap-ok}
use cuttle_db.Text.{split, join, text_eq}
use cuttle_db.Text.Laws.{index_of-append, split-join}

abbrev pub print_pair : Text × Text → Text
print_pair (k, v) = k ++ b'=' ∷ v

-- The line of a server: `key=value` words.
abbrev pub print_pairs : Properties → Text
print_pairs kvs = join (b' ' ∷ []) (map print_pair kvs)

-- A pair that can stand in such a line: no space, no `=` in the key, and not the key that JavaScript
-- takes for itself.
abbrev pub IsPair : Text × Text → Type 0
IsPair (k, v) = Lacks b'=' k × Lacks b' ' k × Lacks b' ' v × (text_eq k (text "__proto__") ≡ false)

-- No pair has the key `k`.
abbrev pub NotIn : Text → Properties → Type 0
NotIn k = All (λ (e : Text × Text). text_eq e.0 k ≡ false)

-- No two pairs have one key.
abbrev pub Distinct : Properties → Type 0
Distinct [] = Unit
Distinct ((k, v) ∷ kvs) = All (λ (e : Text × Text). text_eq k e.0 ≡ false) kvs × Distinct kvs

put-concat : (k v : Text) (m : Properties) → NotIn k m → put k v m ≡ m ++ (k, v) ∷ []
unfolding put
put-concat k v [] h = refl
put-concat k v ((j, w) ∷ m) h = rw h.0 (ap (λ (r : Properties). (j, w) ∷ r) (put-concat k v m h.1))

kv_token-print_pair :
    (k v : Text) (m : Properties)
    → IsPair (k, v)
    → NotIn k m
    → kv_token (print_pair (k, v)) m ≡ m ++ (k, v) ∷ []
unfolding kv_token assign
kv_token-print_pair k v m (e, _, _, p) h =
    rw (kv_token, index_of-append b'=' k v e, take-append k (b'=' ∷ v), drop-append k (b'=' ∷ v), p)
      (put-concat k v m h)

-- The keys of the pairs to come are not among those that were read.
extend :
    (k v : Text) (m kvs : Properties)
    → All (λ (e : Text × Text). text_eq k e.0 ≡ false) kvs
    → All (λ (e : Text × Text). NotIn e.0 m) kvs
    → All (λ (e : Text × Text). NotIn e.0 (m ++ (k, v) ∷ [])) kvs
extend k v m [] h g = tt
extend k v m ((j, w) ∷ kvs) h g =
    (All-append _ m ((k, v) ∷ []) g.0 (h.0, tt), extend k v m kvs h.1 g.1)

kv_loop-print_pairs :
    (kvs m : Properties)
    → All IsPair kvs
    → Distinct kvs
    → All (λ (e : Text × Text). NotIn e.0 m) kvs
    → kv_loop (map print_pair kvs) m ≡ m ++ kvs
unfolding kv_loop
kv_loop-print_pairs [] m p d g = sym (append-nil m)
kv_loop-print_pairs ((k, v) ∷ kvs) m p d g =
    ap (kv_loop (map print_pair kvs)) (kv_token-print_pair k v m p.0 g.0)
    ∙ kv_loop-print_pairs kvs (m ++ (k, v) ∷ []) p.1 d.1 (extend k v m kvs d.0 g.1)
    ∙ append_assoc m ((k, v) ∷ []) kvs

words-Lacks : (kvs : Properties) → All IsPair kvs → All (Lacks b' ') (map print_pair kvs)
words-Lacks [] p = tt
words-Lacks ((k, v) ∷ kvs) ((_, x, y, _), p) =
    (All-append _ k (b'=' ∷ v) x (omega arith, y), words-Lacks kvs p)

nothing-NotIn : (kvs : Properties) → All (λ (e : Text × Text). NotIn e.0 []) kvs
nothing-NotIn [] = tt
nothing-NotIn (e ∷ kvs) = (tt, nothing-NotIn kvs)

parse_kv-print_pairs :
    (kvs : Properties) → All IsPair kvs → Distinct kvs → parse_kv (print_pairs kvs) ≡ kvs
unfolding parse_kv
parse_kv-print_pairs [] p d = unfold kv_token join split in refl
parse_kv-print_pairs (e ∷ kvs) p d =
    ap (λ (toks : List Text). kv_loop toks [])
      (split-join b' ' (map print_pair (e ∷ kvs)) (cons-ne-nil _ _) (words-Lacks (e ∷ kvs) p))
    ∙ kv_loop-print_pairs (e ∷ kvs) [] p d (nothing-NotIn (e ∷ kvs))

-- `info` returns the pairs of the server's answer as they stand, each key with its value, if no two
-- have one key, no key or value holds a space, no key holds `=`, and no key is `__proto__`.
pub info-print_pairs :
    {S : Type 0} (t : Transport S) (kvs : Properties) (s s' : S)
    → All IsPair kvs
    → Distinct kvs
    → t.send (text "INFO") s ≡ (ok (text "+OK " ++ print_pairs kvs), s')
    → info t s ≡ (ok kvs, s')
unfolding info
info-print_pairs t kvs s s' p d h =
    rw (send_ok t (text "INFO") _ (print_pairs kvs) s s' h (unwrap-ok (print_pairs kvs)))
      (ap (λ (m : Properties). pure m s') (parse_kv-print_pairs kvs p d))
