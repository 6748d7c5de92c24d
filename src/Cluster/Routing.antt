-- ===== src/Cluster/Routing.antt =====
-- Reads go round the nodes in turn, and a key has one node.
use mathlib.Core.List.{map-append}
use cuttle_db.Prelude.{
  ℕ, zero, suc, ◌+◌, ◌-◌, ◌%◌, ◌<◌, ◌≤◌, List, [], ◌∷◌, ◌++◌, map, Option, none, some, ◌≡◌, ◌≢◌,
  refl, sym, ap, ◌∙◌, arith, length, get_elem?, take, drop, Text,
}
use cuttle_db.Cluster.{Cluster, Node, node_at, read_round_robin, shard_by}
use cuttle_db.Cluster.Hash.{fnv1a}
use cuttle_db.Cluster.Hash.Reference.{fnv1a_reference, fnv1a-reference}

-- The nodes that `k` reads in a row give, and the cluster behind them.
pub reads : ℕ → Cluster → List (Option Node) × Cluster
reads zero c = ([], c)
reads (suc k) c = let (n, c') = read_round_robin c in let (ns, c'') = reads k c' in (n ∷ ns, c'')

node_at-mod :
    (nodes : List Node) (i : ℕ) → nodes ≢ [] → node_at nodes i ≡ get_elem? nodes (i % length nodes)
unfolding node_at
node_at-mod [] i ne = absurd (ne refl)
node_at-mod (n ∷ nodes) i ne = refl

drop-get_elem? {ℓ} :
    {A : Type ℓ} (i : ℕ) (xs : List A)
    → i < length xs
    → (x : A) × (get_elem? xs i ≡ some x) × (drop i xs ≡ x ∷ drop (suc i) xs)
drop-get_elem? i [] h = absurd (omega (arith, h))
drop-get_elem? zero (x ∷ xs) h = (x, refl, refl)
drop-get_elem? (suc i) (x ∷ xs) h = drop-get_elem? i xs (omega (arith, h))

mod-suc : (i n r : ℕ) → i % n ≡ r → r + 1 < n → (i + 1) % n ≡ r + 1
mod-suc i n r e h = grind arith

-- The cluster with a later index.
abbrev at_index : ℕ → Cluster → Cluster
at_index i c = record c { rr_idx = i }

reads-suc :
    (k : ℕ) (c : Cluster)
    → reads (suc k) c ≡ (
      node_at c.nodes c.rr_idx ∷ (reads k (at_index (c.rr_idx + 1) c)).0,
      (reads k (at_index (c.rr_idx + 1) c)).1,
    )
unfolding reads read_round_robin
reads-suc k c = refl

node_at-get_elem? :
    (nodes : List Node) (i r : ℕ)
    → r < length nodes
    → i % length nodes ≡ r
    → node_at nodes i ≡ get_elem? nodes r
unfolding node_at
node_at-get_elem? [] i r h e = absurd (omega (arith, h))
node_at-get_elem? (n ∷ nodes) i r h e = ap (get_elem? (n ∷ nodes)) e

-- What `k` reads from place `r` on give.
abbrev window : ℕ → ℕ → ℕ → Cluster → List (Option Node) × Cluster
window k r i c = (map some (take k (drop r c.nodes)), at_index i c)

reads-zero : (c : Cluster) → reads zero c ≡ ([], c)
unfolding reads
reads-zero c = refl

reads_more :
    (k r : ℕ) (c : Cluster)
    → c.rr_idx % length c.nodes ≡ r
    → r < length c.nodes
    → reads k (at_index (c.rr_idx + 1) c) ≡ window k (suc r) (c.rr_idx + 1 + k) c
    → reads (suc k) c ≡ window (suc k) r (c.rr_idx + suc k) c
reads_more k r c e h tail =
    let (x, found, rest) = drop-get_elem? r c.nodes h in
    let z : c.rr_idx + 1 + k ≡ c.rr_idx + suc k = omega arith in
    reads-suc k c
    ∙ ap {B = List (Option Node) × Cluster}
        (λ (out : List (Option Node) × Cluster). (node_at c.nodes c.rr_idx ∷ out.0, out.1)) tail
    ∙ ap {B = List (Option Node) × Cluster}
        (λ (n : Option Node).
          (n ∷ map some (take k (drop (suc r) c.nodes)), at_index (c.rr_idx + 1 + k) c))
        (node_at-get_elem? c.nodes c.rr_idx r h e ∙ found)
    ∙ ap {B = List (Option Node) × Cluster}
        (λ (ns : List Node). (map some (take (suc k) ns), at_index (c.rr_idx + 1 + k) c)) (sym rest)
    ∙ ap {B = List (Option Node) × Cluster} (λ (i : ℕ). window (suc k) r i c) z

-- Reads that do not go past the end of the list of nodes.
reads_within :
    (k r : ℕ) (c : Cluster)
    → c.rr_idx % length c.nodes ≡ r
    → r + k ≤ length c.nodes
    → reads k c ≡ window k r (c.rr_idx + k) c
reads_within zero r c e h =
    let z : c.rr_idx ≡ c.rr_idx + 0 = omega arith in
    reads-zero c ∙ ap {B = List (Option Node) × Cluster} (λ (i : ℕ). ([], at_index i c)) z
reads_within (suc zero) r c e h =
    let z : c.rr_idx + 1 ≡ c.rr_idx + 1 + 0 = omega arith in
    reads_more zero r c e (omega (arith, h)) (
      reads-zero (at_index (c.rr_idx + 1) c)
      ∙ ap {B = List (Option Node) × Cluster} (λ (i : ℕ). ([], at_index i c)) z)
reads_within (suc (suc k)) r c e h = reads_more (suc k) r c e (omega (arith, h)) (
    reads_within (suc k) (suc r) (at_index (c.rr_idx + 1) c)
      (mod-suc c.rr_idx (length c.nodes) r e (omega (arith, h)) ∙ omega arith) (omega (arith, h)))

reads-append :
    (j k : ℕ) (c : Cluster) → (reads (j + k) c).0 ≡ (reads j c).0 ++ (reads k (reads j c).1).0
reads-append zero k c =
    let z : 0 + k ≡ k = omega arith in
    ap (λ (m : ℕ). (reads m c).0) z
    ∙ ap (λ (out : List (Option Node) × Cluster). out.0 ++ (reads k out.1).0) (sym (reads-zero c))
reads-append (suc j) k c =
    let z : suc j + k ≡ suc (j + k) = omega arith in
    ap (λ (m : ℕ). (reads m c).0) z
    ∙ ap (λ (out : List (Option Node) × Cluster). out.0) (reads-suc (j + k) c)
    ∙ ap (λ (ns : List (Option Node)). node_at c.nodes c.rr_idx ∷ ns)
        (reads-append j k (at_index (c.rr_idx + 1) c))
    ∙ ap (λ (out : List (Option Node) × Cluster). out.0 ++ (reads k out.1).0) (sym (reads-suc j c))

length-pos {ℓ} : {A : Type ℓ} (xs : List A) → xs ≢ [] → 0 < length xs
length-pos [] ne = absurd (ne refl)
length-pos (x ∷ xs) ne = omega arith

take_whole {ℓ} : {A : Type ℓ} (k : ℕ) (xs : List A) → length xs ≤ k → take k xs ≡ xs
take_whole zero [] h = refl
take_whole (suc k) [] h = refl
take_whole zero (x ∷ xs) h = absurd (omega (arith, h))
take_whole (suc k) (x ∷ xs) h = ap (λ (ys : List _). x ∷ ys) (take_whole k xs (omega (arith, h)))

length-drop {ℓ} : {A : Type ℓ} (k : ℕ) (xs : List A) → length (drop k xs) ≡ length xs - k
length-drop zero xs = omega arith
length-drop (suc k) [] = omega arith
length-drop (suc k) (x ∷ xs) = omega (arith, length-drop k xs)

mod_next_round : (i n : ℕ) → 0 < n → (i + (n - i % n)) % n ≡ 0
mod_next_round i n h = grind arith

-- As many reads in a row as there are nodes give every node once: those from the place of the next
-- read to the end, and then those before it.
pub reads-length :
    (c : Cluster)
    → c.nodes ≢ []
    → (reads (length c.nodes) c).0
      ≡ map some
          (drop (c.rr_idx % length c.nodes) c.nodes ++ take (c.rr_idx % length c.nodes) c.nodes)
reads-length c ne =
    let n = length c.nodes in
    let r = c.rr_idx % n in
    let pos : 0 < n = length-pos c.nodes ne in
    let z : n ≡ n - r + r = omega (arith, pos) in
    let first : reads (n - r) c ≡ window (n - r) r (c.rr_idx + (n - r)) c =
      reads_within (n - r) r c refl (omega (arith, pos)) in
    let second : reads r (at_index (c.rr_idx + (n - r)) c) ≡ window r 0 (c.rr_idx + (n - r) + r) c =
      reads_within r 0 (at_index (c.rr_idx + (n - r)) c) (mod_next_round c.rr_idx n pos)
        (omega (arith, pos)) in
    ap (λ (m : ℕ). (reads m c).0) z
    ∙ reads-append (n - r) r c
    ∙ ap (λ (out : List (Option Node) × Cluster). out.0 ++ (reads r out.1).0) first
    ∙ ap (λ (out : List (Option Node) × Cluster). map some (take (n - r) (drop r c.nodes)) ++ out.0)
        second
    ∙ ap (λ (ns : List Node). map some ns ++ map some (take r c.nodes))
        (take_whole (n - r) (drop r c.nodes) (omega (arith, length-drop r c.nodes)))
    ∙ sym (map-append some (drop r c.nodes) (take r c.nodes))

-- Without a routing function of the caller, a key goes to the node at the place of its FNV-1a hash
-- modulo the number of nodes, and there is one.
pub shard_by-fnv1a :
    (key : Text) (c : Cluster)
    → c.nodes ≢ []
    → (node : Node) × (shard_by key none c ≡ some node)
      × (get_elem? c.nodes (fnv1a_reference key 0x811c9dc5 % length c.nodes) ≡ some node)
unfolding shard_by
shard_by-fnv1a key c ne =
    let n = length c.nodes in
    let pos : 0 < n = length-pos c.nodes ne in
    let (x, found, rest) =
      drop-get_elem? (fnv1a_reference key 0x811c9dc5 % n) c.nodes (omega (arith, pos)) in
    let same : fnv1a key % n ≡ fnv1a_reference key 0x811c9dc5 % n =
      ap (λ (h : ℕ). h % n) (fnv1a-reference key) in
    (x, node_at-get_elem? c.nodes (fnv1a key) _ (omega (arith, pos)) same ∙ found, found)
