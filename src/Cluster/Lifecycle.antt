-- ===== src/Cluster/Lifecycle.antt =====
-- `connect` and `close` of the cluster: which clients are made and kept, and that `close` of each is
-- called.
use cuttle_db.Prelude.{
  ℕ, ◌+◌, ◌<◌, true, false, List, [], ◌∷◌, ◌++◌, append-nil, append_assoc, Option, none, some, ◌≡◌,
  ◌⊎◌, inl, inr, refl, sym, ap, ◌∙◌, arith, Bool-cases, length, length-append, All, Text,
}
use cuttle_db.Cluster.{
  Options, Node, Cluster, same_endpoint, make_nodes, find_node, first_throw, connect_primary_node,
  connect_nodes, connect_primary, connect_rest, connect, includes, close_primary, close,
}

includes_none :
    (n : Node) (nodes : List Node)
    → All (λ (m : Node). m.number < n.number) nodes
    → includes nodes n ≡ false
unfolding includes
includes_none n [] h = refl
includes_none n (m ∷ ms) h = ground (arith, includes_none n ms h.1)

make_nodes-below :
    (n top : ℕ) (opts : List Options)
    → n + length opts ≡ top
    → All (λ (m : Node). m.number < top) (make_nodes n opts)
unfolding make_nodes
make_nodes-below n top [] e = tt
make_nodes-below n top (o ∷ opts) e =
    (omega (arith, e), make_nodes-below (n + 1) top opts (omega (arith, e)))

length-make_nodes : (n : ℕ) (opts : List Options) → length (make_nodes n opts) ≡ length opts
unfolding make_nodes
length-make_nodes n [] = refl
length-make_nodes n (o ∷ opts) = omega (arith, length-make_nodes (n + 1) opts)

includes-head : (m n : Node) (ms : List Node) → m ≡ n → includes (m ∷ ms) n ≡ true
unfolding includes
includes-head m n ms e = ground (arith, ap (λ (x : Node). x.number) e)

includes-tail : (m n : Node) (ms : List Node) → includes ms n ≡ true → includes (m ∷ ms) n ≡ true
unfolding includes
includes-tail m n ms e = ground (arith, e)

module _ (p o : Options) (opts : List Options) (m : Node) (ms : List Node) where
  find_node-head : same_endpoint o p ≡ true → find_node p (o ∷ opts) (m ∷ ms) ≡ some m
  unfolding find_node
  find_node-head same = rw same

  find_node-tail : same_endpoint o p ≡ false → find_node p (o ∷ opts) (m ∷ ms) ≡ find_node p opts ms
  unfolding find_node
  find_node-tail other = rw other

some-same : (m n : Node) → some m ≡ some n → m ≡ n
some-same m n e = cc

find_node-includes :
    (p : Options) (opts : List Options) (nodes : List Node) (n : Node)
    → find_node p opts nodes ≡ some n
    → includes nodes n ≡ true
unfolding find_node
find_node-includes p [] nodes n h = cc
find_node-includes p (o ∷ opts) [] n h = cc
find_node-includes p (o ∷ opts) (m ∷ ms) n h = elim (Bool-cases (same_endpoint o p)) [
  | inl same ↦ includes-head m n ms (some-same m n (sym (find_node-head p o opts m ms same) ∙ h))
  | inr other ↦
      includes-tail m n ms
        (find_node-includes p opts ms n (sym (find_node-tail p o opts m ms other) ∙ h))
]

Option-cases {ℓ} : {A : Type ℓ} (o : Option A) → (o ≡ none) ⊎ ((a : A) × (o ≡ some a))
Option-cases none = inl refl
Option-cases (some a) = inr (a, refl)

-- A cluster that holds no client: none made yet, or `close` of all of them called.
pub record IsIdle (c : Cluster) : Type 0 where
  pub all_closed : c.close_calls ≡ c.made
  pub no_nodes : c.nodes ≡ []
  pub no_primary : c.primary_node ≡ none

-- What `close` calls the close of is what was made and has had no such call.
Balanced : Cluster → Type 0
unfolding close
Balanced c = (close c).close_calls ≡ c.made

close_primary-found :
    (p : Options) (opts : List Options) (nodes : List Node) (n : Node)
    → find_node p opts nodes ≡ some n
    → close_primary nodes (some n) ≡ []
unfolding close_primary
close_primary-found p opts nodes n h = rw (find_node-includes p opts nodes n h)

close_primary-other :
    (n : Node) (nodes : List Node)
    → All (λ (m : Node). m.number < n.number) nodes
    → close_primary nodes (some n) ≡ n ∷ []
unfolding close_primary
close_primary-other n nodes h = rw (includes_none n nodes h)

-- The cluster after the first half of `connect`.
with_nodes : Cluster → List Node → Cluster
with_nodes c nodes = record c { nodes = nodes; made = c.made ++ nodes }

IsIdle-Balanced : (c : Cluster) → IsIdle c → Balanced c
unfolding Balanced close close_primary
IsIdle-Balanced c h = rw (h.all_closed, h.no_nodes, h.no_primary, append-nil)

with_nodes-Balanced : (c : Cluster) (nodes : List Node) → IsIdle c → Balanced (with_nodes c nodes)
unfolding Balanced close close_primary with_nodes
with_nodes-Balanced c nodes h = rw (h.all_closed, h.no_primary, append-nil nodes)

found-Balanced :
    (c : Cluster) (nodes : List Node) (p : Options) (n : Node)
    → IsIdle c
    → find_node p c.node_opts nodes ≡ some n
    → Balanced (record (with_nodes c nodes) { primary_node = some n })
unfolding Balanced close with_nodes
found-Balanced c nodes p n h e =
    rw (h.all_closed, close_primary-found p c.node_opts nodes n e, append-nil nodes)

other-Balanced :
    (c : Cluster) (nodes : List Node) (n : Node)
    → IsIdle c
    → All (λ (m : Node). m.number < n.number) nodes
    → Balanced
        (record (with_nodes c nodes) { primary_node = some n; made = (c.made ++ nodes) ++ n ∷ [] })
unfolding Balanced close with_nodes
other-Balanced c nodes n h below =
    rw (h.all_closed, close_primary-other n nodes below, append_assoc c.made nodes (n ∷ []))

make_nodes-made :
    (c : Cluster)
    → All
        (λ (m : Node). m.number < length (c.made ++ make_nodes (length c.made) c.node_opts))
        (make_nodes (length c.made) c.node_opts)
make_nodes-made c =
    make_nodes-below (length c.made) (length (c.made ++ make_nodes (length c.made) c.node_opts))
      c.node_opts
      (omega (
        arith,
        length-append c.made (make_nodes (length c.made) c.node_opts),
        length-make_nodes (length c.made) c.node_opts,
      ))

module _ (construction : Options → Option Text) (rejection : List Node → Option Text) where
  connect_primary-Balanced :
      (c : Cluster) (p : Options) (nodes : List Node)
      → IsIdle c
      → All (λ (m : Node). m.number < length (c.made ++ nodes)) nodes
      → Balanced
          (connect_primary construction rejection p
            (find_node p c.node_opts nodes)
            (with_nodes c nodes)).1
  unfolding connect_primary with_nodes
  connect_primary-Balanced c p nodes h below = elim (Option-cases (find_node p c.node_opts nodes)) [
    | inl other ↦
        let n : Node = record { number = length (c.made ++ nodes); options = p } in
        elim (Option-cases (construction p)) [
          | inr (e, thrown) ↦ rw (other, connect_primary, thrown) (with_nodes-Balanced c nodes h)
          | inl fine ↦ elim (Option-cases (rejection (n ∷ []))) [
            | inl up ↦
                rw (other, connect_primary, fine, connect_primary_node, up)
                  (other-Balanced c nodes n h below)
            | inr (e, down) ↦
                rw (other, connect_primary, fine, connect_primary_node, down)
                  (other-Balanced c nodes n h below)
          ]
        ]
    | inr (n, same) ↦ rw same (found-Balanced c nodes p n h same)
  ]

  connect_rest-Balanced :
      (c : Cluster) (o : Option Options) (nodes : List Node)
      → IsIdle c
      → All (λ (m : Node). m.number < length (c.made ++ nodes)) nodes
      → Balanced (connect_rest construction rejection o (with_nodes c nodes)).1
  unfolding connect_rest with_nodes
  connect_rest-Balanced c none nodes h below = with_nodes-Balanced c nodes h
  connect_rest-Balanced c (some p) nodes h below = connect_primary-Balanced c p nodes h below

  connect-Balanced : (c : Cluster) → IsIdle c → Balanced (connect construction rejection c).1
  unfolding connect with_nodes
  connect-Balanced c h =
      let nodes = make_nodes (length c.made) c.node_opts in
      elim (Option-cases (first_throw construction rejection c.node_opts)) [
        | inr (e, thrown) ↦ rw (connect, thrown) (IsIdle-Balanced c h)
        | inl fine ↦ elim (Option-cases (rejection nodes)) [
          | inl up ↦
              rw (connect, fine, connect_nodes, up)
                (connect_rest-Balanced c c.primary_opts nodes h (make_nodes-made c))
          | inr (e, down) ↦ rw (connect, fine, connect_nodes, down) (with_nodes-Balanced c nodes h)
        ]
      ]

  -- On a cluster that holds no client, `connect` and then `close` call the `close` of every client
  -- that `connect` made and kept, in the order in which they were made and each once, and leave a
  -- cluster that holds none, also when a constructor throws or connecting is rejected midway.
  pub close-connect : (c : Cluster) → IsIdle c → IsIdle (close (connect construction rejection c).1)
  unfolding close Balanced
  close-connect c h = record {
    all_closed = connect-Balanced c h;
    no_nodes = refl;
    no_primary = refl;
  }
