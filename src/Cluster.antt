-- ===== src/Cluster.antt =====
-- The class `Cluster` of adapters/cluster.js. A node is a client, known by its number among those
-- that the cluster has made, and by its options.
pub mod Hash
pub mod Lifecycle
pub mod Routing
pub mod Write
use cuttle_db.Prelude.{
  ℕ, zero, suc, ◌+◌, ◌%◌, Bool, true, false, ◌&&◌, ◌||◌, List, [], ◌∷◌, ◌++◌, map, Option, none,
  some, ◌==◌, if◌then◌else◌, length, get_elem?, ok, err, Text, text,
}
use cuttle_db.Prelude.Outcome.{Result}
use cuttle_db.Cluster.Hash.{fnv1a}
use cuttle_db.Text.{text_eq}

-- The options of a node; `none` is an option that is not given.
pub record Options : Type 0 where
  pub transport : Option Text
  pub host : Option Text
  pub port : Option ℕ
  pub url : Option Text
  pub auth : Option Text

pub record Node : Type 0 where
  pub number : ℕ
  pub options : Options

pub record Cluster : Type 0 where
  pub node_opts : List Options
  pub primary_opts : Option Options
  pub nodes : List Node
  -- `_primary`.
  pub primary_node : Option Node
  pub rr_idx : ℕ
  -- The clients that `connect` made and kept, and those whose `close` was called, in order. A client
  -- has no socket before its own `connect` is through.
  pub made : List Node
  pub close_calls : List Node

-- `===` on strings and on ports that may be undefined.
unfoldable pub same_text : Option Text → Option Text → Bool
unfolding text_eq
same_text none none = true
same_text (some a) (some b) = text_eq a b
same_text none (some b) = false
same_text (some a) none = false

unfoldable pub same_port : Option ℕ → Option ℕ → Bool
same_port none none = true
same_port (some a) (some b) = a == b
same_port none (some b) = false
same_port (some a) none = false

unfoldable pub same_endpoint : Options → Options → Bool
unfolding same_text same_port
same_endpoint a b =
    if same_text a.transport b.transport
    then (if same_text a.transport (some (text "tcp"))
        then same_text a.host b.host && same_port a.port b.port
        else if same_text a.transport (some (text "ws"))
        then same_text a.url b.url
        else false)
    else false

-- The constructor.
unfoldable pub new_cluster : List Options → Option Options → Result Cluster
new_cluster [] primary = err (text "Cluster requires at least one node")
new_cluster (o ∷ opts) primary = ok (record {
  node_opts = o ∷ opts;
  primary_opts = primary;
  nodes = [];
  primary_node = none;
  rr_idx = 0;
  made = [];
  close_calls = [];
})

-- `opts.map(o => new CuttleDB(o))`, numbered from `n`.
unfoldable pub make_nodes : ℕ → List Options → List Node
make_nodes n [] = []
make_nodes n (o ∷ opts) = record { number = n; options = o } ∷ make_nodes (n + 1) opts

-- `this.nodes[this.nodeOpts.findIndex(o => sameEndpoint(o, primaryOpts))]`.
unfoldable pub find_node : Options → List Options → List Node → Option Node
unfolding same_endpoint
find_node p (o ∷ opts) (n ∷ nodes) = if same_endpoint o p then some n else find_node p opts nodes
find_node p _ _ = none

-- The parameters are what the constructor of a client throws on these options, if it throws, and how
-- connecting goes: the message of the rejection that comes first, if there is one among these nodes.
-- `Promise.all` rejects by it at once, and the other connects go on.
module _ (construction : Options → Option Text) (rejection : List Node → Option Text) where
  -- The first constructor that throws ends `map`.
  unfoldable pub first_throw : List Options → Option Text
  first_throw [] = none
  first_throw (o ∷ opts) = elim (construction o) [ none ↦ first_throw opts | some e ↦ some e ]

  abbrev pub connect_primary_node : Options → Cluster → Result (Unit {0}) × Cluster
  connect_primary_node p c =
      let n : Node = record { number = length c.made; options = p } in
      let c' = record c { primary_node = some n; made = c.made ++ n ∷ [] } in
      elim (rejection (n ∷ [])) [ none ↦ (ok tt, c') | some e ↦ (err e, c') ]

  -- `new CuttleDB(primaryOpts)` and its `connect`, if no node has that endpoint.
  unfoldable pub connect_primary : Options → Option Node → Cluster → Result (Unit {0}) × Cluster
  connect_primary p (some n) c = (ok tt, record c { primary_node = some n })
  connect_primary p none c = elim (construction p) [
    | none ↦ connect_primary_node p c
    | some e ↦ (err e, c)
  ]

  unfoldable pub connect_rest : Option Options → Cluster → Result (Unit {0}) × Cluster
  unfolding connect_primary find_node
  connect_rest none c = (ok tt, c)
  connect_rest (some p) c = connect_primary p (find_node p c.node_opts c.nodes) c

  -- `connect` when all the clients are made.
  abbrev pub connect_nodes : List Node → Cluster → Result (Unit {0}) × Cluster
  connect_nodes nodes c =
      let c' = record c { nodes = nodes; made = c.made ++ nodes } in
      elim (rejection nodes) [ none ↦ connect_rest c.primary_opts c' | some e ↦ (err e, c') ]

  unfoldable pub connect : Cluster → Result (Unit {0}) × Cluster
  unfolding connect_rest make_nodes first_throw
  connect c =
      let nodes = make_nodes (length c.made) c.node_opts in
      elim (first_throw c.node_opts) [ none ↦ connect_nodes nodes c | some e ↦ (err e, c) ]

abbrev or_else : Option Text → Option Text → Option Text
or_else none d = d
or_else (some a) d = some a

-- `{ auth, ...o }`.
unfoldable pub with_auth : Option Text → Options → Options
with_auth auth o = record o { auth = or_else o.auth auth }

-- The cluster that `withPrimaryAndReplicas` connects, and that of `sharded`.
unfoldable pub primary_and_replicas : Options → List Options → Option Text → Result Cluster
unfolding new_cluster with_auth
primary_and_replicas primary replicas auth =
    new_cluster (map (with_auth auth) (primary ∷ replicas)) (some (with_auth auth primary))

unfoldable pub sharded : List Options → Option Text → Result Cluster
unfolding new_cluster with_auth
sharded shards auth = new_cluster (map (with_auth auth) shards) none

unfoldable pub includes : List Node → Node → Bool
includes [] n = false
includes (m ∷ ms) n = m.number == n.number || includes ms n

-- The primary is closed by itself if it is none of the nodes.
unfoldable pub close_primary : List Node → Option Node → List Node
unfolding includes
close_primary nodes none = []
close_primary nodes (some p) = if includes nodes p then [] else p ∷ []

unfoldable pub close : Cluster → Cluster
unfolding close_primary
close c = record c {
  nodes = [];
  primary_node = none;
  close_calls = c.close_calls ++ (c.nodes ++ close_primary c.nodes c.primary_node);
}

-- The getter `primary`.
unfoldable pub primary : Option Node → Result Node
primary none = err (text "no primary configured — use Cluster.withPrimaryAndReplicas()")
primary (some n) = ok n

-- `nodes[i % nodes.length]`, which is undefined without nodes.
unfoldable pub node_at : List Node → ℕ → Option Node
node_at [] i = none
node_at (n ∷ nodes) i = get_elem? (n ∷ nodes) (i % length (n ∷ nodes))

unfoldable pub read_round_robin : Cluster → Option Node × Cluster
unfolding node_at
read_round_robin c = (node_at c.nodes c.rr_idx, record c { rr_idx = c.rr_idx + 1 })

-- `key` is the string of the key; a routing function of the caller gives a natural number.
unfoldable pub shard_index : Text → Option (Text → ℕ → ℕ) → ℕ → ℕ
shard_index key none n = fnv1a key
shard_index key (some fn) n = fn key n

unfoldable pub shard_by : Text → Option (Text → ℕ → ℕ) → Cluster → Option Node
unfolding node_at shard_index
shard_by key fn c = node_at c.nodes (shard_index key fn (length c.nodes))

-- The getter `size`.
unfoldable pub size : Cluster → ℕ
size c = length c.nodes
