-- ===== src/Tests/Cluster.antt =====
-- The cluster at concrete inputs.
use cuttle_db.Prelude.{
  ◌<◌, ◌^◌, ℕ, List, [], ◌∷◌, ◌++◌, Option, none, some, ◌≡◌, refl, ok, err, Text, text, length, map,
  take, drop, ◌%◌, get_elem?,
}
use cuttle_db.Number.{decimal}
use cuttle_db.Cluster.{Options, Node, Cluster, make_nodes, connect, close, shard_by}
use cuttle_db.Cluster.Hash.{fnv1a, round, unsigned, signed, shl, ◌+ℤ◌}
use cuttle_db.Cluster.Hash.Bounds.{IsSafe, round-IsSafe}
use Prim.Native.Nat.{bit_xor}
use cuttle_db.Cluster.Hash.Reference.{fnv1a_reference, fnv1a-reference}
use cuttle_db.Cluster.Lifecycle.{IsIdle, close-connect}
use cuttle_db.Cluster.Routing.{reads, reads-length, shard_by-fnv1a}
use cuttle_db.Cluster.Write.{WriteCall, settles, Outcome, write_to_all, write_to_all-Outcome}

abbrev tcp : ℕ → Options
tcp port = record {
  transport = some (text "tcp");
  host = some (text "db");
  port = some port;
  url = none;
  auth = none;
}

-- The same endpoint with the transport left to its default.
abbrev default_tcp : ℕ → Options
default_tcp port = record (tcp port) { transport = none }

abbrev cluster : List Options → Option Options → Cluster
cluster opts primary = record {
  node_opts = opts;
  primary_opts = primary;
  nodes = [];
  primary_node = none;
  rr_idx = 0;
  made = [];
  close_calls = [];
}

abbrev three : Cluster
three = record (cluster (tcp 1 ∷ tcp 2 ∷ tcp 3 ∷ []) (some (tcp 9))) {
  nodes = make_nodes 0 (tcp 1 ∷ tcp 2 ∷ tcp 3 ∷ []);
  rr_idx = 7;
}

fnv1a_runs :
    (fnv1a [] ≡ 0x811c9dc5) × (fnv1a (text "a") ≡ 0xe40c292c) × (fnv1a (text "foobar") ≡ 0xbf9cf968)
unfolding fnv1a unsigned ◌+ℤ◌ signed shl
fnv1a_runs = (refl, refl, refl)

fnv1a-reference_example : fnv1a (text "user:42") ≡ fnv1a_reference (text "user:42") 0x811c9dc5
fnv1a-reference_example = fnv1a-reference (text "user:42")

round-IsSafe_example :
    let x = signed (bit_xor 0x811c9dc5 97) in
    IsSafe (shl x 1 +ℤ shl x 4)
    × IsSafe (shl x 1 +ℤ shl x 4 +ℤ shl x 7)
    × IsSafe (shl x 1 +ℤ shl x 4 +ℤ shl x 7 +ℤ shl x 8)
    × IsSafe (shl x 1 +ℤ shl x 4 +ℤ shl x 7 +ℤ shl x 8 +ℤ shl x 24)
    × IsSafe (x +ℤ (shl x 1 +ℤ shl x 4 +ℤ shl x 7 +ℤ shl x 8 +ℤ shl x 24))
    × (round 0x811c9dc5 97 ≡ unsigned (x +ℤ (shl x 1 +ℤ shl x 4 +ℤ shl x 7 +ℤ shl x 8 +ℤ shl x 24)))
    × (round 0x811c9dc5 97 < 2 ^ 32)
round-IsSafe_example = round-IsSafe 0x811c9dc5 97

reads-length_example :
    (reads (length three.nodes) three).0
    ≡ map some
        (drop (7 % length three.nodes) three.nodes ++ take (7 % length three.nodes) three.nodes)
unfolding make_nodes
reads-length_example = reads-length three (cc)

shard_by-fnv1a_example :
    (node : Node) × (shard_by (text "user:42") none three ≡ some node)
    × (get_elem? three.nodes (fnv1a_reference (text "user:42") 0x811c9dc5 % length three.nodes)
        ≡ some node)
unfolding make_nodes
shard_by-fnv1a_example = shard_by-fnv1a (text "user:42") three (cc)

-- The second of three nodes fails.
abbrev written : List (WriteCall ℕ)
written = settles (ok 1) ∷ settles (err (text "ro")) ∷ settles (ok 3) ∷ []

write_to_all_runs : write_to_all written ≡ err (text "writeToAll partial failure: node[1]: ro")
unfolding write_to_all decimal
write_to_all_runs = refl

write_to_all-Outcome_example : Outcome written
write_to_all-Outcome_example = write_to_all-Outcome written

abbrev no_throw : Options → Option Text
no_throw o = none

-- The second node cannot be reached.
abbrev rejection : List Node → Option Text
rejection [] = none
rejection (n ∷ []) = some (text "refused")
rejection (n ∷ (m ∷ ns)) = none

close-connect_example :
    IsIdle (close (connect no_throw rejection (cluster (tcp 1 ∷ tcp 2 ∷ []) (some (tcp 9)))).1)
close-connect_example =
    close-connect no_throw rejection (cluster (tcp 1 ∷ tcp 2 ∷ []) (some (tcp 9)))
      (record { all_closed = refl; no_nodes = refl; no_primary = refl })

-- With the transport named, the primary is the node of that endpoint; with the default transport,
-- a second client is made for it.
connect_endpoint_runs :
    (length (connect no_throw (λ ns. none) (cluster (tcp 1 ∷ tcp 2 ∷ []) (some (tcp 1)))).1.made
      ≡ 2)
    × (length
          (connect no_throw
            (λ ns. none)
            (cluster (default_tcp 1 ∷ tcp 2 ∷ []) (some (default_tcp 1)))).1.made
        ≡ 3)
unfolding connect
connect_endpoint_runs = (refl, refl)
