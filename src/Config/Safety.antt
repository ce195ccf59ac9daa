-- ===== src/Config/Safety.antt =====
-- What the validation of a cluster configuration buys: its quorums meet, and the fast path is
-- recoverable with them.
use ca_op.Prelude.{length, count, All, ℕ, ◌+◌, ◌/◌, ◌≤◌, ◌<◌, ◌≡◌, Bool, true, false, ◌&&◌, arith}
use ca_op.Quorum.{Quorum, quorum_with, is_prepare_quorum, is_accept_quorum}
use ca_op.Quorum.Intersection.{fast_quorum, recover_threshold, count_both, count_disjoint}
use ca_op.Config.{ClusterConfig, valid, validate}

abbrev pub cluster_quorum : ClusterConfig → Quorum
cluster_quorum c = quorum_with c.flexible_quorum (length c.nodes)

-- In a configuration that `validate` accepts, every prepare quorum meets every accept quorum.
pub valid-quorums_meet :
    (c : ClusterConfig) (promised accepted : ℕ → Bool)
    → validate c ≡ valid
    → is_prepare_quorum (cluster_quorum c) (count promised c.nodes) ≡ true
    → is_accept_quorum (cluster_quorum c) (count accepted c.nodes) ≡ true
    → 0 < count (λ x. promised x && accepted x) c.nodes
unfolding validate quorum_with is_prepare_quorum is_accept_quorum
valid-quorums_meet c promised accepted v p a = ground (arith, count_both promised accepted c.nodes)

-- A prepare quorum of a valid configuration is a majority, with flexible quorums too.
valid-prepare_majority :
    (c : ClusterConfig) (k : ℕ)
    → validate c ≡ valid
    → is_prepare_quorum (cluster_quorum c) k ≡ true
    → length c.nodes / 2 + 1 ≤ k
unfolding validate quorum_with is_prepare_quorum
valid-prepare_majority c k v p = ground arith

-- In a configuration that `validate` accepts, an entry with a fast quorum of voters keeps at least
-- the recovery threshold of votes among the nodes of any prepare quorum, and an entry that got the
-- votes of other nodes only stays below the threshold: recovery finds it, and nothing beside it.
pub valid-fast_recoverable :
    (c : ClusterConfig) (voted promised other : ℕ → Bool)
    → validate c ≡ valid
    → fast_quorum (length c.nodes) ≤ count voted c.nodes
    → is_prepare_quorum (cluster_quorum c) (count promised c.nodes) ≡ true
    → All (λ x. (voted x && other x) ≡ false) c.nodes
    → (recover_threshold (length c.nodes) ≤ count (λ x. voted x && promised x) c.nodes)
      × (count other c.nodes < recover_threshold (length c.nodes))
unfolding fast_quorum recover_threshold
valid-fast_recoverable c voted promised other v fast prep apart = omega (
  arith,
  count_both voted promised c.nodes,
  count_disjoint voted other c.nodes apart,
  valid-prepare_majority c (count promised c.nodes) v prep,
)
