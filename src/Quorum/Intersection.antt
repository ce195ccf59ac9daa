-- ===== src/Quorum/Intersection.antt =====
-- Why the fast path is safe: how the fast quorum of `try_fast_decide_idx` and the recovery
-- threshold of `handle_majority_promises` (lib/omnipaxos/src/sequence_paxos/leader.rs) meet the
-- prepare quorums of a valid configuration.
use ca_op.Prelude.{
  length, count, All, ℕ, ◌+◌, ◌/◌, ◌≤◌, ◌≡◌, Bool, false, ◌&&◌, List, [], ◌∷◌, arith,
}

-- `f + (f + 1) / 2 + 1`
unfoldable pub fast_quorum : ℕ → ℕ
fast_quorum num_nodes = let f = num_nodes / 2 in f + (f + 1) / 2 + 1

-- `(f + 1) / 2 + 1`
unfoldable pub recover_threshold : ℕ → ℕ
recover_threshold num_nodes = let f = num_nodes / 2 in (f + 1) / 2 + 1

-- Two sets of nodes, counted along the list of nodes by their members, meet in at least the excess
-- of their sizes.
module _ {ℓ} {A : Type ℓ} (p q : A → Bool) where
  pub count_both :
      (nodes : List A)
      → count p nodes + count q nodes ≤ length nodes + count (λ x. p x && q x) nodes
  count_both [] = omega arith
  count_both (x ∷ nodes) = ground (arith, count_both nodes)

  pub count_disjoint :
      (nodes : List A)
      → All (λ x. (p x && q x) ≡ false) nodes
      → count p nodes + count q nodes ≤ length nodes
  count_disjoint [] a = omega arith
  count_disjoint (x ∷ nodes) a = ground (arith, count_disjoint nodes a.1)
