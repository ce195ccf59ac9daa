-- ===== src/Config/Tests.antt =====
-- Instances of the theorems: five nodes with a read quorum of four and a write quorum of two.
use ca_op.Prelude.{
  ltb, leb, ◌==◌, count, ℕ, ◌≤◌, ◌<◌, ◌≡◌, refl, Bool, not, ◌&&◌, some, [], ◌∷◌, arith,
}
use ca_op.Quorum.{quorum_with, is_prepare_quorum, is_accept_quorum}
use ca_op.Quorum.Intersection.{fast_quorum, recover_threshold}
use ca_op.Config.{ClusterConfig, quorums_do_not_overlap, valid, invalid, validate}
use ca_op.Config.Safety.{valid-quorums_meet, valid-fast_recoverable}

abbrev five : ClusterConfig
five = record {
  configuration_id = 1;
  nodes = 1 ∷ 2 ∷ 3 ∷ 4 ∷ 5 ∷ [];
  flexible_quorum = some (record { read_quorum_size = 4; write_quorum_size = 2 });
}

five_valid : validate five ≡ valid
unfolding validate
five_valid = refl

overlap_refused :
    validate (record five {
      flexible_quorum = some (record { read_quorum_size = 3; write_quorum_size = 2 });
    })
    ≡ invalid quorums_do_not_overlap
unfolding validate
overlap_refused = refl

abbrev up_to : ℕ → ℕ → Bool
up_to k x = leb x k

valid-quorums_meet_example : 0 < count (λ x. not (ltb x 2) && up_to 2 x) five.nodes
unfolding quorum_with is_prepare_quorum is_accept_quorum
valid-quorums_meet_example =
    valid-quorums_meet five (λ x. not (ltb x 2)) (up_to 2) five_valid refl refl

valid-fast_recoverable_example :
    (recover_threshold 5 ≤ count (λ x. up_to 4 x && not (ltb x 2)) five.nodes)
    × (count (λ x. x == 5) five.nodes < recover_threshold 5)
unfolding quorum_with is_prepare_quorum fast_quorum
valid-fast_recoverable_example =
    valid-fast_recoverable five (up_to 4) (λ x. not (ltb x 2)) (λ x. x == 5) five_valid
      (omega arith) refl (refl, (refl, (refl, (refl, (refl, tt)))))
