-- ===== src/LeaderState/MetaOrder.antt =====
-- The order of `PromiseMetaData` (lib/omnipaxos/src/util.rs).
use ca_op.Prelude.{Bool-cases, ◌≤◌, ◌≡◌, sym, subst, ◌≢◌, ◌⊎◌, inl, inr, true, false, arith}
use ca_op.Ballot.{
  le_ballot, eq_ballot, eq_ballot→eq, eq_ballot_refl, lt_ballot_trans, le_ballot_refl,
  not_lt→le_ballot, lt_ballot_irrefl,
}
use ca_op.LeaderState.{PromiseMetaData, gt_meta}

-- A larger maximum dominates what the old one dominated.
pub gt_meta_trans :
    (a m x : PromiseMetaData) → gt_meta a m ≡ false → gt_meta x m ≡ true → gt_meta a x ≡ false
unfolding gt_meta
gt_meta_trans a m x p q = ground (
  arith,
  lt_ballot_trans m.n_accepted x.n_accepted a.n_accepted,
  eq_ballot→eq x.n_accepted m.n_accepted,
  eq_ballot→eq a.n_accepted x.n_accepted,
  eq_ballot→eq a.n_accepted m.n_accepted,
  eq_ballot_refl a.n_accepted,
  lt_ballot_irrefl a.n_accepted,
  lt_ballot_irrefl m.n_accepted,
)

-- The ballot is not greater, and for equal ballots the accepted index is not.
abbrev pub IsAtMost : PromiseMetaData → PromiseMetaData → Type 0
IsAtMost a b =
    (le_ballot a.n_accepted b.n_accepted ≡ true)
    × ((a.n_accepted ≢ b.n_accepted) ⊎ (a.accepted_idx ≤ b.accepted_idx))

pub gt_meta-IsAtMost : (a b : PromiseMetaData) → gt_meta a b ≡ false → IsAtMost a b
unfolding gt_meta
gt_meta-IsAtMost a b h = elim (Bool-cases (eq_ballot a.n_accepted b.n_accepted)) [
  | inl same ↦
      let same' = eq_ballot→eq a.n_accepted b.n_accepted same in
      (
        subst (λ n. le_ballot a.n_accepted n ≡ true) same' (le_ballot_refl a.n_accepted),
        inr (ground (arith, h, same)),
      )
  | inr differs ↦ (
    not_lt→le_ballot b.n_accepted a.n_accepted (ground (arith, h, differs)),
    inl (λ e. absurd (
        ground (
          arith,
          eq_ballot_refl a.n_accepted,
          subst (λ n. eq_ballot a.n_accepted n ≡ false) (sym e) differs,
        ))),
  )
]

pub gt_meta_irrefl : (a : PromiseMetaData) → gt_meta a a ≡ false
unfolding gt_meta
gt_meta_irrefl a = ground (arith, eq_ballot_refl a.n_accepted)
