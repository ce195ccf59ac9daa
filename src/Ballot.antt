-- ===== src/Ballot.antt =====
-- `Ballot` of lib/omnipaxos/src/ballot_leader_election.rs: the round numbers of the protocol and
-- their order.
use ca_op.Prelude.{◌==◌, ℕ, compare, Ordering, ◌≡◌, Bool, true, false, ◌&&◌, arith}

pub record Ballot : Type 0 where
  pub config_id : ℕ
  pub n : ℕ
  pub priority : ℕ
  pub pid : ℕ

-- `Ballot::default()`
abbrev pub default_ballot : Ballot
default_ballot = record { config_id = 0; n = 0; priority = 0; pid = 0 }

-- `Ordering::then`, by which Rust compares tuples.
abbrev pub then_cmp : Ordering → Ordering → Ordering
then_cmp Ordering.lt o = Ordering.lt
then_cmp Ordering.eq o = o
then_cmp Ordering.gt o = Ordering.gt

-- `Ord::cmp`
unfoldable pub cmp : Ballot → Ballot → Ordering
cmp a b =
    then_cmp (compare a.n b.n) (then_cmp (compare a.priority b.priority) (compare a.pid b.pid))

-- `a < b` and `a <= b`, of `PartialOrd`.
unfoldable pub lt_ballot : Ballot → Ballot → Bool
unfolding cmp
lt_ballot a b = elim (cmp a b) [ Ordering.lt ↦ true | _ ↦ false ]

unfoldable pub le_ballot : Ballot → Ballot → Bool
unfolding cmp
le_ballot a b = elim (cmp a b) [ Ordering.gt ↦ false | _ ↦ true ]

-- The derived `==`, on all four fields.
unfoldable pub eq_ballot : Ballot → Ballot → Bool
eq_ballot a b =
    (a.config_id == b.config_id) && (a.n == b.n) && (a.priority == b.priority) && (a.pid == b.pid)

pub eq_ballot→eq : (a b : Ballot) → eq_ballot a b ≡ true → a ≡ b
unfolding eq_ballot
eq_ballot→eq a b h = ground arith

pub eq_ballot_refl : (a : Ballot) → eq_ballot a a ≡ true
unfolding eq_ballot
eq_ballot_refl a = ground arith

pub lt_ballot_trans :
    (a b c : Ballot) → lt_ballot a b ≡ true → lt_ballot b c ≡ true → lt_ballot a c ≡ true
unfolding lt_ballot
lt_ballot_trans a b c p q = ground arith

pub le_ballot_trans :
    (a b c : Ballot) → le_ballot a b ≡ true → le_ballot b c ≡ true → le_ballot a c ≡ true
unfolding le_ballot
le_ballot_trans a b c p q = ground arith

pub le_ballot_refl : (a : Ballot) → le_ballot a a ≡ true
unfolding le_ballot
le_ballot_refl a = ground arith

pub lt→le_ballot : (a b : Ballot) → lt_ballot a b ≡ true → le_ballot a b ≡ true
unfolding lt_ballot le_ballot
lt→le_ballot a b h = ground arith

pub not_lt→le_ballot : (a b : Ballot) → lt_ballot a b ≡ false → le_ballot b a ≡ true
unfolding lt_ballot le_ballot
not_lt→le_ballot a b h = ground arith

pub le→not_lt_ballot : (a b : Ballot) → le_ballot a b ≡ true → lt_ballot b a ≡ false
unfolding lt_ballot le_ballot
le→not_lt_ballot a b h = ground arith

pub le_lt_ballot_trans :
    (a b c : Ballot) → le_ballot a b ≡ true → lt_ballot b c ≡ true → lt_ballot a c ≡ true
unfolding lt_ballot le_ballot
le_lt_ballot_trans a b c p q = ground arith

pub lt_ballot_irrefl : (a : Ballot) → lt_ballot a a ≡ false
unfolding lt_ballot
lt_ballot_irrefl a = ground arith
