-- ===== src/Election/Leader.antt =====
-- The leader's ballot across the methods.
use ca_op.Prelude.{
  if◌then◌else◌, Bool-cases, All, ℕ, ◌+◌, ◌^◌, ◌≤◌, ◌<◌, ◌≡◌, refl, inl, inr, true, some, List, [],
  ◌∷◌, arith,
}
use ca_op.Ballot.{
  Ballot, lt_ballot, le_ballot, le_ballot_trans, le_ballot_refl, lt→le_ballot, not_lt→le_ballot,
}
use ca_op.Messages.{HeartbeatReply}
use ca_op.Election.{
  BallotLeaderElection, max_from, max_reply_ballot, update_leader, takeover_ballot, check_takeover,
  sync_promise,
}

max_from-ge_acc : (acc : Ballot) (rs : List HeartbeatReply) → le_ballot acc (max_from acc rs) ≡ true
unfolding max_from
max_from-ge_acc acc [] = le_ballot_refl acc
max_from-ge_acc acc (r ∷ rs) = elim (Bool-cases (lt_ballot r.ballot acc)) [
  | inl e ↦ rw e (max_from-ge_acc acc rs)
  | inr e ↦
      rw e (le_ballot_trans acc r.ballot _ (not_lt→le_ballot _ _ e) (max_from-ge_acc r.ballot rs))
]

-- Every ballot of a reply is at most `b`.
abbrev pub Dominates : Ballot → List HeartbeatReply → Type 0
Dominates b rs = All (λ r. le_ballot r.ballot b ≡ true) rs

max_from-Dominates :
    (acc b : Ballot) (rs : List HeartbeatReply)
    → le_ballot (max_from acc rs) b ≡ true
    → (le_ballot acc b ≡ true) × Dominates b rs
unfolding max_from
max_from-Dominates acc b [] h = (h, tt)
max_from-Dominates acc b (r ∷ rs) h =
    let (first, rest) =
      max_from-Dominates (if lt_ballot r.ballot acc then acc else r.ballot) b rs h in
    elim (Bool-cases (lt_ballot r.ballot acc)) [
      | inl e ↦
          let acc_le : le_ballot acc b ≡ true = rw e at first in
          (acc_le, (le_ballot_trans r.ballot acc b (lt→le_ballot _ _ e) acc_le, rest))
      | inr e ↦
          let ballot_le : le_ballot r.ballot b ≡ true = rw e at first in
          (le_ballot_trans acc r.ballot b (not_lt→le_ballot _ _ e) ballot_le, (ballot_le, rest))
    ]

-- The leader's ballot is one of the candidates.
max_from-cases :
    (P : Ballot → Type 0) (acc : Ballot) (rs : List HeartbeatReply)
    → P acc
    → All (λ r. P r.ballot) rs
    → P (max_from acc rs)
unfolding max_from
max_from-cases P acc [] h a = h
max_from-cases P acc (r ∷ rs) h a = elim (Bool-cases (lt_ballot r.ballot acc)) [
  | inl e ↦ rw e (max_from-cases P acc rs h a.1)
  | inr e ↦ rw e (max_from-cases P r.ballot rs a.0 a.1)
]

update_leader-max :
    (s : BallotLeaderElection) (b : Ballot)
    → max_reply_ballot s.heartbeat_replies ≡ some b
    → (le_ballot s.leader (update_leader s).leader ≡ true)
      × (le_ballot b (update_leader s).leader ≡ true)
unfolding update_leader
update_leader-max s b e = elim (Bool-cases (lt_ballot s.leader b)) [
  | inl h ↦ rw (e, update_leader, h) (lt→le_ballot _ _ h, le_ballot_refl b)
  | inr h ↦ rw (e, update_leader, h) (le_ballot_refl s.leader, not_lt→le_ballot _ _ h)
]

update_leader-at :
    (s : BallotLeaderElection) (rs : List HeartbeatReply)
    → s.heartbeat_replies ≡ rs
    → (le_ballot s.leader (update_leader s).leader ≡ true) × Dominates (update_leader s).leader rs
unfolding update_leader max_reply_ballot
update_leader-at s [] e = (rw (e, update_leader) (le_ballot_refl s.leader), tt)
update_leader-at s (r ∷ rs) e =
    let (old, new) = update_leader-max s (max_from r.ballot rs) (rw e) in
    (old, max_from-Dominates r.ballot (update_leader s).leader rs new)

-- After `update_leader` the leader's ballot is at least the old one and at least the ballot of
-- every reply of the round.
pub update_leader-Dominates :
    (s : BallotLeaderElection)
    → (le_ballot s.leader (update_leader s).leader ≡ true)
      × Dominates (update_leader s).leader s.heartbeat_replies
update_leader-Dominates s = update_leader-at s s.heartbeat_replies refl

-- The ballot numbers of a state and of its replies are at most `k`.
pub record Below (k : ℕ) (s : BallotLeaderElection) : Type 0 where
  pub leader_below : s.leader.n ≤ k
  pub current_below : s.current_ballot.n ≤ k
  pub replies_below : All (λ r. r.ballot.n ≤ k) s.heartbeat_replies

update_leader-Below_at :
    (k : ℕ) (s : BallotLeaderElection) (rs : List HeartbeatReply)
    → s.heartbeat_replies ≡ rs
    → s.leader.n ≤ k
    → All (λ r. r.ballot.n ≤ k) rs
    → (update_leader s).leader.n ≤ k
unfolding update_leader max_reply_ballot
update_leader-Below_at k s [] e h a = rw (e, update_leader) h
update_leader-Below_at k s (r ∷ rs) e h a =
    let top : (max_from r.ballot rs).n ≤ k = max_from-cases (λ b. b.n ≤ k) r.ballot rs a.0 a.1 in
    elim (Bool-cases (lt_ballot s.leader (max_from r.ballot rs))) [
      | inl t ↦ rw (e, update_leader, t) top
      | inr t ↦ rw (e, update_leader, t) h
    ]

pub update_leader-Below :
    (k : ℕ) (s : BallotLeaderElection) → Below k s → (update_leader s).leader.n ≤ k
update_leader-Below k s b =
    update_leader-Below_at k s s.heartbeat_replies refl b.leader_below b.replies_below

-- A ballot of a higher number is greater.
pub lt_ballot_of_n : (a b : Ballot) → a.n < b.n → lt_ballot a b ≡ true
unfolding lt_ballot
lt_ballot_of_n a b h = ground arith

pub check_takeover-ge :
    (s : BallotLeaderElection)
    → s.leader.n + 1 < 2 ^ 32
    → le_ballot s.leader (check_takeover s).leader ≡ true
unfolding check_takeover takeover_ballot
check_takeover-ge s h = ground (
  arith,
  le_ballot_refl s.leader,
  lt→le_ballot s.leader (takeover_ballot s),
  lt_ballot_of_n s.leader (takeover_ballot s),
)

pub sync_promise-ge :
    (s : BallotLeaderElection) (promise : Ballot)
    → le_ballot s.leader (sync_promise s promise).leader ≡ true
unfolding sync_promise
sync_promise-ge s promise = ground (arith, le_ballot_refl s.leader, lt→le_ballot s.leader promise)
