-- ===== src/Election/Takeover.antt =====
-- When a node takes over, and whom a round elects.
use ca_op.Prelude.{
  Bool-cases, length, all, ℕ, ◌+◌, ◌^◌, ◌<◌, ◌≡◌, sym, subst, ◌∙◌, ◌≢◌, ◌⊎◌, inl, inr, true, false,
  not, some, List, [], ◌∷◌, arith,
}
use ca_op.Ballot.{
  Ballot, lt_ballot, le_ballot, eq_ballot, eq_ballot→eq, eq_ballot_refl, le_ballot_trans,
  le_lt_ballot_trans,
}
use ca_op.Quorum.{is_prepare_quorum}
use ca_op.Messages.{Role, Phase, HeartbeatReply}
use ca_op.Election.{
  BallotLeaderElection, new_hb_round, update_leader, is_happy, update_happiness, may_take_over,
  check_takeover, sync_promise, end_round, hb_timeout,
}
use ca_op.Election.Leader.{
  Dominates, update_leader-Dominates, Below, update_leader-Below, check_takeover-ge,
  sync_promise-ge,
}
use ca_op.Election.Replies.{update_leader_frame}

-- What is at most a ballot, is at most a greater one.
Dominates-le :
    (a b : Ballot) (rs : List HeartbeatReply)
    → le_ballot a b ≡ true
    → Dominates a rs
    → Dominates b rs
Dominates-le a b [] h d = tt
Dominates-le a b (r ∷ rs) h d = (le_ballot_trans r.ballot a b d.0 h, Dominates-le a b rs h d.1)

check_takeover-cases :
    (s : BallotLeaderElection)
    → (check_takeover s ≡ s)
      ⊎ ((s.happy ≡ false)
          × (is_prepare_quorum s.quorum (length s.heartbeat_replies + 1) ≡ true)
          × (all (λ r. not r.happy) s.heartbeat_replies ≡ true))
unfolding check_takeover may_take_over
check_takeover-cases s = ground arith

sync_promise-cases :
    (s : BallotLeaderElection) (promise : Ballot)
    → ((sync_promise s promise).current_ballot ≡ s.current_ballot)
      ⊎ ((promise.pid ≡ s.pid)
          × (lt_ballot s.leader promise ≡ true)
          × ((sync_promise s promise).current_ballot ≡ promise))
unfolding sync_promise
sync_promise-cases s promise = ground arith

-- The own ballot changes in a round only by a takeover, for which a prepare quorum answered and
-- no node that answered is happy, or by adopting a promise with the own pid that is greater than
-- the leader's ballot.
pub end_round-changes_ballot :
    (s : BallotLeaderElection) (st : Role × Phase) (promise : Ballot)
    → (end_round s st promise).current_ballot ≢ s.current_ballot
    → ((is_prepare_quorum s.quorum (length s.heartbeat_replies + 1) ≡ true)
        × (all (λ r. not r.happy) s.heartbeat_replies ≡ true)
        × (is_happy (update_leader s) st ≡ false))
      ⊎ ((promise.pid ≡ s.pid)
          × (lt_ballot s.leader promise ≡ true)
          × ((end_round s st promise).current_ballot ≡ promise))
unfolding end_round new_hb_round update_happiness
end_round-changes_ballot s st promise h =
    let s' = update_happiness (update_leader s) st in
    ground (
      arith,
      update_leader_frame s,
      check_takeover-cases s',
      sync_promise-cases (new_hb_round (check_takeover s')) promise,
      le_lt_ballot_trans s.leader (update_leader s).leader promise,
      update_leader-Dominates s,
    )

-- Why a round may elect a ballot: it is the own one of before, a takeover's or an adopted promise.
abbrev pub MayElect : BallotLeaderElection → Role × Phase → Ballot → Ballot → Type 0
MayElect s st promise b =
    (b ≡ s.current_ballot)
    ⊎ ((is_prepare_quorum s.quorum (length s.heartbeat_replies + 1) ≡ true)
        × (all (λ r. not r.happy) s.heartbeat_replies ≡ true)
        × (is_happy (update_leader s) st ≡ false))
    ⊎ ((promise.pid ≡ s.pid) × (lt_ballot s.leader promise ≡ true) × (b ≡ promise))

elected-MayElect :
    (s : BallotLeaderElection) (st : Role × Phase) (promise b : Ballot)
    → (end_round s st promise).current_ballot ≡ b
    → MayElect s st promise b
elected-MayElect s st promise b own = elim (Bool-cases (eq_ballot b s.current_ballot)) [
  | inl same ↦ inl (eq_ballot→eq b s.current_ballot same)
  | inr differs ↦
      let changed : (end_round s st promise).current_ballot ≢ s.current_ballot = λ e. absurd (
        ground (
          arith,
          eq_ballot_refl b,
          subst (λ c. eq_ballot b c ≡ false) (sym (sym own ∙ e)) differs,
        )) in
      elim (end_round-changes_ballot s st promise changed) [
        | inl takeover ↦ inr (inl takeover)
        | inr (pid, above, adopted) ↦ inr (inr (pid, above, sym own ∙ adopted))
      ]
]

-- If the ballot numbers of the state and its replies are at most `k`, and `k + 1` does not wrap: a
-- ballot that a round elects is the leader's and the own one after it; it is not below the leader's
-- ballot of before, nor below the ballot of any node that answered in the round; and it is the own
-- one of before, or there was a takeover, for which a prepare quorum answered and neither this node
-- nor one that answered is happy, or it is a promise with the own pid that is greater than the
-- leader's ballot.
pub hb_timeout-elects :
    (k : ℕ) (s : BallotLeaderElection) (st : Role × Phase) (promise b : Ballot)
    → k + 1 < 2 ^ 32
    → Below k s
    → (hb_timeout s st promise).1 ≡ some b
    → ((hb_timeout s st promise).0.leader ≡ b)
      × ((hb_timeout s st promise).0.current_ballot ≡ b)
      × (le_ballot s.leader b ≡ true)
      × Dominates b s.heartbeat_replies
      × MayElect s st promise b
unfolding hb_timeout end_round new_hb_round update_happiness
hb_timeout-elects k s st promise b small below elected =
    let s' = end_round s st promise in
    let (top, own) : (s'.leader ≡ b) × (s'.current_ballot ≡ b) =
      ground (arith, eq_ballot→eq s'.leader s'.current_ballot) in
    let old = update_leader s in
    let happy = update_happiness old st in
    let grown : le_ballot old.leader b ≡ true =
      subst (λ l. le_ballot old.leader l ≡ true) top
        (le_ballot_trans old.leader (check_takeover happy).leader s'.leader
          (check_takeover-ge happy (omega (arith, update_leader-Below k s below)))
          (sync_promise-ge (new_hb_round (check_takeover happy)) promise)) in
    let (kept, dominated) = update_leader-Dominates s in
    (
      top,
      own,
      le_ballot_trans s.leader old.leader b kept grown,
      Dominates-le old.leader b s.heartbeat_replies grown dominated,
      elected-MayElect s st promise b own,
    )
