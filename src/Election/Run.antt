-- ===== src/Election/Run.antt =====
-- Runs of the election component: messages that arrive, rounds that end, and calls of
-- `set_priority`, in any order.
use ca_op.Prelude.{
  ◌==◌, Bool-cases, length, All, All-snoc, ℕ, ◌+◌, ◌^◌, ◌≤◌, ◌<◌, ◌≡◌, inl, inr, true, ◌&&◌, List,
  [], ◌∷◌, arith,
}
use ca_op.Ballot.{Ballot, le_ballot, le_ballot_trans, le_ballot_refl}
use ca_op.Messages.{Role, Phase, HeartbeatReply, HeartbeatMsg, request, reply, BleMessage}
use ca_op.Election.{
  BallotLeaderElection, new_hb_round, set_priority, handle_reply, handle_msg, handle, update_leader,
  update_happiness, takeover_ballot, check_takeover, sync_promise, end_round, hb_timeout,
}
use ca_op.Election.Leader.{
  update_leader-Dominates, Below, update_leader-Below, check_takeover-ge, sync_promise-ge,
}
use ca_op.Election.Replies.{update_leader_frame, hb_timeout-round}

pub data Event : Type 0 where
  message : BleMessage → Event
  timeout : Role × Phase → Ballot → Event
  priority : ℕ → Event

unfoldable pub step : BallotLeaderElection → Event → BallotLeaderElection
step s (message m) = handle s m
step s (timeout st promise) = (hb_timeout s st promise).0
step s (priority p) = set_priority s p

unfoldable pub run : BallotLeaderElection → List Event → BallotLeaderElection
unfolding step
run s [] = s
run s (e ∷ es) = run (step s e) es

-- The ballot numbers that the environment hands in are at most `k`.
abbrev pub MsgBelow : ℕ → HeartbeatMsg → Type 0
MsgBelow k (request req) = Unit {0}
MsgBelow k (reply rep) = rep.ballot.n ≤ k

abbrev pub Input : ℕ → Event → Type 0
Input k (message m) = MsgBelow k m.msg
Input k (timeout st promise) = promise.n ≤ k
Input k (priority p) = Unit {0}

-- One step raises the largest ballot number by one at most, and never lowers the leader's ballot.
abbrev Advances : ℕ → BallotLeaderElection → BallotLeaderElection → Type 0
Advances k s s' = Below (k + 1) s' × (le_ballot s.leader s'.leader ≡ true)

AllBelow-mono :
    (k : ℕ) (rs : List HeartbeatReply)
    → All (λ r. r.ballot.n ≤ k) rs
    → All (λ r. r.ballot.n ≤ k + 1) rs
AllBelow-mono k [] a = tt
AllBelow-mono k (r ∷ rs) a = (omega arith, AllBelow-mono k rs a.1)

Below-mono : (k : ℕ) (s : BallotLeaderElection) → Below k s → Below (k + 1) s
Below-mono k s b = record {
  leader_below = omega arith;
  current_below = omega arith;
  replies_below = AllBelow-mono k s.heartbeat_replies b.replies_below;
}

handle_reply-Advances :
    (k : ℕ) (s : BallotLeaderElection) (rep : HeartbeatReply)
    → rep.ballot.n ≤ k
    → Below k s
    → Advances k s (handle_reply s rep)
unfolding handle_reply
handle_reply-Advances k s rep h b =
    elim (Bool-cases ((rep.round == s.hb_round) && (rep.ballot.config_id == s.configuration_id))) [
      | inl e ↦
          rw (e, handle_reply)
            (
              Below-mono k _ (record {
                leader_below = b.leader_below;
                current_below = b.current_below;
                replies_below =
                    All-snoc (λ r. r.ballot.n ≤ k) s.heartbeat_replies rep b.replies_below h;
              }),
              le_ballot_refl s.leader,
            )
      | inr e ↦ rw (e, handle_reply) (Below-mono k s b, le_ballot_refl s.leader)
    ]

handle-Advances :
    (k : ℕ) (s : BallotLeaderElection) (m : BleMessage)
    → MsgBelow k m.msg
    → Below k s
    → Advances k s (handle s m)
unfolding handle
handle-Advances k s m h b = at m.msg h
  where
    at : (msg : HeartbeatMsg) → MsgBelow k msg → Advances k s (handle_msg s m.from msg)
    at (request req) _ = (
      Below-mono k _ (record {
        leader_below = b.leader_below;
        current_below = b.current_below;
        replies_below = b.replies_below;
      }),
      le_ballot_refl s.leader,
    )
    at (reply rep) below = handle_reply-Advances k s rep below b

-- The numbers after a takeover and after the promise is adopted.
check_takeover_bounds :
    (k : ℕ) (s : BallotLeaderElection)
    → s.leader.n ≤ k
    → s.current_ballot.n ≤ k
    → ((check_takeover s).leader.n ≤ k + 1) × ((check_takeover s).current_ballot.n ≤ k + 1)
unfolding check_takeover takeover_ballot
check_takeover_bounds k s p q = ground arith

sync_promise_bounds :
    (k : ℕ) (s : BallotLeaderElection) (promise : Ballot)
    → promise.n ≤ k
    → s.leader.n ≤ k + 1
    → s.current_ballot.n ≤ k + 1
    → ((sync_promise s promise).leader.n ≤ k + 1)
      × ((sync_promise s promise).current_ballot.n ≤ k + 1)
unfolding sync_promise
sync_promise_bounds k s promise h p q = ground arith

end_round-Advances :
    (k : ℕ) (s : BallotLeaderElection) (st : Role × Phase) (promise : Ballot)
    → k + 1 < 2 ^ 32
    → promise.n ≤ k
    → Below k s
    → Advances k s (hb_timeout s st promise).0
unfolding hb_timeout end_round new_hb_round update_happiness
end_round-Advances k s st promise small h b = (
  record { leader_below = bounds.0; current_below = bounds.1; replies_below = rw emptied tt },
  le_ballot_trans s.leader s₁.leader _ (update_leader-Dominates s).0 (
      le_ballot_trans s₁.leader s₃.leader _
        (check_takeover-ge s₂ (omega (arith, update_leader-Below k s b)))
        (sync_promise-ge (new_hb_round s₃) promise)),
)
  where
    s₁ : BallotLeaderElection
    s₁ = update_leader s

    s₂ : BallotLeaderElection
    s₂ = update_happiness s₁ st

    s₃ : BallotLeaderElection
    s₃ = check_takeover s₂

    emptied : (end_round s st promise).heartbeat_replies ≡ []
    emptied = (hb_timeout-round s st promise).0

    raised : (s₃.leader.n ≤ k + 1) × (s₃.current_ballot.n ≤ k + 1)
    raised =
        check_takeover_bounds k s₂ (update_leader-Below k s b)
          (rw (update_leader_frame s).1 (b.current_below))

    bounds :
        ((end_round s st promise).leader.n ≤ k + 1)
        × ((end_round s st promise).current_ballot.n ≤ k + 1)
    bounds = sync_promise_bounds k (new_hb_round s₃) promise h raised.0 raised.1

step-Advances :
    (k : ℕ) (s : BallotLeaderElection) (e : Event)
    → k + 1 < 2 ^ 32
    → Input k e
    → Below k s
    → Advances k s (step s e)
unfolding step set_priority
step-Advances k s (message m) small h b = handle-Advances k s m h b
step-Advances k s (timeout st promise) small h b = end_round-Advances k s st promise small h b
step-Advances k s (priority p) small h b = (
  Below-mono k _ (record {
    leader_below = b.leader_below;
    current_below = b.current_below;
    replies_below = b.replies_below;
  }),
  le_ballot_refl s.leader,
)

Input-mono : (k : ℕ) (es : List Event) → All (Input k) es → All (Input (k + 1)) es
Input-mono k [] a = tt
Input-mono k (message m ∷ es) a = (at m.msg a.0, Input-mono k es a.1)
  where
    at : (msg : HeartbeatMsg) → MsgBelow k msg → MsgBelow (k + 1) msg
    at (request req) h = tt
    at (reply rep) h = omega arith
Input-mono k (timeout st promise ∷ es) a = (omega arith, Input-mono k es a.1)
Input-mono k (priority p ∷ es) a = (tt, Input-mono k es a.1)

-- Over any run the leader's ballot never falls, as long as the `u32` ballot numbers cannot wrap:
-- all numbers start and enter at most `k`, and `k` plus the length of the run is below 2^32.
pub run-le_leader :
    (k : ℕ) (s : BallotLeaderElection) (es : List Event)
    → k + length es < 2 ^ 32
    → All (Input k) es
    → Below k s
    → le_ballot s.leader (run s es).leader ≡ true
unfolding run
run-le_leader k s [] small a b = le_ballot_refl s.leader
run-le_leader k s (e ∷ es) small a b =
    let (below, grows) = step-Advances k s e (omega arith) a.0 b in
    le_ballot_trans s.leader (step s e).leader _ grows
      (run-le_leader (k + 1) (step s e) es (omega arith) (Input-mono k es a.1) below)
