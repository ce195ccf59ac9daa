-- ===== src/Election/Replies.antt =====
-- The replies that a round collects.
use ca_op.Prelude.{◌==◌, Bool-cases, All, All-snoc, inc_u32, ◌≡◌, inl, inr, ◌&&◌, [], ◌++◌, arith}
use ca_op.Ballot.{Ballot}
use ca_op.Messages.{Role, Phase, HeartbeatReply, HeartbeatMsg, request, reply, BleMessage}
use ca_op.Election.{
  BallotLeaderElection, hb_requests, new_hb_round, handle_reply, handle_msg, handle, update_leader,
  update_happiness, check_takeover, sync_promise, end_round, hb_timeout,
}

-- A reply answers the current round and comes from a member of the own configuration.
abbrev pub IsCurrent : BallotLeaderElection → HeartbeatReply → Type 0
IsCurrent s r = (r.round ≡ s.hb_round) × (r.ballot.config_id ≡ s.configuration_id)

abbrev pub AllCurrent : BallotLeaderElection → Type 0
AllCurrent s = All (IsCurrent s) s.heartbeat_replies

handle_reply-AllCurrent :
    (s : BallotLeaderElection) (rep : HeartbeatReply)
    → AllCurrent s
    → AllCurrent (handle_reply s rep)
unfolding handle_reply
handle_reply-AllCurrent s rep a =
    elim (Bool-cases ((rep.round == s.hb_round) && (rep.ballot.config_id == s.configuration_id))) [
      | inl e ↦
          rw (e, handle_reply)
            (All-snoc (IsCurrent s) s.heartbeat_replies rep a (ground arith, ground arith))
      | inr e ↦ rw (e, handle_reply) a
    ]

-- Handling any message keeps the collected replies those of the current round and configuration.
pub handle-AllCurrent :
    (s : BallotLeaderElection) (m : BleMessage) → AllCurrent s → AllCurrent (handle s m)
unfolding handle
handle-AllCurrent s m a = at m.msg
  where
    at : (h : HeartbeatMsg) → AllCurrent (handle_msg s m.from h)
    at (request req) = a
    at (reply rep) = handle_reply-AllCurrent s rep a

pub update_leader_frame :
    (s : BallotLeaderElection)
    → ((update_leader s).heartbeat_replies ≡ s.heartbeat_replies)
      × ((update_leader s).current_ballot ≡ s.current_ballot)
      × ((update_leader s).quorum ≡ s.quorum)
      × ((update_leader s).pid ≡ s.pid)
      × ((update_leader s).peers ≡ s.peers)
      × ((update_leader s).hb_round ≡ s.hb_round)
      × ((update_leader s).outgoing ≡ s.outgoing)
unfolding update_leader
update_leader_frame s = ground arith

-- The end of a round opens the next one with no reply, and files the replies that were collected.
pub hb_timeout-round :
    (s : BallotLeaderElection) (st : Role × Phase) (promise : Ballot)
    → ((hb_timeout s st promise).0.heartbeat_replies ≡ [])
      × ((hb_timeout s st promise).0.prev_replies ≡ s.heartbeat_replies)
      × ((hb_timeout s st promise).0.hb_round ≡ inc_u32 s.hb_round)
      × ((hb_timeout s st promise).0.outgoing
          ≡ s.outgoing ++ hb_requests s.pid (inc_u32 s.hb_round) s.peers)
unfolding hb_timeout end_round sync_promise new_hb_round check_takeover update_happiness
hb_timeout-round s st promise = ground (arith, update_leader_frame s)
