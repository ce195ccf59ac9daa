-- ===== src/Election.antt =====
-- `BallotLeaderElection` of lib/omnipaxos/src/ballot_leader_election.rs. Each method returns the
-- new state. `u32` counters wrap as in the release build. The log lines are left out.
pub mod Replies
pub mod Leader
pub mod Takeover
pub mod Run
mod Tests
use ca_op.Prelude.{
  ◌==◌, if◌then◌else◌, length, any, all, count, inc_u32, ℕ, ◌+◌, Bool, true, not, ◌&&◌, Option,
  none, some, List, [], ◌∷◌, ◌++◌,
}
use ca_op.Ballot.{Ballot, default_ballot, lt_ballot, le_ballot, eq_ballot}
use ca_op.Quorum.{FlexibleQuorum, Quorum, quorum_with, is_prepare_quorum, is_accept_quorum}
use ca_op.Messages.{
  Role, leader, Phase, accept, HeartbeatRequest, HeartbeatReply, HeartbeatMsg, request, reply,
  BleMessage,
}

-- Without the buffer size and the logger.
pub record BleConfig : Type 0 where
  pub configuration_id : ℕ
  pub pid : ℕ
  pub peers : List ℕ
  pub priority : ℕ
  pub flexible_quorum : Option FlexibleQuorum

pub record BallotLeaderElection : Type 0 where
  pub configuration_id : ℕ
  pub pid : ℕ
  pub peers : List ℕ
  pub hb_round : ℕ
  pub heartbeat_replies : List HeartbeatReply
  pub prev_replies : List HeartbeatReply
  pub current_ballot : Ballot
  pub leader : Ballot
  pub happy : Bool
  pub quorum : Quorum
  pub outgoing : List BleMessage

abbrev initial_round : ℕ
initial_round = 1

abbrev recovery_round : ℕ
recovery_round = 0

-- The requests of a round, one to each peer.
unfoldable pub hb_requests : ℕ → ℕ → List ℕ → List BleMessage
hb_requests pid round [] = []
hb_requests pid round (peer ∷ peers) =
    record { from = pid; to = peer; msg = request (record { round = round }) }
    ∷ hb_requests pid round peers

unfoldable pub new_hb_round : BallotLeaderElection → BallotLeaderElection
new_hb_round s = record s {
  prev_replies = s.heartbeat_replies;
  heartbeat_replies = [];
  hb_round = inc_u32 s.hb_round;
  outgoing = s.outgoing ++ hb_requests s.pid (inc_u32 s.hb_round) s.peers;
}

-- The ballots that a node starts with, current and leader. A recovered leader is kept, and the
-- own ballot falls back to the recovery round.
unfoldable pub initial_ballots : Ballot → Option Ballot → Ballot × Ballot
initial_ballots b none = (b, b)
initial_ballots b (some l) =
    if eq_ballot l default_ballot then (b, b) else (record b { n = recovery_round }, l)

-- `BallotLeaderElection::with`
unfoldable pub ble_with : BleConfig → Option Ballot → BallotLeaderElection
unfolding initial_ballots new_hb_round
ble_with config recovered_leader =
    let first : Ballot = record {
      config_id = config.configuration_id;
      n = initial_round;
      priority = config.priority;
      pid = config.pid;
    } in
    new_hb_round (record {
      configuration_id = config.configuration_id;
      pid = config.pid;
      peers = config.peers;
      hb_round = 0;
      heartbeat_replies = [];
      prev_replies = [];
      current_ballot = (initial_ballots first recovered_leader).0;
      leader = (initial_ballots first recovered_leader).1;
      happy = true;
      quorum = quorum_with config.flexible_quorum (length config.peers + 1);
      outgoing = [];
    })

unfoldable pub set_priority : BallotLeaderElection → ℕ → BallotLeaderElection
set_priority s p = record s { current_ballot = record (s.current_ballot) { priority = p } }

unfoldable pub handle_request : BallotLeaderElection → ℕ → HeartbeatRequest → BallotLeaderElection
handle_request s from req = record s {
  outgoing =
      s.outgoing
      ++ record {
        from = s.pid;
        to = from;
        msg = reply (record {
          round = req.round;
          ballot = s.current_ballot;
          leader = s.leader;
          happy = s.happy;
        });
      }
        ∷ [];
}

unfoldable pub handle_reply : BallotLeaderElection → HeartbeatReply → BallotLeaderElection
handle_reply s rep =
    if (rep.round == s.hb_round) && (rep.ballot.config_id == s.configuration_id)
    then record s { heartbeat_replies = s.heartbeat_replies ++ rep ∷ [] }
    else s

unfoldable pub handle_msg : BallotLeaderElection → ℕ → HeartbeatMsg → BallotLeaderElection
unfolding handle_request handle_reply
handle_msg s from (request req) = handle_request s from req
handle_msg s from (reply rep) = handle_reply s rep

unfoldable pub handle : BallotLeaderElection → BleMessage → BallotLeaderElection
unfolding handle_msg
handle s m = handle_msg s m.from m.msg

-- `Iterator::max` keeps the later of two equal elements.
unfoldable pub max_from : Ballot → List HeartbeatReply → Ballot
max_from acc [] = acc
max_from acc (r ∷ rs) = max_from (if lt_ballot r.ballot acc then acc else r.ballot) rs

unfoldable pub max_reply_ballot : List HeartbeatReply → Option Ballot
max_reply_ballot [] = none
max_reply_ballot (r ∷ rs) = some (max_from r.ballot rs)

unfoldable pub update_leader : BallotLeaderElection → BallotLeaderElection
update_leader s = elim (max_reply_ballot s.heartbeat_replies) [
  | none ↦ s
  | some b ↦ if lt_ballot s.leader b then record s { leader = b } else s
]

-- Whether the node can form the quorum that its state asks for.
unfoldable pub can_form_quorum : Role × Phase → Quorum → ℕ → Bool
can_form_quorum (Role.leader, accept) q nodes = is_accept_quorum q nodes
can_form_quorum (role, phase) q nodes = is_prepare_quorum q nodes

unfoldable pub is_happy : BallotLeaderElection → Role × Phase → Bool
is_happy s seq_paxos_state =
    if eq_ballot s.leader s.current_ballot
    then (if can_form_quorum seq_paxos_state s.quorum
          (count (λ r. le_ballot r.leader s.current_ballot) s.heartbeat_replies + 1)
        then true
        else any (λ r. lt_ballot s.current_ballot r.leader && r.happy) s.heartbeat_replies)
    else any (λ r. eq_ballot r.ballot s.leader && r.happy) s.heartbeat_replies

unfoldable pub update_happiness : BallotLeaderElection → Role × Phase → BallotLeaderElection
update_happiness s seq_paxos_state = record s { happy = is_happy s seq_paxos_state }

-- The two conditions under which an unhappy node takes over.
unfoldable pub may_take_over : BallotLeaderElection → Bool
may_take_over s =
    all (λ r. not r.happy) s.heartbeat_replies
    && is_prepare_quorum s.quorum (length s.heartbeat_replies + 1)

-- The node's own ballot in the round after its leader's.
unfoldable pub takeover_ballot : BallotLeaderElection → Ballot
takeover_ballot s = record (s.current_ballot) { n = inc_u32 s.leader.n }

unfoldable pub check_takeover : BallotLeaderElection → BallotLeaderElection
check_takeover s =
    if s.happy
    then s
    else (if may_take_over s
        then record s {
          current_ballot = takeover_ballot s;
          leader = takeover_ballot s;
          happy = true;
        }
        else s)

-- The synchronisation with the promise of Sequence Paxos at the end of a round.
unfoldable pub sync_promise : BallotLeaderElection → Ballot → BallotLeaderElection
sync_promise s promise =
    if lt_ballot s.leader promise
    then record s {
      leader = promise;
      current_ballot = if promise.pid == s.pid then promise else s.current_ballot;
      happy = true;
    }
    else s

unfoldable pub end_round : BallotLeaderElection → Role × Phase → Ballot → BallotLeaderElection
end_round s seq_paxos_state promise =
    sync_promise
      (new_hb_round (check_takeover (update_happiness (update_leader s) seq_paxos_state))) promise

unfoldable pub hb_timeout :
    BallotLeaderElection → Role × Phase → Ballot → BallotLeaderElection × Option Ballot
hb_timeout s seq_paxos_state promise =
    let s' = end_round s seq_paxos_state promise in
    (s', if eq_ballot s'.leader s'.current_ballot then some s'.current_ballot else none)
