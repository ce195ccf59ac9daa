-- ===== src/Paxos/Replica.antt =====
-- The calls and messages of a replica: the rest of lib/omnipaxos/src/sequence_paxos/mod.rs. `none`
-- is a panic. `clock k` is the reading of the clock that an operation makes as number `k`.
use ca_op.Prelude.{if◌then◌else◌, ℕ, Option, none, some, List, []}
use ca_op.Prelude.Panic.{◌>>=◌}
use ca_op.Config.{ClusterConfig}
use ca_op.Messages.{Role, Phase, prepare, accept}
use ca_op.Messages.Paxos
use ca_op.Messages.Paxos.{
  Promise, ClockTimestamp, PaxosMsg, prepare_req, prepare_msg, accept_sync, accept_decide,
  fast_accepted, not_accepted, decide_msg, compaction, accept_stop_sign, forward_stop_sign,
  dom_propose, dom_ack, PaxosMessage,
}
use ca_op.Storage.{SnapshotOps}
use ca_op.LeaderState.{reset_latest_accept_meta}
use ca_op.Dom.Owd.{PercentileOps}
use ca_op.Paxos.{SequencePaxos}
use ca_op.Paxos.Proposals.{
  accepted_reconfiguration, handle_dom_ack, forward_stopsign, handle_dom_propose,
}
use ca_op.Paxos.Compact.{handle_compaction}
use ca_op.Paxos.Follower.{
  handle_prepare, handle_acceptsync, handle_acceptdecide, handle_accept_stopsign, handle_decide,
  resend_messages_follower, flush_batch_follower,
}
use ca_op.Paxos.Leader.{
  handle_preparereq, place_stopsign, handle_forwarded_stopsign, handle_notaccepted,
  resend_messages_leader, handle_promise_prepare, handle_promise_accept,
}
use ca_op.Paxos.Leader.Decide.{
  handle_fast_accepted, accept_stopsign_leader, flush_batch_leader, handle_accepted,
}

-- The result of `reconfigure`.
pub data Reconfigured {ℓ} (A : Type ℓ) : Type ℓ where
  reconfigured : A → Reconfigured A
  pending_reconfig_config : ClusterConfig → Option (List ℕ) → Reconfigured A

module _ {ℓ} {F : Type 0} {T S : Type ℓ} where
  -- The messages are taken, and none of them may be changed any more.
  unfoldable pub take_outgoing_msgs :
      SequencePaxos F T S → SequencePaxos F T S × List (PaxosMessage T S)
  unfolding reset_latest_accept_meta
  take_outgoing_msgs s = (
    record s {
      outgoing = [];
      leader_state = reset_latest_accept_meta s.leader_state;
      latest_accepted_meta = none;
    },
    s.outgoing,
  )

  -- The stop sign of a reconfiguration, by the state.
  unfoldable pub reconfigure :
      SequencePaxos F T S
      → ClusterConfig
      → Option (List ℕ)
      → Option (Reconfigured (SequencePaxos F T S))
  unfolding accepted_reconfiguration accept_stopsign_leader forward_stopsign
  reconfigure s new_config metadata =
      if accepted_reconfiguration s
      then some (pending_reconfig_config new_config metadata)
      else (place_stopsign s (record { next_config = new_config; metadata = metadata }) s.state
          >>= λ s'. some (reconfigured s'))

  unfoldable pub resend_message_timeout : SequencePaxos F T S → Option (SequencePaxos F T S)
  unfolding resend_messages_leader resend_messages_follower
  resend_message_timeout s = elim s.state.0 [
    | Role.leader ↦ resend_messages_leader s
    | Role.follower ↦ some (resend_messages_follower s)
  ]

  -- The flush of the batch, by the state.
  abbrev pub flush_by : SequencePaxos F T S → Role × Phase → Option (SequencePaxos F T S)
  flush_by s (Role.leader, accept) = flush_batch_leader s
  flush_by s (Role.follower, accept) = flush_batch_follower s
  flush_by s _ = some s

  unfoldable pub flush_batch_timeout : SequencePaxos F T S → Option (SequencePaxos F T S)
  unfolding flush_batch_leader flush_batch_follower
  flush_batch_timeout s = flush_by s s.state

module _ {ℓ} {F : Type 0} {T S : Type ℓ} (ops : SnapshotOps T S) (percentiles : PercentileOps F)
    (clock : ℕ → ClockTimestamp) where
  -- A promise, by the state of the leader.
  abbrev pub handle_promise :
      SequencePaxos F T S → Promise T S → ℕ → Role × Phase → Option (SequencePaxos F T S)
  handle_promise s prom from (Role.leader, prepare) =
      handle_promise_prepare ops percentiles s prom from clock
  handle_promise s prom from (Role.leader, accept) = handle_promise_accept ops s prom from
  handle_promise s prom from _ = some s

  unfoldable pub handle_msg : SequencePaxos F T S → ℕ → PaxosMsg T S → Option (SequencePaxos F T S)
  unfolding handle_preparereq handle_prepare handle_promise_prepare handle_promise_accept
      handle_acceptsync handle_acceptdecide handle_notaccepted handle_accepted handle_fast_accepted
      handle_decide handle_compaction handle_accept_stopsign handle_forwarded_stopsign
      handle_dom_propose handle_dom_ack
  handle_msg s from (prepare_req prepreq) = handle_preparereq s prepreq from
  handle_msg s from (prepare_msg prep) = handle_prepare ops s prep from
  handle_msg s from (Paxos.promise prom) = handle_promise s prom from s.state
  handle_msg s from (accept_sync acc_sync) = handle_acceptsync ops s acc_sync from
  handle_msg s from (accept_decide acc) = handle_acceptdecide s acc
  handle_msg s from (not_accepted not_acc) = handle_notaccepted s not_acc from
  handle_msg s from (Paxos.accepted acc) = handle_accepted s acc from
  handle_msg s from (fast_accepted fast_acc) = handle_fast_accepted s fast_acc from
  handle_msg s from (decide_msg d) = handle_decide s d
  handle_msg s from (compaction c) = some (handle_compaction ops s c)
  handle_msg s from (accept_stop_sign acc_ss) = handle_accept_stopsign s acc_ss
  handle_msg s from (forward_stop_sign f_ss) = handle_forwarded_stopsign s f_ss
  handle_msg s from (dom_propose prop) = handle_dom_propose percentiles s prop (clock 0) (clock 1)
  handle_msg s from (dom_ack ack) = some (handle_dom_ack s ack)

  unfoldable pub handle : SequencePaxos F T S → PaxosMessage T S → Option (SequencePaxos F T S)
  unfolding handle_msg
  handle s m = handle_msg s m.from m.msg
