-- ===== src/Paxos/Proposals.antt =====
-- How a replica takes proposals: `append_with_id`, `send_dom_propose` and the handlers of the
-- multicast in lib/omnipaxos/src/sequence_paxos/mod.rs, and the forwarding of stop signs.
use ca_op.Prelude.{ltb, ◌==◌, if◌then◌else◌, is_some, ℕ, Bool, not, ◌&&◌, Option, none, some}
use ca_op.Prelude.Panic.{◌>>=◌}
use ca_op.Messages.Paxos
use ca_op.Messages.Paxos.{EntryId, ClockTimestamp, DomPropose, DomAck, forward_stop_sign}
use ca_op.Storage.{StopSign}
use ca_op.Storage.Cache.{stopsign_is_decided}
use ca_op.Dom
use ca_op.Dom.{create_dom_propose}
use ca_op.Dom.Owd.{PercentileOps}
use ca_op.Paxos.{SequencePaxos, send, send_all, get_current_leader}

-- `ProposeErr` of lib/omnipaxos/src/omni_paxos.rs, without the error of a configuration that is not
-- valid, which `reconfigure` of the facade returns.
pub data Proposed {ℓ} (A T : Type ℓ) : Type ℓ where
  proposed : A → Proposed A T
  pending_reconfig_entry : T → Proposed A T

module _ {ℓ} {F : Type 0} {T S : Type ℓ} where
  unfoldable pub accepted_reconfiguration : SequencePaxos F T S → Bool
  accepted_reconfiguration s = is_some s.internal_storage.cache.stopsign

  -- The stop sign, once it is decided.
  unfoldable pub is_reconfigured : SequencePaxos F T S → Option StopSign
  unfolding stopsign_is_decided
  is_reconfigured s =
      if stopsign_is_decided s.internal_storage.cache
      then s.internal_storage.cache.stopsign
      else none

  unfoldable pub handle_dom_ack : SequencePaxos F T S → DomAck → SequencePaxos F T S
  unfolding Dom.handle_dom_ack
  handle_dom_ack s ack = record s { dom = Dom.handle_dom_ack s.dom ack }

  unfoldable pub forward_stopsign : SequencePaxos F T S → StopSign → SequencePaxos F T S
  unfolding send
  forward_stopsign s ss =
      if ltb 0 (get_current_leader s) && not (s.pid == get_current_leader s)
      then send s (get_current_leader s) (forward_stop_sign ss)
      else (if is_some s.buffered_stopsign then s else record s { buffered_stopsign = some ss })

module _ {ℓ} {F : Type 0} {T S : Type ℓ} (ops : PercentileOps F) where
  -- The answer to a proposal: to its sender, or to this node itself.
  unfoldable pub answer : SequencePaxos F T S → ℕ → DomAck → SequencePaxos F T S
  unfolding send handle_dom_ack
  answer s sender ack =
      if sender == s.pid then handle_dom_ack s ack else send s sender (Paxos.dom_ack ack)

  -- `received_time` and `now` are the two readings of the clock.
  unfoldable pub handle_dom_propose :
      SequencePaxos F T S
      → DomPropose T
      → ClockTimestamp
      → ClockTimestamp
      → Option (SequencePaxos F T S)
  unfolding Dom.handle_dom_propose answer
  handle_dom_propose s prop received_time now = do
    (d, ack) ← Dom.handle_dom_propose ops s.dom prop s.state.0 received_time now
    some (answer (record s { dom = d }) prop.sender ack)

  unfoldable pub send_dom_propose :
      SequencePaxos F T S
      → DomPropose T
      → ClockTimestamp
      → ClockTimestamp
      → Option (SequencePaxos F T S)
  unfolding send_all handle_dom_propose
  send_dom_propose s prop received_time now =
      handle_dom_propose (send_all s s.peers (Paxos.dom_propose prop)) prop received_time now

  -- The clock is read for the proposal, and then by its handler.
  unfoldable pub append_with_id :
      SequencePaxos F T S
      → T
      → EntryId
      → ClockTimestamp
      → ClockTimestamp
      → ClockTimestamp
      → Option (Proposed (SequencePaxos F T S) T)
  unfolding accepted_reconfiguration create_dom_propose send_dom_propose
  append_with_id s x entry_id sent_time received_time now =
      if accepted_reconfiguration s
      then some (pending_reconfig_entry x)
      else (send_dom_propose s (create_dom_propose s.dom sent_time x entry_id) received_time now
          >>= λ s'. some (proposed s'))
