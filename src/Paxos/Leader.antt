-- ===== src/Paxos/Leader.antt =====
-- The leader: the handlers of lib/omnipaxos/src/sequence_paxos/leader.rs that start and end a round
-- of leadership, and those that resend. `none` is a panic.
pub mod Send
pub mod Decide
pub mod Recover
pub mod Takeover
pub mod Messages
pub mod FastDecision
pub mod Candidate
pub mod SlowDecision
pub mod Leading
pub mod Accepting
pub mod Releasing
pub mod Stopping
mod Tests
use ca_op.Prelude.{
  ◌==◌, if◌then◌else◌, ℕ, Bool, true, false, ◌&&◌, ◌||◌, Option, none, some, List, [], ◌∷◌,
}
use ca_op.Prelude.Panic.{◌>>=◌}
use ca_op.Ballot.{Ballot, lt_ballot, le_ballot, eq_ballot}
use ca_op.Messages.{Role, follower, Phase, prepare, accept, recover, none_phase}
use ca_op.Messages.Paxos.{PrepareReq, Promise, NotAccepted, ClockTimestamp, prepare_msg}
use ca_op.Storage.{SnapshotOps, StopSign}
use ca_op.Storage.Cache.{stopsign_is_decided}
use ca_op.Storage.Internal
use ca_op.LeaderState
use ca_op.LeaderState.{
  LeaderState, leader_state_with, set_unsynced_log, reset_promise, lost_promise,
  get_promised_followers, get_preparable_peers,
}
use ca_op.LeaderState.Accept.{set_latest_accept_meta, get_accepted_idx}
use ca_op.Dom.Owd.{PercentileOps}
use ca_op.Paxos.{SequencePaxos, eq_role, send_all}
use ca_op.Paxos.Proposals.{accepted_reconfiguration, forward_stopsign}
use ca_op.Paxos.Leader.Send.{
  send_prepare, send_prepares, send_decide, send_accept_stopsign, send_accsync,
}
use ca_op.Paxos.Leader.Decide.{accept_stopsign_leader}
use ca_op.Paxos.Leader.Takeover.{handle_majority_promises}

module _ {ℓ} {F : Type 0} {T S : Type ℓ} where
  abbrev pub become_follower : SequencePaxos F T S → SequencePaxos F T S
  become_follower s = record s { state = (Role.follower, s.state.1) }

  -- The promise of the leader to itself, after the flush.
  abbrev pub own_promise : SequencePaxos F T S → Ballot → Promise T S
  own_promise s n = record {
    n = n;
    n_accepted = s.internal_storage.cache.accepted_round;
    decided_idx = s.internal_storage.cache.decided_idx;
    accepted_idx = s.internal_storage.cache.accepted_idx;
    log_sync = none;
    log_unsync = some s.unsynced_log;
    log_prefix_hash = s.accepted_prefix_hash;
  }

  -- A fresh leader state, and the ballot promised with the batch flushed.
  unfoldable pub begin_leading : SequencePaxos F T S → Ballot → SequencePaxos F T S
  unfolding leader_state_with Internal.flush_batch Internal.set_promise
  begin_leading s n = record s {
    leader_state = leader_state_with n s.leader_state.max_pid s.leader_state.quorum;
    internal_storage = Internal.set_promise (Internal.flush_batch s.internal_storage).0 n;
  }

  -- The branch of `handle_leader` for a ballot of this node.
  unfoldable pub lead : SequencePaxos F T S → Ballot → Option (SequencePaxos F T S)
  unfolding begin_leading LeaderState.set_promise set_unsynced_log send_all
  lead s n =
      let s' = begin_leading s n in
      LeaderState.set_promise s'.leader_state (own_promise s' n) s'.pid true >>= λ r. some (
        send_all
          (record s' {
            leader_state = set_unsynced_log r.0 s'.pid s'.unsynced_log;
            state = (Role.leader, prepare);
          })
          s'.peers
          (prepare_msg (record {
            n = n;
            decided_idx = s'.internal_storage.cache.decided_idx;
            n_accepted = s'.internal_storage.cache.accepted_round;
            accepted_idx = s'.internal_storage.cache.accepted_idx;
          })))

  -- Whether an elected ballot is not greater than the ones known.
  unfoldable pub is_old_ballot : SequencePaxos F T S → Ballot → Bool
  unfolding le_ballot
  is_old_ballot s n =
      le_ballot n s.leader_state.n_leader || le_ballot n s.internal_storage.cache.promise

  unfoldable pub handle_leader : SequencePaxos F T S → Ballot → Option (SequencePaxos F T S)
  unfolding is_old_ballot lead
  handle_leader s n =
      if is_old_ballot s n
      then some s
      else (if s.pid == n.pid then lead s n else some (become_follower s))

  unfoldable pub handle_preparereq :
      SequencePaxos F T S → PrepareReq → ℕ → Option (SequencePaxos F T S)
  unfolding le_ballot reset_promise set_latest_accept_meta send_prepare
  handle_preparereq s prepreq from =
      if eq_role s.state.0 Role.leader && le_ballot prepreq.n s.leader_state.n_leader
      then (reset_promise s.leader_state from >>= λ ls.
          set_latest_accept_meta ls from none >>= λ ls'.
          some (send_prepare (record s { leader_state = ls' }) from))
      else some s

  -- A stop sign, by the state: the leader keeps or accepts it, others forward it.
  abbrev pub place_stopsign :
      SequencePaxos F T S → StopSign → Role × Phase → Option (SequencePaxos F T S)
  place_stopsign s ss (Role.leader, prepare) = some (record s { buffered_stopsign = some ss })
  place_stopsign s ss (Role.leader, accept) = accept_stopsign_leader s ss
  place_stopsign s ss _ = some (forward_stopsign s ss)

  unfoldable pub handle_forwarded_stopsign :
      SequencePaxos F T S → StopSign → Option (SequencePaxos F T S)
  unfolding accepted_reconfiguration accept_stopsign_leader forward_stopsign
  handle_forwarded_stopsign s ss =
      if accepted_reconfiguration s then some s else place_stopsign s ss s.state

  unfoldable pub handle_notaccepted :
      SequencePaxos F T S → NotAccepted → ℕ → Option (SequencePaxos F T S)
  unfolding lt_ballot lost_promise
  handle_notaccepted s not_acc from =
      if eq_role s.state.0 Role.leader && lt_ballot s.leader_state.n_leader not_acc.n
      then (lost_promise s.leader_state from >>= λ ls. some (record s { leader_state = ls }))
      else some s

  -- `Prepare` again, to the peers that have not answered.
  unfoldable pub resend_prepares : SequencePaxos F T S → Option (SequencePaxos F T S)
  unfolding get_preparable_peers send_prepares
  resend_prepares s =
      get_preparable_peers s.leader_state s.peers >>= λ peers. some (send_prepares s peers)

  -- The stop sign or its decision again, to one follower.
  unfoldable pub resend_stopsign_to :
      SequencePaxos F T S → StopSign → ℕ → Option (SequencePaxos F T S)
  unfolding stopsign_is_decided send_decide get_accepted_idx send_accept_stopsign
  resend_stopsign_to s ss to =
      if stopsign_is_decided s.internal_storage.cache
      then send_decide s to s.internal_storage.cache.decided_idx true
      else (get_accepted_idx s.leader_state to >>= λ accepted_idx.
          if accepted_idx == s.internal_storage.cache.accepted_idx
          then some s
          else send_accept_stopsign s to ss true)

  unfoldable pub resend_stopsigns :
      SequencePaxos F T S → StopSign → List ℕ → Option (SequencePaxos F T S)
  unfolding resend_stopsign_to
  resend_stopsigns s ss [] = some s
  resend_stopsigns s ss (to ∷ followers) =
      resend_stopsign_to s ss to >>= λ s'. resend_stopsigns s' ss followers

  -- `if let Some(ss) = self.internal_storage.get_stopsign() { .. }`
  abbrev pub resend_stopsign : SequencePaxos F T S → Option StopSign → Option (SequencePaxos F T S)
  resend_stopsign s none = some s
  resend_stopsign s (some ss) = resend_stopsigns s ss (get_promised_followers s.leader_state)

  unfoldable pub resend_messages_leader : SequencePaxos F T S → Option (SequencePaxos F T S)
  unfolding resend_prepares resend_stopsigns get_promised_followers
  resend_messages_leader s = elim s.state.1 [
    | prepare ↦ resend_prepares s
    | accept ↦ resend_stopsign s s.internal_storage.cache.stopsign >>= λ s'. resend_prepares s'
    | recover ↦ some s
    | none_phase ↦ some s
  ]

module _ {ℓ} {F : Type 0} {T S : Type ℓ} (ops : SnapshotOps T S)
    (percentiles : PercentileOps F) where
  unfoldable pub handle_promise_prepare :
      SequencePaxos F T S → Promise T S → ℕ → (ℕ → ClockTimestamp) → Option (SequencePaxos F T S)
  unfolding eq_ballot LeaderState.set_promise handle_majority_promises
  handle_promise_prepare s prom from clock =
      if eq_ballot prom.n s.leader_state.n_leader
      then (LeaderState.set_promise s.leader_state prom from true >>= λ (ls, received_majority).
          if received_majority
          then handle_majority_promises ops percentiles (record s { leader_state = ls }) clock
          else some (record s { leader_state = ls }))
      else some s

module _ {ℓ} {F : Type 0} {T S : Type ℓ} (ops : SnapshotOps T S) where
  unfoldable pub handle_promise_accept :
      SequencePaxos F T S → Promise T S → ℕ → Option (SequencePaxos F T S)
  unfolding eq_ballot LeaderState.set_promise send_accsync
  handle_promise_accept s prom from =
      if eq_ballot prom.n s.leader_state.n_leader
      then (LeaderState.set_promise s.leader_state prom from false >>= λ (ls, received_majority).
          send_accsync ops (record s { leader_state = ls }) from)
      else some s
