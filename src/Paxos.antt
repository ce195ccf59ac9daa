-- ===== src/Paxos.antt =====
-- The state of a replica of Sequence Paxos, `SequencePaxos` of
-- lib/omnipaxos/src/sequence_paxos/mod.rs, and what all its handlers use.
pub mod Follower
pub mod Promises
pub mod Decisions
pub mod Prepares
pub mod Sessions
pub mod Proposals
pub mod Leader
pub mod Compact
pub mod Release
pub mod Replica
pub mod Start
mod Tests
use ca_op.Prelude.{
  ltb, ◌==◌, if◌then◌else◌, ℕ, Ordering, Bool, true, false, ◌&&◌, Option, none, some, List, [], ◌∷◌,
  ◌++◌,
}
use ca_op.Prelude.Panic.{◌>>=◌}
use ca_op.Ballot.{Ballot, cmp}
use ca_op.Clocks.{
  MessageStatus, expected, dropped_preceding, outdated, SequenceNumber, check_msg_status,
}
use ca_op.Messages.{Role, follower, Phase, prepare, accept, recover, none_phase}
use ca_op.Messages
use ca_op.Messages.Paxos.{
  DomHash, UnsyncedLog, Promise, PaxosMsg, prepare_req, not_accepted, PaxosMessage,
}
use ca_op.Storage
use ca_op.Storage.{SnapshotOps, SnapshotType, LogSync, StopSign, Result, ok, err}
use ca_op.Storage.Memory
use ca_op.Storage.Internal.{InternalStorage}
use ca_op.Storage.Internal.Compact.{create_diff_snapshot}
use ca_op.LeaderState.{LeaderState}
use ca_op.Dom.{Dom}

pub record SequencePaxos {ℓ} (F : Type 0) (T S : Type ℓ) : Type ℓ where
  pub dom : Dom F T
  pub internal_storage : InternalStorage T S
  pub pid : ℕ
  pub peers : List ℕ
  pub state : Role × Phase
  pub buffered_proposals : List T
  pub buffered_stopsign : Option StopSign
  pub outgoing : List (PaxosMessage T S)
  pub leader_state : LeaderState T S
  pub latest_accepted_meta : Option (Ballot × ℕ)
  pub current_seq_num : SequenceNumber
  pub cached_promise_message : Option (Promise T S)
  pub unsynced_log : UnsyncedLog T
  pub accepted_prefix_hash : DomHash
  pub unsynced_hash : DomHash
  pub enable_fast_path : Bool

-- The derived equalities.
abbrev pub eq_role : Role → Role → Bool
eq_role Role.follower Role.follower = true
eq_role Role.leader Role.leader = true
eq_role _ _ = false

abbrev pub eq_phase : Phase → Phase → Bool
eq_phase prepare prepare = true
eq_phase accept accept = true
eq_phase recover recover = true
eq_phase none_phase none_phase = true
eq_phase _ _ = false

abbrev pub eq_state : Role × Phase → Role × Phase → Bool
eq_state (r, p) (r', p') = eq_role r r' && eq_phase p p'

-- `expect` on a result of the storage.
abbrev pub expect {ℓ} : {A : Type ℓ} → Result A → Option A
expect (ok a) = some a
expect (err e) = none

module _ {ℓ} {F : Type 0} {T S : Type ℓ} where
  -- `self.outgoing.push(..)`
  unfoldable pub send : SequencePaxos F T S → ℕ → PaxosMsg T S → SequencePaxos F T S
  send s to msg = record s {
    outgoing = s.outgoing ++ record { from = s.pid; to = to; msg = msg } ∷ [];
  }

  -- A message to every node of a list, in order.
  unfoldable pub send_all : SequencePaxos F T S → List ℕ → PaxosMsg T S → SequencePaxos F T S
  unfolding send
  send_all s [] msg = s
  send_all s (to ∷ peers) msg = send_all (send s to msg) peers msg

  -- The promise that the storage has in its cache.
  abbrev pub get_promise : SequencePaxos F T S → Ballot
  get_promise s = s.internal_storage.cache.promise

  abbrev pub get_current_leader : SequencePaxos F T S → ℕ
  get_current_leader s = s.internal_storage.cache.promise.pid

  unfoldable pub reconnected : SequencePaxos F T S → ℕ → SequencePaxos F T S
  unfolding send
  reconnected s pid =
      if pid == s.pid
      then s
      else (if pid == s.internal_storage.cache.promise.pid
          then send (record s { state = (Role.follower, recover) }) pid
              (prepare_req (record { n = s.internal_storage.cache.promise }))
          else send s pid (prepare_req (record { n = s.internal_storage.cache.promise })))

  unfoldable pub check_valid_ballot : SequencePaxos F T S → Ballot → SequencePaxos F T S × Bool
  unfolding send reconnected cmp
  check_valid_ballot s message_ballot = elim (cmp s.internal_storage.cache.promise message_ballot) [
    | Ordering.eq ↦ (s, true)
    | Ordering.gt ↦ (
      send s message_ballot.pid (not_accepted (record { n = s.internal_storage.cache.promise })),
      false,
    )
    | Ordering.lt ↦ (reconnected s message_ballot.pid, false)
  ]

  unfoldable pub handle_sequence_num :
      SequencePaxos F T S → SequenceNumber → ℕ → SequencePaxos F T S × MessageStatus
  unfolding reconnected check_msg_status
  handle_sequence_num s seq_num from = elim (check_msg_status s.current_seq_num seq_num) [
    | expected ↦ (record s { current_seq_num = seq_num }, expected)
    | dropped_preceding ↦ (reconnected s from, dropped_preceding)
    | outdated ↦ (s, outdated)
  ]

module _ {ℓ} {F : Type 0} {T S : Type ℓ} (ops : SnapshotOps T S) where
  -- The log update for another replica: its common prefix and decided index.
  unfoldable pub create_log_sync : SequencePaxos F T S → ℕ → ℕ → Option (LogSync T S)
  unfolding create_diff_snapshot Memory.get_suffix
  create_log_sync s common_prefix_idx other_logs_decided_idx =
      let storage = s.internal_storage.storage in
      let cache = s.internal_storage.cache in
      if ops.use_snapshots && ltb common_prefix_idx cache.decided_idx
      then (expect (create_diff_snapshot ops s.internal_storage other_logs_decided_idx)
          >>= λ (delta_snapshot, compacted_idx). some (record {
            decided_snapshot = delta_snapshot;
            suffix = Memory.get_suffix storage cache.decided_idx;
            sync_idx = compacted_idx;
            stopsign = cache.stopsign;
          }))
      else some (record {
        decided_snapshot = none;
        suffix = Memory.get_suffix storage common_prefix_idx;
        sync_idx = common_prefix_idx;
        stopsign = cache.stopsign;
      })
