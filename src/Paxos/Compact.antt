-- ===== src/Paxos/Compact.antt =====
-- Trimming and snapshots of a replica, and how they are passed on to the peers
-- (lib/omnipaxos/src/sequence_paxos/mod.rs). `none` is a panic.
use ca_op.Prelude.{leb, if◌then◌else◌, ℕ, Bool, true, Option, none, some, List, []}
use ca_op.Prelude.Panic.{◌>>=◌}
use ca_op.Messages.{Role}
use ca_op.Messages.Paxos.{Compaction, trim_to, snapshot_to, compaction}
use ca_op.Storage
use ca_op.Storage.{SnapshotOps, CompactionErr, not_all_decided, not_current_leader}
use ca_op.Storage.Internal.{InternalStorage}
use ca_op.Storage.Internal.Compact.{try_trim, try_snapshot}
use ca_op.LeaderState.{get_min_all_accepted_idx}
use ca_op.Paxos.{SequencePaxos, eq_role, send_all, get_current_leader}

-- The result of a compaction: a new state, or an error and the old one.
pub data Compacted {ℓ} (A : Type ℓ) : Type ℓ where
  compacted : A → Compacted A
  refused : CompactionErr → Compacted A

-- The trim index of a request: at most what all nodes have accepted.
unfoldable pub trimmed_idx : Option ℕ → ℕ → Option ℕ
trimmed_idx none min_all_accepted_idx = some min_all_accepted_idx
trimmed_idx (some idx) min_all_accepted_idx =
    if leb idx min_all_accepted_idx then some idx else none

module _ {ℓ} {F : Type 0} {T S : Type ℓ} where
  -- A compaction that succeeded is passed on to the peers.
  abbrev pub pass_on :
      SequencePaxos F T S
      → Storage.Result (InternalStorage T S)
      → List ℕ
      → Compaction
      → Compacted (SequencePaxos F T S)
  pass_on s (Storage.Result.ok storage) peers c =
      compacted (send_all (record s { internal_storage = storage }) peers (compaction c))
  pass_on s (Storage.Result.err e) peers c = refused e

  -- The trim of the leader. Panics if there is no member.
  abbrev pub trim_to_idx : SequencePaxos F T S → Option ℕ → ℕ → Compacted (SequencePaxos F T S)
  trim_to_idx s none min_idx = refused (not_all_decided min_idx)
  trim_to_idx s (some idx) min_idx =
      pass_on s (try_trim s.internal_storage idx) s.peers (trim_to idx)

  unfoldable pub trim : SequencePaxos F T S → Option ℕ → Option (Compacted (SequencePaxos F T S))
  unfolding get_min_all_accepted_idx trimmed_idx try_trim send_all
  trim s trim_idx =
      if eq_role s.state.0 Role.leader
      then (get_min_all_accepted_idx s.leader_state >>= λ min_idx.
          some (trim_to_idx s (trimmed_idx trim_idx min_idx) min_idx))
      else some (refused (not_current_leader (get_current_leader s)))

module _ {ℓ} {F : Type 0} {T S : Type ℓ} (ops : SnapshotOps T S) where
  unfoldable pub snapshot : SequencePaxos F T S → Option ℕ → Bool → Compacted (SequencePaxos F T S)
  unfolding try_snapshot send_all
  snapshot s idx local_only =
      pass_on s (try_snapshot ops s.internal_storage idx) (if local_only then [] else s.peers)
        (snapshot_to idx)

  -- The state after a compaction, whose error is ignored.
  abbrev pub or_same : SequencePaxos F T S → Compacted (SequencePaxos F T S) → SequencePaxos F T S
  or_same s (compacted s') = s'
  or_same s (refused e) = s

  unfoldable pub handle_compaction : SequencePaxos F T S → Compaction → SequencePaxos F T S
  unfolding try_trim snapshot send_all
  handle_compaction s (trim_to idx) =
      or_same s (pass_on s (try_trim s.internal_storage idx) [] (trim_to idx))
  handle_compaction s (snapshot_to idx) = or_same s (snapshot s idx true)
