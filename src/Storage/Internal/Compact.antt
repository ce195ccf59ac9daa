-- ===== src/Storage/Internal/Compact.antt =====
-- Snapshots and trimming: `create_snapshot`, `create_diff_snapshot`, `try_trim` and
-- `try_snapshot` of lib/omnipaxos/src/storage/internal_storage.rs.
use ca_op.Prelude.{ltb, leb, if◌then◌else◌, ℕ, compare, Ordering, Option, none, some, List, [], ◌∷◌}
use ca_op.Storage
use ca_op.Storage.{
  SnapshotOps, SnapshotType, complete, delta, StorageOp, undecided_index, trimmed_index, Result, ok,
  err, ◌>>=◌,
}
use ca_op.Storage.Memory
use ca_op.Storage.Memory.{write_atomically}
use ca_op.Storage.Internal.{InternalStorage, get_decided_idx_without_stopsign}

module _ {ℓ} {T S : Type ℓ} (ops : SnapshotOps T S) where
  -- The stored snapshot with the changes merged in, if there is one.
  unfoldable pub merge_stored : Option S → S → S
  merge_stored none changes = changes
  merge_stored (some s) changes = ops.merge s changes

  unfoldable pub create_snapshot : InternalStorage T S → ℕ → Result S
  unfolding Memory.get_entries merge_stored
  create_snapshot s compact_idx =
      if ltb compact_idx s.cache.compacted_idx
      then err (trimmed_index s.cache.compacted_idx)
      else ok (
          merge_stored s.storage.snapshot
            (ops.create (Memory.get_entries s.storage s.cache.compacted_idx compact_idx)))

  unfoldable pub create_decided_snapshot : InternalStorage T S → Result S
  unfolding create_snapshot get_decided_idx_without_stopsign
  create_decided_snapshot s = create_snapshot s (get_decided_idx_without_stopsign s)

  -- `Option::map` with the constructor of a complete snapshot.
  abbrev pub as_complete : Option S → Option (SnapshotType S)
  as_complete none = none
  as_complete (some s) = some (complete s)

  unfoldable pub create_diff_snapshot :
      InternalStorage T S → ℕ → Result (Option (SnapshotType S) × ℕ)
  unfolding create_snapshot get_decided_idx_without_stopsign Memory.get_entries
  create_diff_snapshot s from_idx =
      let log_decided_idx = get_decided_idx_without_stopsign s in
      if leb from_idx s.cache.compacted_idx
      then (if ltb s.cache.compacted_idx log_decided_idx
          then (create_snapshot s log_decided_idx >>= λ c. ok (some (complete c), log_decided_idx))
          else ok (as_complete s.storage.snapshot, log_decided_idx))
      else ok (
        some (delta (ops.create (Memory.get_entries s.storage from_idx log_decided_idx))),
        log_decided_idx,
      )

-- The index up to which a request compacts: the stop sign at the end of a decided log stays.
unfoldable pub compaction_idx {ℓ} : {T S : Type ℓ} → InternalStorage T S → ℕ → Result ℕ
unfolding get_decided_idx_without_stopsign
compaction_idx s idx = elim (compare idx s.cache.decided_idx) [
  | Ordering.lt ↦ ok idx
  | Ordering.eq ↦ ok (get_decided_idx_without_stopsign s)
  | Ordering.gt ↦ err (undecided_index s.cache.decided_idx)
]

module _ {ℓ} {T S : Type ℓ} where
  -- The writes of a trim, and of a snapshot if one is given.
  unfoldable pub compact_ops : ℕ → Option S → List (StorageOp T S)
  compact_ops idx none = Storage.StorageOp.trim idx ∷ Storage.StorageOp.set_compacted_idx idx ∷ []
  compact_ops idx (some snapshot) =
      Storage.StorageOp.trim idx
      ∷ Storage.StorageOp.set_compacted_idx idx
      ∷ Storage.StorageOp.set_snapshot (some snapshot)
      ∷ []

  -- The atomic write of a compaction, with the cache brought up to date.
  unfoldable pub compact : InternalStorage T S → ℕ → Option S → InternalStorage T S
  unfolding compact_ops write_atomically
  compact s idx snapshot = record {
    storage = write_atomically s.storage (compact_ops idx snapshot);
    cache = record (s.cache) { compacted_idx = idx };
  }

  unfoldable pub try_trim : InternalStorage T S → ℕ → Result (InternalStorage T S)
  unfolding compaction_idx compact
  try_trim s idx = compaction_idx s idx >>= λ new_compacted_idx.
      ok (
        if ltb s.cache.compacted_idx new_compacted_idx then compact s new_compacted_idx none else s)

-- The index of a snapshot request, by default the decided log.
unfoldable pub snapshot_target {ℓ} : {T S : Type ℓ} → InternalStorage T S → Option ℕ → Result ℕ
unfolding compaction_idx get_decided_idx_without_stopsign
snapshot_target s none = ok (get_decided_idx_without_stopsign s)
snapshot_target s (some i) = compaction_idx s i

module _ {ℓ} {T S : Type ℓ} (ops : SnapshotOps T S) where
  unfoldable pub try_snapshot : InternalStorage T S → Option ℕ → Result (InternalStorage T S)
  unfolding snapshot_target compact create_snapshot
  try_snapshot s snapshot_idx = snapshot_target s snapshot_idx >>= λ new_compacted_idx.
      if ltb s.cache.compacted_idx new_compacted_idx
      then (create_snapshot ops s new_compacted_idx >>= λ snapshot.
          ok (compact s new_compacted_idx (some snapshot)))
      else ok s
