-- ===== src/Storage/Internal/Sync.antt =====
-- `sync_log` of lib/omnipaxos/src/storage/internal_storage.rs: the log of another replica replaces
-- the own one from an index on, in one atomic write.
use ca_op.Prelude.{if◌then◌else◌, is_some, length, ℕ, ◌+◌, Option, none, some, List, [], ◌∷◌, ◌++◌}
use ca_op.Ballot.{Ballot}
use ca_op.Storage
use ca_op.Storage.{
  StopSign, SnapshotOps, SnapshotType, complete, delta, LogSync, StorageOp, Result, ok, ◌>>=◌,
}
use ca_op.Storage.Memory.{write_atomically}
use ca_op.Storage.Cache.{StateCache}
use ca_op.Storage.Internal.{InternalStorage, stopsign_len}
use ca_op.Storage.Internal.Compact.{create_decided_snapshot}

-- The snapshot that `sync_log` stores. The changes of a delta are merged into a snapshot of the
-- own decided log, where the cache has the new decided index already.
unfoldable pub synced_snapshot {ℓ} :
    {T S : Type ℓ}
    → SnapshotOps T S
    → InternalStorage T S
    → Option (SnapshotType S)
    → Result (Option S)
unfolding create_decided_snapshot
synced_snapshot ops s none = ok none
synced_snapshot ops s (some (complete c)) = ok (some c)
synced_snapshot ops s (some (delta d)) =
    create_decided_snapshot ops s >>= λ snapshot. ok (some (ops.merge snapshot d))

module _ {ℓ} {T S : Type ℓ} where
  -- The writes for the stop sign: a new one is stored, an old one that the log lacks is removed.
  unfoldable pub stopsign_ops : Option StopSign → Option StopSign → List (StorageOp T S)
  stopsign_ops (some ss) old = Storage.StorageOp.set_stopsign (some ss) ∷ []
  stopsign_ops none (some old) = Storage.StorageOp.set_stopsign none ∷ []
  stopsign_ops none none = []

  unfoldable pub snapshot_ops : ℕ → Option S → List (StorageOp T S)
  snapshot_ops sync_idx none = []
  snapshot_ops sync_idx (some snapshot) =
      Storage.StorageOp.trim sync_idx
      ∷ Storage.StorageOp.set_compacted_idx sync_idx
      ∷ Storage.StorageOp.set_snapshot (some snapshot)
      ∷ []

  -- `sync_txn`
  unfoldable pub sync_txn :
      Ballot → ℕ → Option StopSign → LogSync T S → Option S → List (StorageOp T S)
  unfolding snapshot_ops stopsign_ops
  sync_txn accepted_round decided_idx old sync snapshot =
      Storage.StorageOp.set_accepted_round accepted_round
      ∷ Storage.StorageOp.set_decided_index decided_idx
      ∷ (snapshot_ops sync.sync_idx snapshot
          ++ (Storage.StorageOp.append_on_prefix sync.sync_idx sync.suffix
              ∷ stopsign_ops sync.stopsign old))

  -- The cache after the transaction.
  unfoldable pub synced_cache : StateCache T → LogSync T S → Option S → StateCache T
  synced_cache c sync snapshot = record c {
    compacted_idx = if is_some snapshot then sync.sync_idx else c.compacted_idx;
    accepted_idx = sync.sync_idx + length sync.suffix + stopsign_len sync.stopsign;
    stopsign = sync.stopsign;
  }

  -- The first two assignments of `sync_log`.
  unfoldable pub begin_sync : InternalStorage T S → Ballot → ℕ → InternalStorage T S
  begin_sync s accepted_round decided_idx = record s {
    cache = record (s.cache) { accepted_round = accepted_round; decided_idx = decided_idx };
  }

module _ {ℓ} {T S : Type ℓ} (ops : SnapshotOps T S) where
  unfoldable pub sync_log :
      InternalStorage T S → Ballot → ℕ → Option (LogSync T S) → Result (InternalStorage T S × ℕ)
  unfolding begin_sync synced_snapshot sync_txn synced_cache write_atomically
  sync_log s accepted_round decided_idx none = ok (
    record {
      storage = write_atomically s.storage (
          Storage.StorageOp.set_accepted_round accepted_round
          ∷ Storage.StorageOp.set_decided_index decided_idx
          ∷ []);
      cache = (begin_sync s accepted_round decided_idx).cache;
    },
    s.cache.accepted_idx,
  )
  sync_log s accepted_round decided_idx (some sync) =
      let s' = begin_sync s accepted_round decided_idx in
      synced_snapshot ops s' sync.decided_snapshot >>= λ snapshot.
      let c = synced_cache s'.cache sync snapshot in
      ok (
        record {
          storage =
              write_atomically s.storage
                (sync_txn accepted_round decided_idx s.cache.stopsign sync snapshot);
          cache = c;
        },
        c.accepted_idx,
      )
