-- ===== src/Storage/Internal/View/Synced.antt =====
-- What `sync_log` makes of the log, and the snapshot that it stores.
use ca_op.Prelude.{
  ltb, length, take, drop, length-append, length-take, drop-length-append, sub_usize_self, ℕ, ◌+◌,
  ◌≤◌, ◌<◌, ◌≡◌, refl, sym, ap, ◌∙◌, false, Option, none, some, List, [], ◌++◌, arith,
}
use ca_op.Ballot.{Ballot}
use ca_op.Storage.{StopSign, SnapshotOps, complete, delta, LogSync, ok}
use ca_op.Storage.Memory
use ca_op.Storage.Memory.{MemoryStorage, write_atomically}
use ca_op.Storage.Memory.Window.{get_entries_beyond, append_on_prefix-log}
use ca_op.Storage.Internal.{InternalStorage, stopsign_len, get_decided_idx_without_stopsign}
use ca_op.Storage.Internal.Compact.{merge_stored, create_decided_snapshot}
use ca_op.Storage.Internal.Sync.{stopsign_ops, synced_cache, begin_sync, sync_log}
use ca_op.Storage.Internal.View.{Represents}

module _ {ℓ} {T S : Type ℓ} where
  -- The writes for the stop sign leave the new one in the back end.
  stopsign-written :
      (m : MemoryStorage T S) (new old : Option StopSign)
      → m.stopsign ≡ old
      → write_atomically m (stopsign_ops new old) ≡ record m { stopsign = new }
  unfolding write_atomically stopsign_ops
  stopsign-written m (some ss) old e = refl
  stopsign-written m none (some old) e = refl
  stopsign-written m none none e = ap (λ ss. record m { stopsign = ss }) e

  -- The back end before the stop sign is written: after an update at an index, and after one with
  -- a snapshot.
  appended : InternalStorage T S → Ballot → ℕ → LogSync T S → MemoryStorage T S
  appended s n decided_idx sync =
      Memory.append_on_prefix (record (s.storage) { acc_round = some n; ld = decided_idx })
        sync.sync_idx sync.suffix

  replaced : InternalStorage T S → Ballot → ℕ → LogSync T S → S → MemoryStorage T S
  replaced s n decided_idx sync snapshot =
      Memory.append_on_prefix
        (record (Memory.trim (record (s.storage) { acc_round = some n; ld = decided_idx })
          sync.sync_idx) { compacted_idx = sync.sync_idx; snapshot = some snapshot })
        sync.sync_idx sync.suffix

  -- The state with the stop sign of the update written to `m`.
  finished :
      InternalStorage T S
      → Ballot
      → ℕ
      → LogSync T S
      → Option S
      → MemoryStorage T S
      → InternalStorage T S
  finished s n decided_idx sync snapshot m = record {
    storage = record m { stopsign = sync.stopsign };
    cache = synced_cache (begin_sync s n decided_idx).cache sync snapshot;
  }

module _ {ℓ} {T S : Type ℓ} (ops : SnapshotOps T S) where
  -- What a log update must satisfy at a replica: without a snapshot it starts inside the log that
  -- is kept, and the decided index lies in the new log. With a snapshot it starts at an index that
  -- is decided and not compacted further.
  abbrev pub Fits : InternalStorage T S → List T → ℕ → LogSync T S → Type 0
  Fits s h decided_idx sync =
      (s.cache.compacted_idx ≤ sync.sync_idx)
      × (sync.sync_idx ≤ length h)
      × (s.cache.compacted_idx ≤ decided_idx)
      × (decided_idx ≤ sync.sync_idx + length sync.suffix + stopsign_len sync.stopsign)

  -- A log update with no snapshot keeps the own log up to the index of the update and puts the
  -- suffix, and the stop sign if there is one, behind it; the round, the decided index and the
  -- accepted index are those of the update, also in the back end.
  pub sync_log-Represents :
      (s : InternalStorage T S) (h : List T) (n : Ballot) (decided_idx : ℕ) (sync : LogSync T S)
      → Represents s h
      → sync.decided_snapshot ≡ none
      → Fits s h decided_idx sync
      → (s' : InternalStorage T S) × (sync_log ops s n decided_idx (some sync)
          ≡ ok (s', s'.cache.accepted_idx))
        × Represents s' (take sync.sync_idx h ++ sync.suffix)
        × (s'.cache.accepted_round ≡ n)
        × (s'.cache.decided_idx ≡ decided_idx)
        × (s'.cache.stopsign ≡ sync.stopsign)
  unfolding sync_log finished appended
  sync_log-Represents s h n decided_idx sync r plain (low, inside, dec, high) = (
    finished s n decided_idx sync none (appended s n decided_idx sync),
    rw (plain, sync_log)
        (ap
          (λ m. ok (
            record {
              storage = m;
              cache = synced_cache (begin_sync s n decided_idx).cache sync none;
            },
            sync.sync_idx + length sync.suffix + stopsign_len sync.stopsign,
          ))
          (stopsign-written (appended s n decided_idx sync) sync.stopsign s.cache.stopsign
            r.mirrors.stopsign)),
    record {
      mirrors = record {
        promise = r.mirrors.promise;
        round = refl;
        decided = refl;
        compacted = r.mirrors.compacted;
        trimmed = r.mirrors.trimmed;
        stopsign = refl;
      };
      log =
          append_on_prefix-log (record (s.storage) { acc_round = some n; ld = decided_idx }) h
            s.cache.compacted_idx sync.sync_idx sync.suffix r.mirrors.trimmed r.log low inside;
      accepted = omega (arith, grown);
      compacted_le = omega (arith, grown);
      compacted_decided = dec;
      decided_le = high;
    },
    refl,
    refl,
    refl,
  )
    where
      grown : length (take sync.sync_idx h ++ sync.suffix) ≡ sync.sync_idx + length sync.suffix
      grown =
          omega
            (arith, length-append (take sync.sync_idx h) sync.suffix, length-take sync.sync_idx h)

  -- A log update with a complete snapshot replaces the own log, whatever prefix `p` of the length
  -- of its index the snapshot stands for.
  pub sync_log_complete-Represents :
      (s : InternalStorage T S) (h p : List T) (n : Ballot) (decided_idx : ℕ) (sync : LogSync T S)
      (snapshot : S)
      → Represents s h
      → sync.decided_snapshot ≡ some (complete snapshot)
      → length p ≡ sync.sync_idx
      → sync.sync_idx ≤ decided_idx
      → decided_idx ≤ sync.sync_idx + length sync.suffix + stopsign_len sync.stopsign
      → (s' : InternalStorage T S) × (sync_log ops s n decided_idx (some sync)
          ≡ ok (s', s'.cache.accepted_idx))
        × Represents s' (p ++ sync.suffix)
        × (s'.storage.snapshot ≡ some snapshot)
  unfolding sync_log finished replaced
  sync_log_complete-Represents s h p n decided_idx sync snapshot r comp size low high = (
    finished s n decided_idx sync (some snapshot) (replaced s n decided_idx sync snapshot),
    rw (comp, sync_log)
        (ap
          (λ m. ok (
            record {
              storage = m;
              cache = synced_cache (begin_sync s n decided_idx).cache sync (some snapshot);
            },
            sync.sync_idx + length sync.suffix + stopsign_len sync.stopsign,
          ))
          (stopsign-written (replaced s n decided_idx sync snapshot) sync.stopsign s.cache.stopsign
            r.mirrors.stopsign)),
    record {
      mirrors = record {
        promise = r.mirrors.promise;
        round = refl;
        decided = refl;
        compacted = refl;
        trimmed = refl;
        stopsign = refl;
      };
      log =
          rw (sub_usize_self sync.sync_idx) (
            sym
              (ap (λ k. drop k (p ++ sync.suffix)) (sym size) ∙ drop-length-append p sync.suffix));
      accepted = omega (arith, length-append p sync.suffix);
      compacted_le = omega (arith, length-append p sync.suffix);
      compacted_decided = low;
      decided_le = high;
    },
    refl,
  )

  -- The bug in `sync_log`: a replica that gets a delta snapshot merges it into a snapshot of its
  -- own decided log, but the decided index in the cache is by then the new one. If that lies beyond
  -- the own log, the snapshot is made of no entries: the decided entries since the last compaction
  -- are in neither the stored snapshot nor, after the trim to the index of the update, the log.
  pub sync_log-delta_drops :
      (s : InternalStorage T S) (h : List T) (n : Ballot) (decided_idx : ℕ) (sync : LogSync T S)
      (changes : S)
      → Represents s h
      → sync.decided_snapshot ≡ some (delta changes)
      → s.cache.stopsign ≡ none
      → length h < decided_idx
      → (s' : InternalStorage T S) × (sync_log ops s n decided_idx (some sync)
          ≡ ok (s', s'.cache.accepted_idx))
        × (s'.storage.snapshot
            ≡ some (ops.merge (merge_stored ops s.storage.snapshot (ops.create [])) changes))
        × (s'.storage.log ≡ sync.suffix)
        × (s'.storage.trimmed_idx ≡ sync.sync_idx)
  unfolding sync_log finished replaced
  sync_log-delta_drops s h n decided_idx sync changes r del plain beyond = (
    finished s n decided_idx sync (some lost) (replaced s n decided_idx sync lost),
    rw (del, sync_log, made)
        (ap
          (λ m. ok (
            record {
              storage = m;
              cache = synced_cache (begin_sync s n decided_idx).cache sync (some lost);
            },
            sync.sync_idx + length sync.suffix + stopsign_len sync.stopsign,
          ))
          (stopsign-written (replaced s n decided_idx sync lost) sync.stopsign s.cache.stopsign
            r.mirrors.stopsign)),
    refl,
    rw (sub_usize_self sync.sync_idx) refl,
    refl,
  )
    where
      lost : S
      lost = ops.merge (merge_stored ops s.storage.snapshot (ops.create [])) changes

      made :
          create_decided_snapshot ops (begin_sync s n decided_idx)
          ≡ ok (merge_stored ops s.storage.snapshot (ops.create []))
      made =
          let log_end : get_decided_idx_without_stopsign (begin_sync s n decided_idx)
              ≡ decided_idx =
            rw plain in
          let early : ltb decided_idx s.cache.compacted_idx ≡ false = ground arith in
          let nothing =
            get_entries_beyond s.storage h s.cache.compacted_idx s.cache.compacted_idx decided_idx
              r.mirrors.trimmed r.log r.compacted_le (omega arith) (omega arith) beyond in
          rw (log_end, early, nothing) refl
