-- ===== src/Storage/Internal.antt =====
-- `InternalStorage` of lib/omnipaxos/src/storage/internal_storage.rs, over `MemoryStorage`, without
-- the `unicache` feature. Indices count log entries and do not reach the end of a `usize`.
pub mod Compact
pub mod Sync
pub mod Read
pub mod View
use ca_op.Prelude.{if◌then◌else◌, get_or_else, length, sub_usize, ℕ, ◌+◌, Option, none, some, List}
use ca_op.Ballot.{Ballot, default_ballot}
use ca_op.Storage.{StopSign}
use ca_op.Storage.Memory
use ca_op.Storage.Memory.{MemoryStorage}
use ca_op.Storage.Cache.{
  StateCache, new_cache, take_batched_entries, cache_entry, cache_entries, is_empty, cache_stopsign,
  stopsign_is_decided,
}

pub record InternalStorage {ℓ} (T S : Type ℓ) : Type ℓ where
  pub storage : MemoryStorage T S
  pub cache : StateCache T

-- `AcceptedMetaData` of lib/omnipaxos/src/util.rs.
pub record AcceptedMetaData {ℓ} (T : Type ℓ) : Type ℓ where
  pub accepted_idx : ℕ
  pub entries : List T

-- The stop sign takes one place in the log.
abbrev pub stopsign_len : Option StopSign → ℕ
stopsign_len none = 0
stopsign_len (some ss) = 1

-- The accepted index of a flush, if there was one.
abbrev pub flushed_idx {ℓ} : {T : Type ℓ} → Option (AcceptedMetaData T) → Option ℕ
flushed_idx none = none
flushed_idx (some m) = some m.accepted_idx

-- The accepted index when the stop sign changes from `old` to `new`.
unfoldable pub accepted_with_stopsign : Option StopSign → Option StopSign → ℕ → ℕ
accepted_with_stopsign none (some ss) accepted_idx = accepted_idx + 1
accepted_with_stopsign (some old) none accepted_idx = sub_usize accepted_idx 1
accepted_with_stopsign _ _ accepted_idx = accepted_idx

module _ {ℓ} {T S : Type ℓ} where
  -- `load_cache`
  unfoldable pub load_cache : InternalStorage T S → InternalStorage T S
  unfolding Memory.get_log_len
  load_cache s = record s {
    cache = record (s.cache) {
      promise = get_or_else s.storage.n_prom default_ballot;
      decided_idx = s.storage.ld;
      accepted_round = get_or_else s.storage.acc_round default_ballot;
      compacted_idx = s.storage.compacted_idx;
      stopsign = s.storage.stopsign;
      accepted_idx =
          Memory.get_log_len s.storage + s.storage.compacted_idx + stopsign_len s.storage.stopsign;
    };
  }

  -- `InternalStorage::with`
  unfoldable pub with_storage : MemoryStorage T S → ℕ → InternalStorage T S
  unfolding load_cache
  with_storage storage batch_size =
      load_cache (record { storage = storage; cache = new_cache batch_size })

  unfoldable pub append_entries_without_batching :
      InternalStorage T S → List T → InternalStorage T S × ℕ
  unfolding Memory.append_entries
  append_entries_without_batching s entries =
      let accepted_idx' = s.cache.accepted_idx + length entries in
      (
        record {
          storage = Memory.append_entries s.storage entries;
          cache = record (s.cache) { accepted_idx = accepted_idx' };
        },
        accepted_idx',
      )

  unfoldable pub flush_if_full_batch :
      InternalStorage T S → Option (List T) → InternalStorage T S × Option (AcceptedMetaData T)
  unfolding append_entries_without_batching
  flush_if_full_batch s none = (s, none)
  flush_if_full_batch s (some flushed) =
      let (s', accepted_idx') = append_entries_without_batching s flushed in
      (s', some (record { accepted_idx = accepted_idx'; entries = flushed }))

  unfoldable pub append_entry_with_batching :
      InternalStorage T S → T → InternalStorage T S × Option (AcceptedMetaData T)
  unfolding flush_if_full_batch cache_entry
  append_entry_with_batching s entry =
      let (c, flushed) = cache_entry s.cache entry in
      flush_if_full_batch (record s { cache = c }) flushed

  unfoldable pub append_entries_with_batching :
      InternalStorage T S → List T → InternalStorage T S × Option (AcceptedMetaData T)
  unfolding flush_if_full_batch cache_entries
  append_entries_with_batching s entries =
      let (c, flushed) = cache_entries s.cache entries in
      flush_if_full_batch (record s { cache = c }) flushed

  -- The last two lines of `append_stopsign`.
  unfoldable pub place_stopsign : InternalStorage T S → StopSign → InternalStorage T S
  unfolding Memory.set_stopsign
  place_stopsign s ss = record {
    storage = Memory.set_stopsign s.storage (some ss);
    cache = record (s.cache) { accepted_idx = s.cache.accepted_idx + 1 };
  }

  unfoldable pub append_stopsign :
      InternalStorage T S → StopSign → InternalStorage T S × Option (AcceptedMetaData T)
  unfolding flush_if_full_batch cache_stopsign place_stopsign
  append_stopsign s ss =
      let (c, flushed) = cache_stopsign s.cache ss in
      let (s', metadata) = flush_if_full_batch (record s { cache = c }) flushed in
      (place_stopsign s' ss, metadata)

  unfoldable pub append_entries_and_get_accepted_idx :
      InternalStorage T S → List T → InternalStorage T S × Option ℕ
  unfolding flush_if_full_batch cache_entries
  append_entries_and_get_accepted_idx s entries =
      let (c, flushed) = cache_entries s.cache entries in
      let (s', metadata) = flush_if_full_batch (record s { cache = c }) flushed in
      (s', flushed_idx metadata)

  unfoldable pub flush_batch : InternalStorage T S → InternalStorage T S × ℕ
  unfolding append_entries_without_batching take_batched_entries
  flush_batch s =
      let (c, flushed) = take_batched_entries s.cache in
      append_entries_without_batching (record s { cache = c }) flushed

  unfoldable pub flush_batch_and_get_entries :
      InternalStorage T S → InternalStorage T S × Option (AcceptedMetaData T)
  unfolding flush_if_full_batch take_batched_entries
  flush_batch_and_get_entries s =
      let (c, flushed) = take_batched_entries s.cache in
      if is_empty s.cache.batched_entries
      then flush_if_full_batch s none
      else flush_if_full_batch (record s { cache = c }) (some flushed)

  unfoldable pub set_promise : InternalStorage T S → Ballot → InternalStorage T S
  unfolding Memory.set_promise
  set_promise s n_prom = record {
    storage = Memory.set_promise s.storage n_prom;
    cache = record (s.cache) { promise = n_prom };
  }

  unfoldable pub set_decided_idx : InternalStorage T S → ℕ → InternalStorage T S
  unfolding Memory.set_decided_idx
  set_decided_idx s idx = record {
    storage = Memory.set_decided_idx s.storage idx;
    cache = record (s.cache) { decided_idx = idx };
  }

  unfoldable pub get_decided_idx_without_stopsign : InternalStorage T S → ℕ
  unfolding stopsign_is_decided
  get_decided_idx_without_stopsign s =
      if stopsign_is_decided s.cache then sub_usize s.cache.decided_idx 1 else s.cache.decided_idx

  unfoldable pub set_stopsign : InternalStorage T S → Option StopSign → InternalStorage T S × ℕ
  unfolding Memory.set_stopsign accepted_with_stopsign
  set_stopsign s ss =
      let accepted_idx' = accepted_with_stopsign s.cache.stopsign ss s.cache.accepted_idx in
      (
        record {
          storage = Memory.set_stopsign s.storage ss;
          cache = record (s.cache) { stopsign = ss; accepted_idx = accepted_idx' };
        },
        accepted_idx',
      )
