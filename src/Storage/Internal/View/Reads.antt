-- ===== src/Storage/Internal/View/Reads.antt =====
-- What a restart finds.
use ca_op.Prelude.{length, length-drop, ◌+◌, ◌≡◌, ap, List, [], arith}
use ca_op.Storage.Internal.{InternalStorage, stopsign_len, with_storage}
use ca_op.Storage.Internal.View.{Represents}

module _ {ℓ} {T S : Type ℓ} where
  -- After a crash the cache that is loaded from the back end is the one before it, except for the
  -- batch, which had not been written.
  pub with_storage-recovers :
      (s : InternalStorage T S) (h : List T)
      → Represents s h
      → with_storage s.storage s.cache.batch_size
        ≡ record s { cache = record (s.cache) { batched_entries = [] } }
  unfolding with_storage
  with_storage-recovers s h r = λ i. record {
    storage = s.storage;
    cache = record {
      batch_size = s.cache.batch_size;
      batched_entries = [];
      promise = r.mirrors.promise i;
      accepted_round = r.mirrors.round i;
      decided_idx = r.mirrors.decided i;
      accepted_idx = loaded i;
      compacted_idx = r.mirrors.compacted i;
      stopsign = r.mirrors.stopsign i;
    };
  }
    where
      loaded :
          length s.storage.log + s.storage.compacted_idx + stopsign_len s.storage.stopsign
          ≡ s.cache.accepted_idx
      loaded = rw r.mirrors.stopsign (
          omega (
            arith,
            r.accepted,
            r.compacted_le,
            r.mirrors.compacted,
            ap length r.log,
            length-drop s.cache.compacted_idx h,
          ))
