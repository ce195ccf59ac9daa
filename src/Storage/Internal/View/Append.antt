-- ===== src/Storage/Internal/View/Append.antt =====
-- Appending and batching: no entry is lost or reordered.
use ca_op.Prelude.{
  leb, Bool-cases, length, length-append, drop-append_le, ◌+◌, ◌<◌, ◌≡◌, refl, sym, ◌∙◌, ◌⊎◌, inl,
  inr, none, some, List, [], ◌++◌, append-nil, append_assoc, arith,
}
use ca_op.Storage.Internal.{
  InternalStorage, AcceptedMetaData, stopsign_len, append_entries_without_batching,
  append_entries_with_batching, flush_batch,
}
use ca_op.Storage.Internal.View.{Represents}

module _ {ℓ} {T S : Type ℓ} where
  -- Appending goes to the end of the log, and returns the new accepted index.
  pub append_entries-Represents :
      (s : InternalStorage T S) (h es : List T)
      → Represents s h
      → Represents (append_entries_without_batching s es).0 (h ++ es)
        × ((append_entries_without_batching s es).1
            ≡ length (h ++ es) + stopsign_len s.cache.stopsign)
  unfolding append_entries_without_batching
  append_entries-Represents s h es r =
      let longer = length-append h es in
      (
        record {
          mirrors = record {
            promise = r.mirrors.promise;
            round = r.mirrors.round;
            decided = r.mirrors.decided;
            compacted = r.mirrors.compacted;
            trimmed = r.mirrors.trimmed;
            stopsign = r.mirrors.stopsign;
          };
          log = rw (r.log, drop-append_le s.cache.compacted_idx h es r.compacted_le);
          accepted = omega (arith, longer);
          compacted_le = omega (arith, longer);
          compacted_decided = r.compacted_decided;
          decided_le = omega (arith, longer);
        },
        omega (arith, longer),
      )

  -- The log with the batch that waits to be written behind it.
  abbrev pub Holds : InternalStorage T S → List T → Type ℓ
  Holds s l = (h : List T) × Represents s h × (h ++ s.cache.batched_entries ≡ l)

  set_batch-Represents :
      (s : InternalStorage T S) (h batch : List T)
      → Represents s h
      → Represents (record s { cache = record (s.cache) { batched_entries = batch } }) h
  set_batch-Represents s h batch r = record {
    mirrors = record {
      promise = r.mirrors.promise;
      round = r.mirrors.round;
      decided = r.mirrors.decided;
      compacted = r.mirrors.compacted;
      trimmed = r.mirrors.trimmed;
      stopsign = r.mirrors.stopsign;
    };
    log = r.log;
    accepted = r.accepted;
    compacted_le = r.compacted_le;
    compacted_decided = r.compacted_decided;
    decided_le = r.decided_le;
  }

  -- With the batch written out, the whole log is in the back end.
  pub flush_batch-Represents :
      (s : InternalStorage T S) (h : List T)
      → Represents s h
      → Represents (flush_batch s).0 (h ++ s.cache.batched_entries)
        × ((flush_batch s).0.cache.batched_entries ≡ [])
        × ((flush_batch s).1 ≡ (flush_batch s).0.cache.accepted_idx)
  unfolding flush_batch
  flush_batch-Represents s h r =
      let (kept, idx) =
        append_entries-Represents (record s { cache = record (s.cache) { batched_entries = [] } }) h
          s.cache.batched_entries (set_batch-Represents s h [] r) in
      (kept, refl, refl)

  -- Appending through the batch adds the entries at the end of what the replica holds; what is
  -- flushed is the whole batch, and otherwise the batch stays below its size.
  pub append_entries_with_batching-Holds :
      (s : InternalStorage T S) (l es : List T)
      → Holds s l
      → Holds (append_entries_with_batching s es).0 (l ++ es)
        × (((append_entries_with_batching s es).1 ≡ none)
              × (length (append_entries_with_batching s es).0.cache.batched_entries
                  < s.cache.batch_size)
            ⊎ ((m : AcceptedMetaData T) × ((append_entries_with_batching s es).1 ≡ some m)
                × (m.entries ≡ s.cache.batched_entries ++ es)
                × ((append_entries_with_batching s es).0.cache.batched_entries ≡ [])
                × (m.accepted_idx ≡ (append_entries_with_batching s es).0.cache.accepted_idx)))
  unfolding append_entries_with_batching
  append_entries_with_batching-Holds s l es (h, r, e) =
      let batch = s.cache.batched_entries ++ es in
      let whole : h ++ batch ≡ l ++ es =
        rw (← e) (sym (append_assoc h s.cache.batched_entries es)) in
      elim (Bool-cases (leb s.cache.batch_size (length batch))) [
        | inl full ↦
            let (kept, idx) =
              append_entries-Represents
                (record s { cache = record (s.cache) { batched_entries = [] } }) h batch
                (set_batch-Represents s h [] r) in
            rw (full, append_entries_with_batching)
              (
                (h ++ batch, kept, append-nil (h ++ batch) ∙ whole),
                inr (
                  record { accepted_idx = s.cache.accepted_idx + length batch; entries = batch },
                  refl,
                  refl,
                  refl,
                  refl,
                ),
              )
        | inr waits ↦
            rw (waits, append_entries_with_batching)
              ((h, set_batch-Represents s h batch r, whole), inl (refl, ground arith))
      ]
