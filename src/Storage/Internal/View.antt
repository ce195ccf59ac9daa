-- ===== src/Storage/Internal/View.antt =====
-- The abstract view of the storage: the whole log since index 0, as if nothing was compacted. The
-- cache mirrors the persistent state, and the back end holds the part of the log that is kept.
pub mod Append
pub mod Compaction
pub mod Snapshots
pub mod Synced
pub mod Reads
pub mod Suffix
mod Tests
use ca_op.Prelude.{get_or_else, length, drop, ◌+◌, ◌≤◌, ◌≡◌, List}
use ca_op.Ballot.{default_ballot}
use ca_op.Storage.Internal.{InternalStorage, stopsign_len}

module _ {ℓ} {T S : Type ℓ} where
  -- What the cache holds is what the back end holds.
  pub record Mirrors (s : InternalStorage T S) : Type ℓ where
    pub promise : get_or_else s.storage.n_prom default_ballot ≡ s.cache.promise
    pub round : get_or_else s.storage.acc_round default_ballot ≡ s.cache.accepted_round
    pub decided : s.storage.ld ≡ s.cache.decided_idx
    pub compacted : s.storage.compacted_idx ≡ s.cache.compacted_idx
    pub trimmed : s.storage.trimmed_idx ≡ s.cache.compacted_idx
    pub stopsign : s.storage.stopsign ≡ s.cache.stopsign

  -- `s` is a state of the storage for the log `h`, of which the batched entries are no part yet.
  pub record Represents (s : InternalStorage T S) (h : List T) : Type ℓ where
    pub mirrors : Mirrors s
    pub log : s.storage.log ≡ drop s.cache.compacted_idx h
    pub accepted : s.cache.accepted_idx ≡ length h + stopsign_len s.cache.stopsign
    pub compacted_le : s.cache.compacted_idx ≤ length h
    pub compacted_decided : s.cache.compacted_idx ≤ s.cache.decided_idx
    pub decided_le : s.cache.decided_idx ≤ s.cache.accepted_idx
