-- ===== src/Storage/Cache.antt =====
-- `StateCache` of lib/omnipaxos/src/storage/state_cache.rs, without the `unicache` feature.
use ca_op.Prelude.{
  leb, ◌==◌, if◌then◌else◌, is_some, length, ℕ, Bool, true, false, ◌&&◌, Option, none, some, List,
  [], ◌∷◌, ◌++◌,
}
use ca_op.Ballot.{Ballot, default_ballot}
use ca_op.Storage.{StopSign}

pub record StateCache {ℓ} (T : Type ℓ) : Type ℓ where
  pub batch_size : ℕ
  pub batched_entries : List T
  pub promise : Ballot
  pub accepted_round : Ballot
  pub decided_idx : ℕ
  pub accepted_idx : ℕ
  pub compacted_idx : ℕ
  pub stopsign : Option StopSign

-- `StateCache::new`
abbrev pub new_cache {ℓ} : {T : Type ℓ} → ℕ → StateCache T
new_cache batch_size = record {
  batch_size = batch_size;
  batched_entries = [];
  promise = default_ballot;
  accepted_round = default_ballot;
  decided_idx = 0;
  accepted_idx = 0;
  compacted_idx = 0;
  stopsign = none;
}

module _ {ℓ} {T : Type ℓ} where
  unfoldable pub take_batched_entries : StateCache T → StateCache T × List T
  take_batched_entries c = (record c { batched_entries = [] }, c.batched_entries)

  unfoldable pub take_entries_if_batch_is_full : StateCache T → StateCache T × Option (List T)
  take_entries_if_batch_is_full c =
      if leb c.batch_size (length c.batched_entries)
      then (record c { batched_entries = [] }, some c.batched_entries)
      else (c, none)

  unfoldable pub cache_entry : StateCache T → T → StateCache T × Option (List T)
  unfolding take_entries_if_batch_is_full
  cache_entry c entry =
      take_entries_if_batch_is_full (record c { batched_entries = c.batched_entries ++ entry ∷ [] })

  unfoldable pub cache_entries : StateCache T → List T → StateCache T × Option (List T)
  unfolding take_entries_if_batch_is_full
  cache_entries c entries =
      take_entries_if_batch_is_full (record c { batched_entries = c.batched_entries ++ entries })

  -- Whether the batch is empty.
  abbrev pub is_empty : List T → Bool
  is_empty [] = true
  is_empty (x ∷ xs) = false

  unfoldable pub cache_stopsign : StateCache T → StopSign → StateCache T × Option (List T)
  cache_stopsign c ss =
      if is_empty c.batched_entries
      then (record c { stopsign = some ss }, none)
      else (record c { stopsign = some ss; batched_entries = [] }, some c.batched_entries)

  unfoldable pub stopsign_is_decided : StateCache T → Bool
  stopsign_is_decided c = is_some c.stopsign && (c.decided_idx == c.accepted_idx)
