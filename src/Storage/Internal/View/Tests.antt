-- ===== src/Storage/Internal/View/Tests.antt =====
-- Instances of the theorems: a log of four numbers, of which two are in a snapshot. A snapshot of
-- numbers is their list.
use ca_op.Prelude.{
  ℕ, ◌≤◌, ◌<◌, min, ◌≡◌, refl, ◌⊎◌, inl, true, none, some, List, [], ◌∷◌, ◌++◌, arith,
}
use ca_op.Ballot.{Ballot}
use ca_op.Storage.{SnapshotOps, complete, delta, LogSync, undecided_index, ok, err}
use ca_op.Storage.Internal.{
  InternalStorage, with_storage, append_entries_with_batching, get_decided_idx_without_stopsign,
}
use ca_op.Storage.Internal.Compact.{merge_stored, try_trim, snapshot_target, try_snapshot}
use ca_op.Storage.Internal.Sync.{sync_log}
use ca_op.Storage.Internal.Read.{decided, returned, read_decided_suffix}
use ca_op.Storage.Internal.View.{Represents}
use ca_op.Storage.Internal.View.Append.{append_entries_with_batching-Holds}
use ca_op.Storage.Internal.View.Compaction.{Compacted, try_trim-Represents}
use ca_op.Storage.Internal.View.Snapshots.{Covers, try_snapshot-Covers}
use ca_op.Storage.Internal.View.Synced.{
  sync_log-Represents, sync_log_complete-Represents, sync_log-delta_drops,
}
use ca_op.Storage.Internal.View.Reads.{with_storage-recovers}
use ca_op.Storage.Internal.View.Suffix.{read_decided_suffix-decided}

abbrev listed : SnapshotOps ℕ (List ℕ)
listed = record { create = λ xs. xs; merge = λ xs ys. xs ++ ys; use_snapshots = true }

abbrev round_one : Ballot
round_one = record { config_id = 1; n = 1; priority = 0; pid = 1 }

abbrev round_two : Ballot
round_two = record { config_id = 1; n = 2; priority = 0; pid = 2 }

abbrev whole_log : List ℕ
whole_log = 10 ∷ 11 ∷ 12 ∷ 13 ∷ []

abbrev four : InternalStorage ℕ (List ℕ)
four = record {
  storage = record {
    log = 12 ∷ 13 ∷ [];
    n_prom = some round_one;
    acc_round = some round_one;
    ld = 3;
    trimmed_idx = 2;
    compacted_idx = 2;
    snapshot = some (10 ∷ 11 ∷ []);
    stopsign = none;
  };
  cache = record {
    batch_size = 2;
    batched_entries = [];
    promise = round_one;
    accepted_round = round_one;
    decided_idx = 3;
    accepted_idx = 4;
    compacted_idx = 2;
    stopsign = none;
  };
}

four-Represents : Represents four whole_log
four-Represents = record {
  mirrors = record {
    promise = refl;
    round = refl;
    decided = refl;
    compacted = refl;
    trimmed = refl;
    stopsign = refl;
  };
  log = refl;
  accepted = refl;
  compacted_le = omega arith;
  compacted_decided = omega arith;
  decided_le = omega arith;
}

append_entries_with_batching-Holds_example :
    (h : List ℕ) × Represents (append_entries_with_batching four (14 ∷ 15 ∷ [])).0 h
    × (h ++ (append_entries_with_batching four (14 ∷ 15 ∷ [])).0.cache.batched_entries
        ≡ whole_log ++ 14 ∷ 15 ∷ [])
append_entries_with_batching-Holds_example =
    (append_entries_with_batching-Holds four whole_log (14 ∷ 15 ∷ [])
      (whole_log, four-Represents, refl)).0

try_trim-Represents_example :
    ((◌<◌ 3 5) × (try_trim four 5 ≡ err (undecided_index 3)))
    ⊎ ((◌≤◌ 5 3)
        × ((s' : InternalStorage ℕ (List ℕ)) × (try_trim four 5 ≡ ok s')
            × Compacted four whole_log (min 5 (get_decided_idx_without_stopsign four)) s'))
try_trim-Represents_example = try_trim-Represents four whole_log 5 four-Represents

trims : try_trim four 5 ≡ err (undecided_index 3)
unfolding try_trim
trims = refl

try_snapshot-Covers_example :
    (s' : InternalStorage ℕ (List ℕ)) × (try_snapshot listed four none ≡ ok s')
    × Compacted four whole_log 3 s'
    × Covers listed s' whole_log
unfolding snapshot_target
try_snapshot-Covers_example =
    try_snapshot-Covers listed four whole_log none 3 (λ xs ys. refl) four-Represents (inl refl) refl

abbrev log_update : LogSync ℕ (List ℕ)
log_update = record {
  decided_snapshot = none;
  suffix = 23 ∷ 24 ∷ [];
  sync_idx = 3;
  stopsign = none;
}

sync_log-Represents_example :
    (s' : InternalStorage ℕ (List ℕ)) × (sync_log listed four round_two 4 (some log_update)
      ≡ ok (s', s'.cache.accepted_idx))
    × Represents s' (10 ∷ 11 ∷ 12 ∷ 23 ∷ 24 ∷ [])
    × (s'.cache.accepted_round ≡ round_two)
    × (s'.cache.decided_idx ≡ 4)
    × (s'.cache.stopsign ≡ none)
sync_log-Represents_example =
    sync_log-Represents listed four whole_log round_two 4 log_update four-Represents refl
      (omega arith, omega arith, omega arith, omega arith)

abbrev complete_update : LogSync ℕ (List ℕ)
complete_update = record log_update { decided_snapshot = some (complete (20 ∷ 21 ∷ 22 ∷ [])) }

sync_log_complete-Represents_example :
    (s' : InternalStorage ℕ (List ℕ)) × (sync_log listed four round_two 4 (some complete_update)
      ≡ ok (s', s'.cache.accepted_idx))
    × Represents s' (20 ∷ 21 ∷ 22 ∷ 23 ∷ 24 ∷ [])
    × (s'.storage.snapshot ≡ some (20 ∷ 21 ∷ 22 ∷ []))
sync_log_complete-Represents_example =
    sync_log_complete-Represents listed four whole_log (20 ∷ 21 ∷ 22 ∷ []) round_two 4
      complete_update (20 ∷ 21 ∷ 22 ∷ []) four-Represents refl refl (omega arith) (omega arith)

-- The replica has decided entry 12, which is in neither its snapshot nor the changes, and after
-- the update it is gone.
abbrev delta_update : LogSync ℕ (List ℕ)
delta_update = record {
  decided_snapshot = some (delta (13 ∷ 14 ∷ []));
  suffix = 15 ∷ [];
  sync_idx = 5;
  stopsign = none;
}

sync_log-delta_drops_example :
    (s' : InternalStorage ℕ (List ℕ)) × (sync_log listed four round_two 5 (some delta_update)
      ≡ ok (s', s'.cache.accepted_idx))
    × (s'.storage.snapshot ≡ some (10 ∷ 11 ∷ 13 ∷ 14 ∷ []))
    × (s'.storage.log ≡ 15 ∷ [])
    × (s'.storage.trimmed_idx ≡ 5)
unfolding merge_stored
sync_log-delta_drops_example =
    sync_log-delta_drops listed four whole_log round_two 5 delta_update (13 ∷ 14 ∷ [])
      four-Represents refl refl (omega arith)

with_storage-recovers_example : with_storage four.storage 2 ≡ four
with_storage-recovers_example = with_storage-recovers four whole_log four-Represents

read_decided_suffix-decided_example : read_decided_suffix four 2 ≡ returned (some (decided 12 ∷ []))
read_decided_suffix-decided_example =
    read_decided_suffix-decided four whole_log 2 four-Represents (omega arith)
