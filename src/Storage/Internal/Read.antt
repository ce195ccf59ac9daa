-- ===== src/Storage/Internal/Read.antt =====
-- Reading a range of the log: `read`, `read_decided_suffix` and their helpers
-- (lib/omnipaxos/src/storage/internal_storage.rs), with `LogEntry` and `IndexEntry` of
-- lib/omnipaxos/src/util.rs.
use ca_op.Prelude.{
  ltb, ◌==◌, if◌then◌else◌, sub_usize, ℕ, ◌+◌, Bool, Option, none, some, List, [], ◌∷◌, ◌++◌,
}
use ca_op.Storage.{StopSign}
use ca_op.Storage.Memory
use ca_op.Storage.Cache.{stopsign_is_decided}
use ca_op.Storage.Internal.{InternalStorage}

pub record SnapshottedEntry {ℓ} (S : Type ℓ) : Type ℓ where
  pub trimmed_idx : ℕ
  pub snapshot : S

pub data LogEntry {ℓ} (T S : Type ℓ) : Type ℓ where
  decided : T → LogEntry T S
  undecided : T → LogEntry T S
  trimmed : ℕ → LogEntry T S
  snapshotted : SnapshottedEntry S → LogEntry T S
  stop_sign : StopSign → Bool → LogEntry T S

pub data IndexEntry : Type 0 where
  entry : IndexEntry
  compacted : IndexEntry
  stop : StopSign → IndexEntry

pub data Bound : Type 0 where
  included : ℕ → Bound
  excluded : ℕ → Bound
  unbounded : Bound

-- The outcome of a read; `unimplemented!` panics.
pub data Outcome {ℓ} (A : Type ℓ) : Type ℓ where
  returned : Option A → Outcome A
  panicked : Outcome A

-- The first index of a range, and the index after its last.
unfoldable pub start_of : Bound → ℕ
start_of (included i) = i
start_of (excluded e) = e + 1
start_of unbounded = 0

unfoldable pub end_of : Bound → ℕ → ℕ
end_of (included i) accepted_idx = i + 1
end_of (excluded e) accepted_idx = e
end_of unbounded accepted_idx = accepted_idx

-- What stands at the last index of the log.
abbrev pub last_type : Option StopSign → IndexEntry
last_type (some ss) = stop ss
last_type none = entry

unfoldable pub get_entry_type : Option StopSign → ℕ → ℕ → ℕ → Option IndexEntry
get_entry_type ss idx compacted_idx accepted_idx =
    if ltb idx compacted_idx
    then some compacted
    else (if ltb (idx + 1) accepted_idx
        then some entry
        else (if (idx + 1) == accepted_idx then some (last_type ss) else none))

module _ {ℓ} {T S : Type ℓ} where
  -- The entries from log index `log_idx` on, each with its decision.
  unfoldable pub mark_entries : ℕ → ℕ → List T → List (LogEntry T S)
  mark_entries decided_idx log_idx [] = []
  mark_entries decided_idx log_idx (e ∷ es) =
      (if ltb log_idx decided_idx then decided e else undecided e)
      ∷ mark_entries decided_idx (log_idx + 1) es

  unfoldable pub create_read_log_entries : InternalStorage T S → ℕ → ℕ → List (LogEntry T S)
  unfolding mark_entries Memory.get_entries
  create_read_log_entries s from to =
      mark_entries s.cache.decided_idx from (Memory.get_entries s.storage from to)

  unfoldable pub create_compacted_entry : Option S → ℕ → LogEntry T S
  create_compacted_entry (some s) compacted_idx =
      snapshotted (record { trimmed_idx = compacted_idx; snapshot = s })
  create_compacted_entry none compacted_idx = trimmed compacted_idx

  -- The five combinations of the entries at the ends of a range, and the rest.
  unfoldable pub read_range :
      InternalStorage T S → ℕ → ℕ → IndexEntry → IndexEntry → Outcome (List (LogEntry T S))
  unfolding create_read_log_entries create_compacted_entry stopsign_is_decided
  read_range s from to entry entry = returned (some (create_read_log_entries s from to))
  read_range s from to entry (stop ss) = returned (
      some (
        create_read_log_entries s from (sub_usize to 1)
        ++ stop_sign ss (stopsign_is_decided s.cache) ∷ []))
  read_range s from to compacted entry = returned (
      some (
        create_compacted_entry s.storage.snapshot s.cache.compacted_idx
        ∷ create_read_log_entries s s.cache.compacted_idx to))
  read_range s from to compacted (stop ss) = returned (
      some (
        create_compacted_entry s.storage.snapshot s.cache.compacted_idx
        ∷ (create_read_log_entries s s.cache.compacted_idx (sub_usize to 1)
            ++ stop_sign ss (stopsign_is_decided s.cache) ∷ [])))
  read_range s from to (stop ss) (stop _) =
      returned (some (stop_sign ss (stopsign_is_decided s.cache) ∷ []))
  read_range s from to _ _ = panicked

  -- The type of the first entry, when the last one is no compacted entry.
  unfoldable pub read_from :
      InternalStorage T S → ℕ → ℕ → IndexEntry → Option IndexEntry → Outcome (List (LogEntry T S))
  unfolding read_range
  read_from s from to to_type none = returned none
  read_from s from to to_type (some from_type) = read_range s from to from_type to_type

  unfoldable pub read_to :
      InternalStorage T S → ℕ → ℕ → Option IndexEntry → Outcome (List (LogEntry T S))
  unfolding read_from get_entry_type create_compacted_entry
  read_to s from to none = returned none
  read_to s from to (some compacted) =
      returned (some (create_compacted_entry s.storage.snapshot s.cache.compacted_idx ∷ []))
  read_to s from to (some to_type) =
      read_from s from to to_type
        (get_entry_type s.cache.stopsign from s.cache.compacted_idx s.cache.accepted_idx)

  unfoldable pub read : InternalStorage T S → Bound → Bound → Outcome (List (LogEntry T S))
  unfolding read_to start_of end_of get_entry_type
  read s start_bound end_bound =
      let to_idx = end_of end_bound s.cache.accepted_idx in
      if to_idx == 0
      then returned none
      else read_to s (start_of start_bound) to_idx (
          get_entry_type s.cache.stopsign (sub_usize to_idx 1) s.cache.compacted_idx
            s.cache.accepted_idx)

  unfoldable pub read_decided_suffix : InternalStorage T S → ℕ → Outcome (List (LogEntry T S))
  unfolding read
  read_decided_suffix s from_idx =
      if ltb from_idx s.cache.decided_idx
      then read s (included from_idx) (excluded s.cache.decided_idx)
      else returned none
