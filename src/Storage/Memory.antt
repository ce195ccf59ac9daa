-- ===== src/Storage/Memory.antt =====
-- `MemoryStorage` of lib/omnipaxos_storage/src/memory_storage.rs. An index is relative to the
-- trimmed one, by a `usize` subtraction that wraps in the release build.
pub mod Window
use ca_op.Prelude.{
  leb, if◌then◌else◌, length, take, drop, sub_usize, ℕ, ◌-◌, min, ◌&&◌, Option, none, some, List,
  [], ◌∷◌, ◌++◌,
}
use ca_op.Ballot.{Ballot}
use ca_op.Storage.{StopSign, StorageOp}

pub record MemoryStorage {ℓ} (T S : Type ℓ) : Type ℓ where
  pub log : List T
  pub n_prom : Option Ballot
  pub acc_round : Option Ballot
  pub ld : ℕ
  pub trimmed_idx : ℕ
  pub compacted_idx : ℕ
  pub snapshot : Option S
  pub stopsign : Option StopSign

-- `slice.get(from..to)` with the empty slice for `None`.
unfoldable pub slice {ℓ} : {A : Type ℓ} → ℕ → ℕ → List A → List A
slice from to l = if leb from to && leb to (length l) then take (to - from) (drop from l) else []

module _ {ℓ} {T S : Type ℓ} where
  unfoldable pub append_entry : MemoryStorage T S → T → MemoryStorage T S
  append_entry s entry = record s { log = s.log ++ entry ∷ [] }

  unfoldable pub append_entries : MemoryStorage T S → List T → MemoryStorage T S
  append_entries s entries = record s { log = s.log ++ entries }

  unfoldable pub append_on_prefix : MemoryStorage T S → ℕ → List T → MemoryStorage T S
  append_on_prefix s from_idx entries = record s {
    log = take (sub_usize from_idx s.trimmed_idx) s.log ++ entries;
  }

  unfoldable pub set_promise : MemoryStorage T S → Ballot → MemoryStorage T S
  set_promise s n_prom = record s { n_prom = some n_prom }

  unfoldable pub set_decided_idx : MemoryStorage T S → ℕ → MemoryStorage T S
  set_decided_idx s ld = record s { ld = ld }

  unfoldable pub set_accepted_round : MemoryStorage T S → Ballot → MemoryStorage T S
  set_accepted_round s na = record s { acc_round = some na }

  unfoldable pub get_entries : MemoryStorage T S → ℕ → ℕ → List T
  unfolding slice
  get_entries s from to = slice (sub_usize from s.trimmed_idx) (sub_usize to s.trimmed_idx) s.log

  unfoldable pub get_log_len : MemoryStorage T S → ℕ
  get_log_len s = length s.log

  unfoldable pub get_suffix : MemoryStorage T S → ℕ → List T
  get_suffix s from =
      let from' = sub_usize from s.trimmed_idx in
      if leb from' (length s.log) then drop from' s.log else []

  unfoldable pub set_stopsign : MemoryStorage T S → Option StopSign → MemoryStorage T S
  set_stopsign s ss = record s { stopsign = ss }

  unfoldable pub trim : MemoryStorage T S → ℕ → MemoryStorage T S
  trim s idx = record s {
    log = drop (min (sub_usize idx s.trimmed_idx) (length s.log)) s.log;
    trimmed_idx = idx;
  }

  unfoldable pub set_compacted_idx : MemoryStorage T S → ℕ → MemoryStorage T S
  set_compacted_idx s idx = record s { compacted_idx = idx }

  unfoldable pub set_snapshot : MemoryStorage T S → Option S → MemoryStorage T S
  set_snapshot s snapshot = record s { snapshot = snapshot }

  -- One operation of `write_atomically`.
  unfoldable pub write_op : MemoryStorage T S → StorageOp T S → MemoryStorage T S
  unfolding append_entry append_entries append_on_prefix set_promise set_decided_idx
      set_accepted_round set_compacted_idx trim set_stopsign set_snapshot
  write_op s (StorageOp.append_entry entry) = append_entry s entry
  write_op s (StorageOp.append_entries entries) = append_entries s entries
  write_op s (StorageOp.append_on_prefix from_idx entries) = append_on_prefix s from_idx entries
  write_op s (StorageOp.set_promise bal) = set_promise s bal
  write_op s (StorageOp.set_decided_index idx) = set_decided_idx s idx
  write_op s (StorageOp.set_accepted_round bal) = set_accepted_round s bal
  write_op s (StorageOp.set_compacted_idx idx) = set_compacted_idx s idx
  write_op s (StorageOp.trim idx) = trim s idx
  write_op s (StorageOp.set_stopsign ss) = set_stopsign s ss
  write_op s (StorageOp.set_snapshot snap) = set_snapshot s snap

  unfoldable pub write_atomically : MemoryStorage T S → List (StorageOp T S) → MemoryStorage T S
  unfolding write_op
  write_atomically s [] = s
  write_atomically s (op ∷ ops) = write_atomically (write_op s op) ops

-- `MemoryStorage::default()`
abbrev pub empty_storage {ℓ} : {T S : Type ℓ} → MemoryStorage T S
empty_storage = record {
  log = [];
  n_prom = none;
  acc_round = none;
  ld = 0;
  trimmed_idx = 0;
  compacted_idx = 0;
  snapshot = none;
  stopsign = none;
}
