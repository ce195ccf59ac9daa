-- ===== src/Storage.antt =====
-- The storage layer: lib/omnipaxos/src/storage and the in-memory back end of
-- lib/omnipaxos_storage/src/memory_storage.rs. The entry type and the snapshot operations are the
-- user's, and parameters here.
pub mod Memory
pub mod Persistent
pub mod Cache
pub mod Internal
use ca_op.Prelude.{ℕ, Bool, Option, List}
use ca_op.Config.{ClusterConfig}
use ca_op.Ballot.{Ballot}

pub record StopSign : Type 0 where
  pub next_config : ClusterConfig
  pub metadata : Option (List ℕ)

-- The trait `Snapshot<T>`, implemented by the user of the library.
pub record SnapshotOps {ℓ} (T S : Type ℓ) : Type ℓ where
  pub create : List T → S
  pub merge : S → S → S
  pub use_snapshots : Bool

pub data SnapshotType {ℓ} (S : Type ℓ) : Type ℓ where
  complete : S → SnapshotType S
  delta : S → SnapshotType S

-- `LogSync` of lib/omnipaxos/src/util.rs.
pub record LogSync {ℓ} (T S : Type ℓ) : Type ℓ where
  pub decided_snapshot : Option (SnapshotType S)
  pub suffix : List T
  pub sync_idx : ℕ
  pub stopsign : Option StopSign

pub data StorageOp {ℓ} (T S : Type ℓ) : Type ℓ where
  append_entry : T → StorageOp T S
  append_entries : List T → StorageOp T S
  append_on_prefix : ℕ → List T → StorageOp T S
  set_promise : Ballot → StorageOp T S
  set_decided_index : ℕ → StorageOp T S
  set_accepted_round : Ballot → StorageOp T S
  set_compacted_idx : ℕ → StorageOp T S
  trim : ℕ → StorageOp T S
  set_stopsign : Option StopSign → StorageOp T S
  set_snapshot : Option S → StorageOp T S

-- `CompactionErr` of lib/omnipaxos/src/omni_paxos.rs.
pub data CompactionErr : Type 0 where
  undecided_index : ℕ → CompactionErr
  trimmed_index : ℕ → CompactionErr
  not_all_decided : ℕ → CompactionErr
  not_current_leader : ℕ → CompactionErr

-- `StorageResult`: the back end modelled here does not fail, so the errors are those of compaction.
pub data Result {ℓ} (A : Type ℓ) : Type ℓ where
  ok : A → Result A
  err : CompactionErr → Result A

infixl 5 ◌>>=◌
abbrev pub ◌>>=◌ {ℓ κ} : {A : Type ℓ} {B : Type κ} → Result A → (A → Result B) → Result B
ok a >>= f = f a
err e >>= f = err e
