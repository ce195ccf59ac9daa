-- ===== src/Storage/Persistent.antt =====
-- `PersistentStorage` of lib/omnipaxos_storage/src/persistent_storage.rs, over a database. The
-- database (RocksDB) and the encoding of values (bincode, zerocopy) are third-party code, and
-- parameters; their errors are left out. A log key is its index, in big-endian order.
pub mod Laws
pub mod Mirrors
pub mod Prefix
pub mod Setters
pub mod Refines
pub mod Reads
pub mod Synced
mod Tests
use ca_op.Prelude.{
  ltb, leb, if◌then◌else◌, length, sub_usize, ℕ, zero, suc, ◌+◌, ◌-◌, ◌||◌, Option, none, some,
  List, [], ◌∷◌, ◌++◌,
}
use ca_op.Prelude.Panic.{◌>>=◌}
use ca_op.Ballot.{Ballot}
use ca_op.Storage
use ca_op.Storage.{StopSign, StorageOp}

-- The keys of the state store: `NPROM`, `ACC`, `DECIDE`, `TRIM`, `STOPSIGN` and `SNAPSHOT`.
pub data StateKey : Type 0 where
  nprom acc decide trim_key stopsign_key snapshot_key : StateKey

-- A write, alone or in a batch.
pub data Write (V : Type 0) : Type 0 where
  put_log : ℕ → V → Write V
  delete_range : ℕ → ℕ → Write V
  put : StateKey → V → Write V

-- The database: a write, a batch of writes, the value of a state key, the last key of the log, and
-- an iterator that starts at a key of the log.
pub record DbOps (D V : Type 0) : Type 0 where
  pub write_one : Write V → D → D
  pub write : List (Write V) → D → D
  pub get : StateKey → D → Option V
  pub last_key : D → Option ℕ
  pub seek : ℕ → D → List (ℕ × V)

pub record Codec {ℓ} (A : Type ℓ) (V : Type 0) : Type ℓ where
  pub serialize : A → V
  pub deserialize : V → Option A

pub record Codecs {ℓ} (T S : Type ℓ) (V : Type 0) : Type ℓ where
  pub of_entry : Codec T V
  pub of_ballot : Codec Ballot V
  pub of_index : Codec ℕ V
  pub of_stopsign : Codec (Option StopSign) V
  pub of_snapshot : Codec (Option S) V

pub record PersistentStorage (D V : Type 0) : Type 0 where
  pub db : D
  pub write_batch : List (Write V)
  pub next_log_key : ℕ

-- A value that is read: none without a key, and an error (`none` outside) if it does not decode.
abbrev pub read_value {ℓ} : {A : Type ℓ} {V : Type 0} → Codec A V → Option V → Option (Option A)
read_value c none = some none
read_value c (some v) = c.deserialize v >>= λ a. some (some a)

-- As before, for an index, which is 0 without a key.
abbrev pub read_index : {V : Type 0} → Codec ℕ V → Option V → Option ℕ
read_index c none = some 0
read_index c (some v) = c.deserialize v

-- As before, for a value that is itself optional.
abbrev pub read_option {ℓ} :
    {A : Type ℓ} {V : Type 0} → Codec (Option A) V → Option V → Option (Option A)
read_option c none = some none
read_option c (some v) = c.deserialize v

module _ {ℓ} {D V : Type 0} {T S : Type ℓ} (dbs : DbOps D V) (codecs : Codecs T S V) where
  -- The writes of entries from a key on.
  unfoldable pub puts : ℕ → List T → List (Write V)
  puts key [] = []
  puts key (e ∷ es) = put_log key (codecs.of_entry.serialize e) ∷ puts (key + 1) es

  -- The key after the last one, or the trimmed index when the log is empty.
  unfoldable pub open_at : D → Option ℕ → Option (PersistentStorage D V)
  open_at d (some key) = some (record { db = d; write_batch = []; next_log_key = key + 1 })
  open_at d none = read_index codecs.of_index (dbs.get trim_key d) >>= λ idx.
      some (record { db = d; write_batch = []; next_log_key = idx })

  -- `PersistentStorage::open` on a database.
  unfoldable pub open_db : D → Option (PersistentStorage D V)
  unfolding open_at
  open_db d = open_at d (dbs.last_key d)

  unfoldable pub append_entry : PersistentStorage D V → T → PersistentStorage D V
  append_entry s entry = record s {
    db = dbs.write_one (put_log s.next_log_key (codecs.of_entry.serialize entry)) s.db;
    next_log_key = s.next_log_key + 1;
  }

  unfoldable pub append_entries : PersistentStorage D V → List T → PersistentStorage D V
  unfolding puts
  append_entries s entries = record s {
    db = dbs.write (puts s.next_log_key entries) s.db;
    next_log_key = s.next_log_key + length entries;
  }

  unfoldable pub append_on_prefix : PersistentStorage D V → ℕ → List T → PersistentStorage D V
  unfolding append_entries
  append_on_prefix s from_idx entries =
      let delete_idx = from_idx + length entries in
      let d =
        if ltb delete_idx s.next_log_key
        then dbs.write_one (delete_range delete_idx s.next_log_key) s.db
        else s.db in
      append_entries (record s { db = d; next_log_key = from_idx }) entries

  -- The values of the first `n` entries of an iterator; an error if there are fewer.
  unfoldable pub take_entries : ℕ → List (ℕ × V) → Option (List T)
  take_entries zero iter = some []
  take_entries (suc n) [] = none
  take_entries (suc n) ((k, v) ∷ iter) =
      codecs.of_entry.deserialize v >>= λ e. take_entries n iter >>= λ es. some (e ∷ es)

  unfoldable pub get_entries : PersistentStorage D V → ℕ → ℕ → Option (List T)
  unfolding take_entries
  get_entries s from to =
      if ltb s.next_log_key to || leb to from
      then some []
      else take_entries (to - from) (dbs.seek from s.db)

  unfoldable pub get_suffix : PersistentStorage D V → ℕ → Option (List T)
  unfolding get_entries
  get_suffix s from = get_entries s from s.next_log_key

  unfoldable pub get_compacted_idx : PersistentStorage D V → Option ℕ
  get_compacted_idx s = read_index codecs.of_index (dbs.get trim_key s.db)

  unfoldable pub get_log_len : PersistentStorage D V → Option ℕ
  unfolding get_compacted_idx
  get_log_len s = get_compacted_idx s >>= λ idx. some (sub_usize s.next_log_key idx)

  unfoldable pub get_decided_idx : PersistentStorage D V → Option ℕ
  get_decided_idx s = read_index codecs.of_index (dbs.get decide s.db)

  unfoldable pub get_promise : PersistentStorage D V → Option (Option Ballot)
  get_promise s = read_value codecs.of_ballot (dbs.get nprom s.db)

  unfoldable pub get_accepted_round : PersistentStorage D V → Option (Option Ballot)
  get_accepted_round s = read_value codecs.of_ballot (dbs.get acc s.db)

  unfoldable pub get_stopsign : PersistentStorage D V → Option (Option StopSign)
  get_stopsign s = read_option codecs.of_stopsign (dbs.get stopsign_key s.db)

  unfoldable pub get_snapshot : PersistentStorage D V → Option (Option S)
  get_snapshot s = read_option codecs.of_snapshot (dbs.get snapshot_key s.db)

  -- The write of a state key: alone, by the setters, or in a batch.
  unfoldable pub put_state : PersistentStorage D V → StateKey → V → PersistentStorage D V
  put_state s key v = record s { db = dbs.write_one (put key v) s.db }

  unfoldable pub set_promise : PersistentStorage D V → Ballot → PersistentStorage D V
  unfolding put_state
  set_promise s a = put_state s nprom (codecs.of_ballot.serialize a)

  unfoldable pub set_decided_idx : PersistentStorage D V → ℕ → PersistentStorage D V
  unfolding put_state
  set_decided_idx s a = put_state s decide (codecs.of_index.serialize a)

  unfoldable pub set_accepted_round : PersistentStorage D V → Ballot → PersistentStorage D V
  unfolding put_state
  set_accepted_round s a = put_state s acc (codecs.of_ballot.serialize a)

  unfoldable pub set_compacted_idx : PersistentStorage D V → ℕ → PersistentStorage D V
  unfolding put_state
  set_compacted_idx s a = put_state s trim_key (codecs.of_index.serialize a)

  unfoldable pub set_stopsign : PersistentStorage D V → Option StopSign → PersistentStorage D V
  unfolding put_state
  set_stopsign s a = put_state s stopsign_key (codecs.of_stopsign.serialize a)

  unfoldable pub set_snapshot : PersistentStorage D V → Option S → PersistentStorage D V
  unfolding put_state
  set_snapshot s a = put_state s snapshot_key (codecs.of_snapshot.serialize a)

  unfoldable pub trim : PersistentStorage D V → ℕ → PersistentStorage D V
  trim s trimmed_idx = record s { db = dbs.write_one (delete_range 0 trimmed_idx) s.db }

  -- The `batch_` functions: a write is added to the batch, which the database gets later.
  unfoldable pub batch : PersistentStorage D V → List (Write V) → PersistentStorage D V
  batch s ws = record s { write_batch = s.write_batch ++ ws }

  unfoldable pub batch_append_entry : PersistentStorage D V → T → PersistentStorage D V
  batch_append_entry s entry = record s {
    write_batch = s.write_batch ++ put_log s.next_log_key (codecs.of_entry.serialize entry) ∷ [];
    next_log_key = s.next_log_key + 1;
  }

  unfoldable pub batch_append_entries : PersistentStorage D V → List T → PersistentStorage D V
  unfolding puts
  batch_append_entries s entries = record s {
    write_batch = s.write_batch ++ puts s.next_log_key entries;
    next_log_key = s.next_log_key + length entries;
  }

  unfoldable pub batch_append_on_prefix : PersistentStorage D V → ℕ → List T → PersistentStorage D V
  unfolding batch_append_entries batch
  batch_append_on_prefix s from_idx entries =
      let delete_idx = from_idx + length entries in
      let s' =
        if ltb delete_idx s.next_log_key
        then batch s (delete_range delete_idx s.next_log_key ∷ [])
        else s in
      batch_append_entries (record s' { next_log_key = from_idx }) entries

  -- One operation of `write_atomically`.
  unfoldable pub batch_op : PersistentStorage D V → StorageOp T S → PersistentStorage D V
  unfolding batch_append_entry batch_append_entries batch_append_on_prefix batch
  batch_op s (Storage.append_entry entry) = batch_append_entry s entry
  batch_op s (Storage.append_entries entries) = batch_append_entries s entries
  batch_op s (Storage.append_on_prefix from_idx entries) = batch_append_on_prefix s from_idx entries
  batch_op s (Storage.set_promise bal) = batch s (put nprom (codecs.of_ballot.serialize bal) ∷ [])
  batch_op s (Storage.set_decided_index idx) =
      batch s (put decide (codecs.of_index.serialize idx) ∷ [])
  batch_op s (Storage.set_accepted_round bal) =
      batch s (put acc (codecs.of_ballot.serialize bal) ∷ [])
  batch_op s (Storage.set_compacted_idx idx) =
      batch s (put trim_key (codecs.of_index.serialize idx) ∷ [])
  batch_op s (Storage.trim idx) = batch s (delete_range 0 idx ∷ [])
  batch_op s (Storage.set_stopsign ss) =
      batch s (put stopsign_key (codecs.of_stopsign.serialize ss) ∷ [])
  batch_op s (Storage.set_snapshot snap) =
      batch s (put snapshot_key (codecs.of_snapshot.serialize snap) ∷ [])

  unfoldable pub batch_ops : PersistentStorage D V → List (StorageOp T S) → PersistentStorage D V
  unfolding batch_op
  batch_ops s [] = s
  batch_ops s (op ∷ ops) = batch_ops (batch_op s op) ops

  unfoldable pub write_atomically :
      PersistentStorage D V → List (StorageOp T S) → PersistentStorage D V
  unfolding batch_ops
  write_atomically s ops =
      let s' = batch_ops s ops in
      record s' { db = dbs.write s'.write_batch s'.db; write_batch = [] }
