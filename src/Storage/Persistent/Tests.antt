-- ===== src/Storage/Persistent/Tests.antt =====
-- A database of the log and the state keys, and runs of `PersistentStorage` over it.
use ca_op.Prelude.{
  ltb, leb, ◌==◌, if◌then◌else◌, ==_iff, Bool-cases, ℕ, zero, suc, ◌+◌, ◌-◌, ◌<◌, max, ◌≡◌, refl,
  inl, inr, ◌&&◌, Option, none, some, List, [], ◌∷◌, arith,
}
use ca_op.Ballot.{Ballot}
use ca_op.Storage.{StopSign, StorageOp, LogSync, complete}
use ca_op.Storage.Memory
use ca_op.Storage.Memory.{MemoryStorage, empty_storage}
use ca_op.Storage.Persistent.{
  StateKey, Write, put_log, delete_range, put, DbOps, Codecs, PersistentStorage, open_db,
  get_entries, get_compacted_idx, get_decided_idx, get_promise, get_accepted_round, get_stopsign,
  get_snapshot, write_atomically,
}
use ca_op.Storage.Persistent.Laws.{eq_key, DbLaws}
use ca_op.Storage.Persistent.Mirrors.{Mirrors}
use ca_op.Storage.Persistent.Refines.{AllFit, write_atomically-Mirrors}
use ca_op.Storage.Persistent.Reads.{get_entries-Mirrors, open_db-Mirrors, getters-Mirrors}
use ca_op.Storage.Persistent.Synced.{sync_txn-Mirrors}
use ca_op.Storage.Internal.Sync.{sync_txn}

-- The values are the encoded ones.
data Value : Type 0 where
  entry_value index_value : ℕ → Value
  ballot_value : Ballot → Value
  stopsign_value : Option StopSign → Value
  snapshot_value : Option ℕ → Value

record Db : Type 0 where
  bound : ℕ
  at : ℕ → Option Value
  values : StateKey → Option Value

abbrev at_key : ℕ → Db → Option Value
at_key k d = if ltb k d.bound then d.at k else none

abbrev write_one_db : Write Value → Db → Db
write_one_db (put_log j v) d = record {
  bound = max d.bound (j + 1);
  at = λ k. if j == k then some v else at_key k d;
  values = d.values;
}
write_one_db (delete_range a b) d = record d {
  at = λ k. if leb a k && ltb k b then none else d.at k;
}
write_one_db (put key v) d = record d { values = λ k. if eq_key key k then some v else d.values k }

abbrev write_db : List (Write Value) → Db → Db
write_db [] d = d
write_db (w ∷ ws) d = write_db ws (write_one_db w d)

abbrev found : ℕ → Option Value → List (ℕ × Value) → List (ℕ × Value)
found k none rest = rest
found k (some v) rest = (k, v) ∷ rest

abbrev seek_from : ℕ → ℕ → Db → List (ℕ × Value)
seek_from zero k d = []
seek_from (suc n) k d = found k (at_key k d) (seek_from n (k + 1) d)

abbrev last_of : ℕ → Option Value → Option ℕ → Option ℕ
last_of k none rest = rest
last_of k (some v) rest = some k

abbrev last_below : ℕ → Db → Option ℕ
last_below zero d = none
last_below (suc n) d = last_of n (at_key n d) (last_below n d)

abbrev test_db : DbOps Db Value
test_db = record {
  write_one = write_one_db;
  write = write_db;
  get = λ key d. d.values key;
  last_key = λ d. last_below d.bound d;
  seek = λ k d. seek_from (d.bound - k) k d;
}

seek_from-at :
    (k : ℕ) (v : Value) (d : Db)
    → at_key k d ≡ some v
    → seek_from (d.bound - k) k d ≡ (k, v) ∷ seek_from (d.bound - (k + 1)) (k + 1) d
seek_from-at k v d h = elim (Bool-cases (ltb k d.bound)) [
  | inl inside ↦
      let size : d.bound - k ≡ suc (d.bound - (k + 1)) = ground arith in rw (size, h) refl
  | inr outside ↦ absurd (ground (arith, h))
]

last_below-at :
    (n k : ℕ) (v : Value) (d : Db)
    → k < n
    → at_key k d ≡ some v
    → ((j : ℕ) → k < j → at_key j d ≡ none)
    → last_below n d ≡ some k
last_below-at zero k v d below h after = absurd (omega (arith, below))
last_below-at (suc n) k v d below h after = elim (Bool-cases (k == n)) [
  | inl here ↦ let same : n ≡ k = ground (arith, ==_iff k n) in rw (same, h) refl
  | inr there ↦
      let less : k < n = ground (arith, ==_iff k n) in
      rw (after n less) (last_below-at n k v d less h after)
]

last_below-none : (n : ℕ) (d : Db) → ((j : ℕ) → at_key j d ≡ none) → last_below n d ≡ none
last_below-none zero d empty = refl
last_below-none (suc n) d empty = rw (empty n) (last_below-none n d empty)

key_in_bound : (k : ℕ) (v : Value) (d : Db) → at_key k d ≡ some v → k < d.bound
key_in_bound k v d h = elim (Bool-cases (ltb k d.bound)) [
  | inl inside ↦ ground arith
  | inr outside ↦ absurd (ground (arith, h))
]

at_key-put_log :
    (k j : ℕ) (v : Value) (d : Db)
    → at_key k (write_one_db (put_log j v) d) ≡ (if j == k then some v else at_key k d)
at_key-put_log k j v d = ground (arith, ==_iff j k)

at_key-delete_range :
    (k a b : ℕ) (d : Db)
    → at_key k (write_one_db (delete_range a b) d)
      ≡ (if leb a k && ltb k b then none else at_key k d)
at_key-delete_range k a b d = ground arith

abbrev test_laws : DbLaws test_db
test_laws = record {
  log_at = at_key;
  at_put_log = at_key-put_log;
  at_delete_range = at_key-delete_range;
  at_put = λ k key v d. refl;
  get_put = λ key other v d. refl;
  get_put_log = λ key j v d. refl;
  get_delete_range = λ key a b d. refl;
  write_nil = λ d. refl;
  write_cons = λ w ws d. refl;
  seek_at = seek_from-at;
  last_at = λ k v d h after. last_below-at d.bound k v d (key_in_bound k v d h) h after;
  last_none = λ d empty. last_below-none d.bound d empty;
}

abbrev decode_entry : Value → Option ℕ
decode_entry (entry_value e) = some e
decode_entry _ = none

abbrev decode_index : Value → Option ℕ
decode_index (index_value i) = some i
decode_index _ = none

abbrev decode_ballot : Value → Option Ballot
decode_ballot (ballot_value b) = some b
decode_ballot _ = none

abbrev decode_stopsign : Value → Option (Option StopSign)
decode_stopsign (stopsign_value ss) = some ss
decode_stopsign _ = none

abbrev decode_snapshot : Value → Option (Option ℕ)
decode_snapshot (snapshot_value s) = some s
decode_snapshot _ = none

abbrev test_codecs : Codecs ℕ ℕ Value
test_codecs = record {
  of_entry = record { serialize = entry_value; deserialize = decode_entry };
  of_ballot = record { serialize = ballot_value; deserialize = decode_ballot };
  of_index = record { serialize = index_value; deserialize = decode_index };
  of_stopsign = record { serialize = stopsign_value; deserialize = decode_stopsign };
  of_snapshot = record { serialize = snapshot_value; deserialize = decode_snapshot };
}

abbrev new_db : Db
new_db = record { bound = 0; at = λ k. none; values = λ key. none }

abbrev new_memory : MemoryStorage ℕ ℕ
new_memory = empty_storage

new_db-Mirrors : Mirrors test_db test_codecs test_laws new_db 0 new_memory
new_db-Mirrors = record {
  next_key = refl;
  log = λ k. ground arith;
  state = (refl, refl, inr (refl, refl), inr (refl, refl), inr (refl, refl), inr (refl, refl));
}

abbrev test_ops : List (StorageOp ℕ ℕ)
test_ops =
    StorageOp.append_entries (4 ∷ 5 ∷ 6 ∷ 7 ∷ [])
    ∷ StorageOp.set_decided_index 2
    ∷ StorageOp.append_on_prefix 2 (8 ∷ [])
    ∷ StorageOp.trim 1
    ∷ StorageOp.set_compacted_idx 1
    ∷ []

test_ops-AllFit : AllFit test_db test_codecs test_laws new_memory test_ops
unfolding Memory.write_op
test_ops-AllFit = (tt, (tt, ((omega arith, omega arith), ((omega arith, omega arith), (tt, tt)))))

write_atomically-Mirrors_example :
    let s =
      write_atomically test_db test_codecs
        (record { db = new_db; write_batch = []; next_log_key = 0 })
        test_ops in
    (s.write_batch ≡ [])
    × Mirrors test_db test_codecs test_laws s.db s.next_log_key
        (Memory.write_atomically new_memory test_ops)
write_atomically-Mirrors_example =
    write_atomically-Mirrors test_db test_codecs test_laws new_db 0 new_memory test_ops
      test_ops-AllFit new_db-Mirrors

abbrev written : PersistentStorage Db Value
written =
    write_atomically test_db test_codecs
      (record { db = new_db; write_batch = []; next_log_key = 0 }) test_ops

abbrev written_memory : MemoryStorage ℕ ℕ
written_memory = Memory.write_atomically new_memory test_ops

written-Mirrors :
    Mirrors test_db test_codecs test_laws written.db written.next_log_key written_memory
written-Mirrors =
    (write_atomically-Mirrors test_db test_codecs test_laws new_db 0 new_memory test_ops
      test_ops-AllFit new_db-Mirrors).1

written_log : written_memory.log ≡ 5 ∷ 8 ∷ []
unfolding Memory.write_atomically
written_log = refl

get_entries-Mirrors_example :
    get_entries test_db test_codecs written 1 3 ≡ some (Memory.get_entries written_memory 1 3)
unfolding Memory.write_atomically
get_entries-Mirrors_example =
    get_entries-Mirrors test_db test_codecs test_laws (λ e. refl) written written_memory 1 3
      (omega arith) (omega arith) (omega arith) written-Mirrors

open_db-Mirrors_example :
    open_db test_db test_codecs written.db
    ≡ some (record { db = written.db; write_batch = []; next_log_key = written.next_log_key })
unfolding Memory.write_atomically
open_db-Mirrors_example =
    open_db-Mirrors test_db test_codecs test_laws (λ i. refl) written.db written.next_log_key
      written_memory (λ empty. absurd (omega (arith, empty))) written-Mirrors

getters-Mirrors_example :
    (get_promise test_db test_codecs written ≡ some written_memory.n_prom)
    × (get_accepted_round test_db test_codecs written ≡ some written_memory.acc_round)
    × (get_decided_idx test_db test_codecs written ≡ some written_memory.ld)
    × (get_compacted_idx test_db test_codecs written ≡ some written_memory.compacted_idx)
    × (get_stopsign test_db test_codecs written ≡ some written_memory.stopsign)
    × (get_snapshot test_db test_codecs written ≡ some written_memory.snapshot)
getters-Mirrors_example =
    getters-Mirrors test_db test_codecs test_laws (λ b. refl) (λ i. refl) (λ ss. refl) (λ sn. refl)
      written written_memory written-Mirrors

abbrev test_ballot : Ballot
test_ballot = record { config_id = 1; n = 2; priority = 0; pid = 3 }

-- It starts beyond the log, which ends at 3.
abbrev far_sync : LogSync ℕ ℕ
far_sync = record {
  decided_snapshot = some (complete 42);
  suffix = 9 ∷ [];
  sync_idx = 7;
  stopsign = none;
}

sync_txn-Mirrors_example :
    let ops = sync_txn test_ballot 8 none far_sync (some 42) in
    let s =
      write_atomically test_db test_codecs
        (record { db = written.db; write_batch = []; next_log_key = written.next_log_key })
        ops in
    Mirrors test_db test_codecs test_laws s.db s.next_log_key
      (Memory.write_atomically written_memory ops)
unfolding Memory.write_atomically
sync_txn-Mirrors_example =
    sync_txn-Mirrors test_db test_codecs test_laws written.db written.next_log_key written_memory
      test_ballot 8 none far_sync (some 42) (omega arith) (inl refl) written-Mirrors
