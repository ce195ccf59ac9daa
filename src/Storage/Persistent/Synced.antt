-- ===== src/Storage/Persistent/Synced.antt =====
-- The transaction of `sync_log`, written by `PersistentStorage`. With a snapshot it first trims up to
-- an index that may be beyond the log, and only the append after that moves the next key there.
use ca_op.Prelude.{
  ltb, leb, Bool-cases, is_some, length, sub_usize, sub_usize_le, ℕ, ◌+◌, ◌-◌, ◌≤◌, min, ◌≡◌, refl,
  sym, subst, ◌⊎◌, inl, inr, true, false, Option, none, some, List, [], ◌∷◌, arith,
}
use ca_op.Ballot.{Ballot}
use ca_op.Storage.{StorageOp, StopSign, LogSync}
use ca_op.Storage.Memory
use ca_op.Storage.Memory.{MemoryStorage, write_op}
use ca_op.Storage.Internal.Sync.{sync_txn, snapshot_ops, stopsign_ops}
use ca_op.Storage.Persistent.{
  delete_range, DbOps, Codecs, PersistentStorage, batch, batch_append_on_prefix, batch_op,
  batch_ops, write_atomically,
}
use ca_op.Storage.Persistent.Laws.{DbLaws, drop-length, get_elem?-none}
use ca_op.Storage.Persistent.Mirrors.{HoldsLog, Mirrors, frame_state}
use ca_op.Storage.Persistent.Refines.{
  AllFit, MirrorsBatch, batch-MirrorsBatch, batch_ops-MirrorsBatch, write_atomically-Mirrors,
}

module _ {ℓ} {D V : Type 0} {T S : Type ℓ} (dbs : DbOps D V) (codecs : Codecs T S V)
    (laws : DbLaws dbs) where
  trim_past-HoldsLog :
      (d : D) (base idx : ℕ) (log : List T)
      → base + length log ≤ idx
      → HoldsLog dbs codecs laws d base log
      → HoldsLog dbs codecs laws (dbs.write_one (delete_range 0 idx) d) idx []
  trim_past-HoldsLog d base idx log past h k =
      let gone = laws.at_delete_range k 0 idx d in
      let before = h k in
      elim (Bool-cases (leb idx k)) [
        | inl stays ↦ ground (arith, gone, before, get_elem?-none log (k - base) (ground arith))
        | inr below ↦ ground (arith, gone, before)
      ]

  -- After a trim beyond the log the database stands for an empty log, whose next key is the index.
  trim_past-Mirrors :
      (d : D) (next idx : ℕ) (m : MemoryStorage T S)
      → m.trimmed_idx + length m.log ≤ idx
      → Mirrors dbs codecs laws d next m
      → Mirrors dbs codecs laws (dbs.write_one (delete_range 0 idx) d) idx (Memory.trim m idx)
  unfolding Memory.trim
  trim_past-Mirrors d next idx m past r =
      let offset : min (sub_usize idx m.trimmed_idx) (length m.log) ≡ length m.log =
        omega (arith, sub_usize_le idx m.trimmed_idx (omega arith)) in
      let emptied = drop-length m.log in
      record {
        next_key = rw (offset, emptied) (omega arith);
        log = rw (offset, emptied) (trim_past-HoldsLog d m.trimmed_idx idx m.log past r.log);
        state =
            frame_state dbs codecs laws d _ m (λ key. laws.get_delete_range key 0 idx d) r.state;
      }

  -- From an index that no key reaches, an append on a prefix does the same for every next key.
  append_behind :
      (s : PersistentStorage D V) (from_idx : ℕ) (es : List T)
      → s.next_log_key ≤ from_idx
      → batch_append_on_prefix dbs codecs s from_idx es
        ≡ batch_append_on_prefix dbs codecs (record s { next_log_key = from_idx }) from_idx es
  unfolding batch_append_on_prefix
  append_behind s from_idx es behind =
      let old : ltb (from_idx + length es) s.next_log_key ≡ false = ground arith in
      let new : ltb (from_idx + length es) from_idx ≡ false = ground arith in rw (old, new) refl

  stopsign_ops-AllFit :
      (new old : Option StopSign) (m : MemoryStorage T S)
      → AllFit dbs codecs laws m (stopsign_ops new old)
  unfolding stopsign_ops
  stopsign_ops-AllFit (some ss) old m = (tt, tt)
  stopsign_ops-AllFit none (some old) m = (tt, tt)
  stopsign_ops-AllFit none none m = tt

  -- The transaction after its trim, for any storage whose next key is not beyond the index.
  past-MirrorsBatch :
      (s : PersistentStorage D V) (m : MemoryStorage T S) (sync : LogSync T S)
      (old : Option StopSign) (snapshot : S)
      → s.next_log_key ≤ sync.sync_idx
      → m.trimmed_idx ≡ sync.sync_idx
      → MirrorsBatch dbs codecs laws (record s { next_log_key = sync.sync_idx }) m
      → let ops =
          StorageOp.set_compacted_idx sync.sync_idx
          ∷ StorageOp.set_snapshot (some snapshot)
          ∷ StorageOp.append_on_prefix sync.sync_idx sync.suffix
          ∷ stopsign_ops sync.stopsign old in
        MirrorsBatch dbs codecs laws (batch_ops dbs codecs s ops) (Memory.write_atomically m ops)
  unfolding batch_ops batch_op batch write_op Memory.set_compacted_idx Memory.set_snapshot
  past-MirrorsBatch s m sync old snapshot behind at r =
      let ops =
        StorageOp.set_compacted_idx sync.sync_idx
        ∷ StorageOp.set_snapshot (some snapshot)
        ∷ StorageOp.append_on_prefix sync.sync_idx sync.suffix
        ∷ stopsign_ops sync.stopsign old in
      let s' =
        batch_op dbs codecs (batch_op dbs codecs s (StorageOp.set_compacted_idx sync.sync_idx))
          (StorageOp.set_snapshot (some snapshot)) in
      subst
        (λ x.
          MirrorsBatch dbs codecs laws (batch_ops dbs codecs x (stopsign_ops sync.stopsign old))
            (Memory.write_atomically m ops))
        (sym (append_behind s' sync.sync_idx sync.suffix behind))
        (batch_ops-MirrorsBatch dbs codecs laws (record s { next_log_key = sync.sync_idx }) m ops
          (tt, (tt, ((omega arith, omega arith), stopsign_ops-AllFit sync.stopsign old _))) r)

  past-Mirrors :
      (d : D) (next : ℕ) (m : MemoryStorage T S) (accepted_round : Ballot) (decided_idx : ℕ)
      (old : Option StopSign) (sync : LogSync T S) (snapshot : S)
      → m.trimmed_idx + length m.log ≤ sync.sync_idx
      → Mirrors dbs codecs laws d next m
      → let ops = sync_txn accepted_round decided_idx old sync (some snapshot) in
        MirrorsBatch dbs codecs laws
          (batch_ops dbs codecs (record { db = d; write_batch = []; next_log_key = next }) ops)
          (Memory.write_atomically m ops)
  unfolding sync_txn snapshot_ops batch_ops batch_op batch write_op Memory.set_accepted_round
      Memory.set_decided_idx Memory.trim Memory.write_atomically
  past-Mirrors d next m accepted_round decided_idx old sync snapshot past r =
      let first =
        StorageOp.set_accepted_round accepted_round
        ∷ StorageOp.set_decided_index decided_idx
        ∷ [] in
      let s : PersistentStorage D V = record { db = d; write_batch = []; next_log_key = next } in
      let s' = batch_ops dbs codecs s first in
      let m' = Memory.write_atomically m first in
      let idx = sync.sync_idx in
      let begun =
        batch_ops-MirrorsBatch dbs codecs laws s m first (tt, (tt, tt))
          (subst (λ x. Mirrors dbs codecs laws x next m) (sym (laws.write_nil d)) r) in
      let trimmed =
        batch-MirrorsBatch dbs codecs laws (record s' { next_log_key = idx }) (delete_range 0 idx)
          (Memory.trim m' idx)
          (trim_past-Mirrors (dbs.write s'.write_batch s'.db) next idx m' past begun) in
      past-MirrorsBatch (batch_op dbs codecs s' (StorageOp.trim idx)) (Memory.trim m' idx) sync old
        snapshot (omega (arith, r.next_key)) refl trimmed

  -- If the storage stands for a state of the back end in memory, and a log update starts at an index
  -- that is not trimmed and, unless it comes with a snapshot, is not beyond the log, then after its
  -- transaction is written to both the storage stands for the state in memory again.
  pub sync_txn-Mirrors :
      (d : D) (next : ℕ) (m : MemoryStorage T S) (accepted_round : Ballot) (decided_idx : ℕ)
      (old : Option StopSign) (sync : LogSync T S) (snapshot : Option S)
      → m.trimmed_idx ≤ sync.sync_idx
      → (is_some snapshot ≡ true) ⊎ (sync.sync_idx ≤ m.trimmed_idx + length m.log)
      → Mirrors dbs codecs laws d next m
      → let ops = sync_txn accepted_round decided_idx old sync snapshot in
        let s =
          write_atomically dbs codecs
            (record { db = d; write_batch = []; next_log_key = next })
            ops in
        Mirrors dbs codecs laws s.db s.next_log_key (Memory.write_atomically m ops)
  unfolding write_atomically sync_txn snapshot_ops write_op Memory.set_accepted_round
      Memory.set_decided_idx Memory.trim Memory.set_compacted_idx Memory.set_snapshot
  sync_txn-Mirrors d next m accepted_round decided_idx old sync none low (inl absent) r =
      absurd (ground (arith, absent))
  sync_txn-Mirrors d next m accepted_round decided_idx old sync none low (inr high) r =
      (write_atomically-Mirrors dbs codecs laws d next m _
        (tt, (tt, ((low, high), stopsign_ops-AllFit sync.stopsign old _))) r).1
  sync_txn-Mirrors d next m accepted_round decided_idx old sync (some snapshot) low high r =
      elim (Bool-cases (leb sync.sync_idx (m.trimmed_idx + length m.log))) [
        | inl inside ↦
            (write_atomically-Mirrors dbs codecs laws d next m _
              (
                tt,
                (
                  tt,
                  (
                    (low, ground arith),
                    (
                      tt,
                      (tt, ((omega arith, omega arith), stopsign_ops-AllFit sync.stopsign old _)),
                    ),
                  ),
                ),
              )
              r).1
        | inr past ↦
            past-Mirrors d next m accepted_round decided_idx old sync snapshot (ground arith) r
      ]
