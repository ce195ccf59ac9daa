-- ===== src/Storage/Persistent/Refines.antt =====
-- That `PersistentStorage.write_atomically` does what that of the back end in memory does.
use ca_op.Prelude.{
  ltb, Bool-cases, length, ℕ, ◌+◌, ◌≤◌, ◌≡◌, refl, sym, ap, subst, ◌∙◌, inl, inr, List, [], ◌∷◌,
  ◌++◌,
}
use ca_op.Storage.{StorageOp}
use ca_op.Storage.Memory
use ca_op.Storage.Memory.{MemoryStorage, write_op}
use ca_op.Storage.Persistent.{
  Write, delete_range, DbOps, Codecs, PersistentStorage, puts, batch, batch_append_entry,
  batch_append_entries, batch_append_on_prefix, batch_op, batch_ops, write_atomically,
}
use ca_op.Storage.Persistent.Laws.{DbLaws}
use ca_op.Storage.Persistent.Mirrors.{Mirrors, append-Mirrors, trim-Mirrors}
use ca_op.Storage.Persistent.Prefix.{prefix-Mirrors}
use ca_op.Storage.Persistent.Setters.{
  set_promise-Mirrors, set_accepted_round-Mirrors, set_decided_idx-Mirrors,
  set_compacted_idx-Mirrors, set_stopsign-Mirrors, set_snapshot-Mirrors,
}

module _ {ℓ} {D V : Type 0} {T S : Type ℓ} (dbs : DbOps D V) (codecs : Codecs T S V)
    (laws : DbLaws dbs) where
  -- The operation is within the log of the back end.
  abbrev pub Fits : MemoryStorage T S → StorageOp T S → Type 0
  Fits m (StorageOp.append_on_prefix from_idx entries) =
      (m.trimmed_idx ≤ from_idx) × (from_idx ≤ m.trimmed_idx + length m.log)
  Fits m (StorageOp.trim idx) = (m.trimmed_idx ≤ idx) × (idx ≤ m.trimmed_idx + length m.log)
  Fits m _ = Unit

  -- Each operation fits when its turn comes.
  abbrev pub AllFit : MemoryStorage T S → List (StorageOp T S) → Type 0
  AllFit m [] = Unit
  AllFit m (op ∷ ops) = Fits m op × AllFit (write_op m op) ops

  write_append :
      (ws ws' : List (Write V)) (d : D) → dbs.write (ws ++ ws') d ≡ dbs.write ws' (dbs.write ws d)
  write_append [] ws' d = ap (dbs.write ws') (sym (laws.write_nil d))
  write_append (w ∷ ws) ws' d =
      laws.write_cons w (ws ++ ws') d
      ∙ write_append ws ws' (dbs.write_one w d)
      ∙ ap (dbs.write ws') (sym (laws.write_cons w ws d))

  write_single : (w : Write V) (d : D) → dbs.write (w ∷ []) d ≡ dbs.write_one w d
  write_single w d = laws.write_cons w [] d ∙ laws.write_nil (dbs.write_one w d)

  -- With the batch written, the storage stands for the state in memory.
  abbrev pub MirrorsBatch : PersistentStorage D V → MemoryStorage T S → Type ℓ
  MirrorsBatch s m = Mirrors dbs codecs laws (dbs.write s.write_batch s.db) s.next_log_key m

  -- One more write in the batch.
  pub batch-MirrorsBatch :
      (s : PersistentStorage D V) (w : Write V) (m : MemoryStorage T S)
      → Mirrors dbs codecs laws (dbs.write_one w (dbs.write s.write_batch s.db)) s.next_log_key m
      → MirrorsBatch (batch dbs codecs s (w ∷ [])) m
  unfolding batch
  batch-MirrorsBatch s w m r =
      subst (λ d. Mirrors dbs codecs laws d s.next_log_key m)
        (sym (
          write_append s.write_batch (w ∷ []) s.db ∙ write_single w (dbs.write s.write_batch s.db)))
        r

  entries-MirrorsBatch :
      (s : PersistentStorage D V) (es : List T) (m : MemoryStorage T S)
      → MirrorsBatch s m
      → MirrorsBatch (batch_append_entries dbs codecs s es) (Memory.append_entries m es)
  unfolding batch_append_entries
  entries-MirrorsBatch s es m r =
      subst
        (λ d. Mirrors dbs codecs laws d (s.next_log_key + length es) (Memory.append_entries m es))
        (sym (write_append s.write_batch (puts dbs codecs s.next_log_key es) s.db))
        (append-Mirrors dbs codecs laws (dbs.write s.write_batch s.db) s.next_log_key m es r)

  prefix-MirrorsBatch :
      (s : PersistentStorage D V) (from_idx : ℕ) (es : List T) (m : MemoryStorage T S)
      → m.trimmed_idx ≤ from_idx
      → from_idx ≤ m.trimmed_idx + length m.log
      → MirrorsBatch s m
      → MirrorsBatch
          (batch_append_on_prefix dbs codecs s from_idx es)
          (Memory.append_on_prefix m from_idx es)
  unfolding batch_append_on_prefix batch_append_entries batch
  prefix-MirrorsBatch s from_idx es m low high r =
      let d = dbs.write s.write_batch s.db in
      let done = prefix-Mirrors dbs codecs laws d s.next_log_key from_idx m es low high r in
      let ps = puts dbs codecs from_idx es in
      elim (Bool-cases (ltb (from_idx + length es) s.next_log_key)) [
        | inl behind ↦
            let w : Write V = delete_range (from_idx + length es) s.next_log_key in
            rw behind (
              subst
                (λ x.
                  Mirrors dbs codecs laws x (from_idx + length es)
                    (Memory.append_on_prefix m from_idx es))
                (sym (
                  write_append (s.write_batch ++ w ∷ []) ps s.db
                  ∙ ap (dbs.write ps)
                      (write_append s.write_batch (w ∷ []) s.db ∙ write_single w d)))
                (rw behind at done))
        | inr nothing ↦ rw nothing (
            subst
              (λ x.
                Mirrors dbs codecs laws x (from_idx + length es)
                  (Memory.append_on_prefix m from_idx es))
              (sym (write_append s.write_batch ps s.db)) (rw nothing at done))
      ]

  batch_op-MirrorsBatch :
      (s : PersistentStorage D V) (m : MemoryStorage T S) (op : StorageOp T S)
      → Fits m op
      → MirrorsBatch s m
      → MirrorsBatch (batch_op dbs codecs s op) (write_op m op)
  unfolding batch_op batch_append_entry batch_append_entries puts write_op Memory.append_entry
      Memory.append_entries
  batch_op-MirrorsBatch s m (StorageOp.append_entry entry) fit r =
      entries-MirrorsBatch s (entry ∷ []) m r
  batch_op-MirrorsBatch s m (StorageOp.append_entries entries) fit r =
      entries-MirrorsBatch s entries m r
  batch_op-MirrorsBatch s m (StorageOp.append_on_prefix from_idx entries) (low, high) r =
      prefix-MirrorsBatch s from_idx entries m low high r
  batch_op-MirrorsBatch s m (StorageOp.set_promise bal) fit r =
      batch-MirrorsBatch s _ _ (set_promise-Mirrors dbs codecs laws _ s.next_log_key m bal r)
  batch_op-MirrorsBatch s m (StorageOp.set_decided_index idx) fit r =
      batch-MirrorsBatch s _ _ (set_decided_idx-Mirrors dbs codecs laws _ s.next_log_key m idx r)
  batch_op-MirrorsBatch s m (StorageOp.set_accepted_round bal) fit r =
      batch-MirrorsBatch s _ _ (set_accepted_round-Mirrors dbs codecs laws _ s.next_log_key m bal r)
  batch_op-MirrorsBatch s m (StorageOp.set_compacted_idx idx) fit r =
      batch-MirrorsBatch s _ _ (set_compacted_idx-Mirrors dbs codecs laws _ s.next_log_key m idx r)
  batch_op-MirrorsBatch s m (StorageOp.trim idx) (low, high) r =
      batch-MirrorsBatch s _ _ (trim-Mirrors dbs codecs laws _ s.next_log_key idx m low high r)
  batch_op-MirrorsBatch s m (StorageOp.set_stopsign ss) fit r =
      batch-MirrorsBatch s _ _ (set_stopsign-Mirrors dbs codecs laws _ s.next_log_key m ss r)
  batch_op-MirrorsBatch s m (StorageOp.set_snapshot snap) fit r =
      batch-MirrorsBatch s _ _ (set_snapshot-Mirrors dbs codecs laws _ s.next_log_key m snap r)

  pub batch_ops-MirrorsBatch :
      (s : PersistentStorage D V) (m : MemoryStorage T S) (ops : List (StorageOp T S))
      → AllFit m ops
      → MirrorsBatch s m
      → MirrorsBatch (batch_ops dbs codecs s ops) (Memory.write_atomically m ops)
  unfolding batch_ops Memory.write_atomically
  batch_ops-MirrorsBatch s m [] fit r = r
  batch_ops-MirrorsBatch s m (op ∷ ops) (fits, fit) r =
      batch_ops-MirrorsBatch (batch_op dbs codecs s op) (write_op m op) ops fit
        (batch_op-MirrorsBatch s m op fits r)

  -- If the storage stands for a state of the back end in memory, with no batch pending, and each
  -- operation is within the log when its turn comes, then after the operations are written
  -- atomically the storage stands for the state that the back end in memory reaches.
  pub write_atomically-Mirrors :
      (d : D) (next : ℕ) (m : MemoryStorage T S) (ops : List (StorageOp T S))
      → AllFit m ops
      → Mirrors dbs codecs laws d next m
      → let s =
          write_atomically dbs codecs
            (record { db = d; write_batch = []; next_log_key = next })
            ops in
        (s.write_batch ≡ [])
        × Mirrors dbs codecs laws s.db s.next_log_key (Memory.write_atomically m ops)
  unfolding write_atomically
  write_atomically-Mirrors d next m ops fit r = (
    refl,
    batch_ops-MirrorsBatch (record { db = d; write_batch = []; next_log_key = next }) m ops fit
        (subst (λ x. Mirrors dbs codecs laws x next m) (sym (laws.write_nil d)) r),
  )
