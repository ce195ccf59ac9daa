-- ===== src/Paxos/Follower/FastPath.antt =====
-- The entries of the fast path that a follower holds without the leader's confirmation:
-- `cleanup_fast_path_metadata` and `rebuild_unsynced_tail` of
-- lib/omnipaxos/src/sequence_paxos/follower.rs. Those with equal keys come in an unspecified order.
use ca_op.Prelude.{
  if◌then◌else◌, ℕ, ◌+◌, Bool, false, not, ◌&&◌, Option, none, some, List, [], ◌∷◌, map,
}
use ca_op.Prelude.Int.{ℤ, ltb_ℤ}
use ca_op.Prelude.Assoc
use ca_op.Prelude.Assoc.{nat_eq, contains}
use ca_op.Messages.Paxos.{
  entry_id_key, DomHash, default_hash, extend_hash, UnsyncedLogEntry, UnsyncedLog,
  AcceptedEntryMeta,
}
use ca_op.Dom.{Dom, remove_from_buffers}
use ca_op.Dom.Buffer.{BufferKey, le_key}
use ca_op.Paxos.{SequencePaxos}

-- The last element, of which a deadline is taken.
abbrev pub last_deadline : List AcceptedEntryMeta → Option ℤ
last_deadline [] = none
last_deadline (m ∷ []) = some m.deadline
last_deadline (m ∷ m' ∷ ms) = last_deadline (m' ∷ ms)

abbrev pub is_beyond : Option ℤ → ℤ → Bool
is_beyond none deadline = false
is_beyond (some last) deadline = ltb_ℤ last deadline

module _ {ℓ} {T : Type ℓ} where
  -- The key `(entry.deadline, entry.entry_id)`.
  abbrev pub sort_key : UnsyncedLogEntry T → BufferKey
  sort_key e = record { deadline = e.deadline; entry_id = e.entry_id }

  unfoldable pub insert_by_key :
      UnsyncedLogEntry T → List (UnsyncedLogEntry T) → List (UnsyncedLogEntry T)
  unfolding le_key
  insert_by_key e [] = e ∷ []
  insert_by_key e (x ∷ xs) =
      if le_key (sort_key e) (sort_key x) then e ∷ x ∷ xs else x ∷ insert_by_key e xs

  -- `sort_by_key`, which is stable.
  unfoldable pub sort_by_key : List (UnsyncedLogEntry T) → List (UnsyncedLogEntry T)
  unfolding insert_by_key
  sort_by_key [] = []
  sort_by_key (x ∷ xs) = insert_by_key x (sort_by_key xs)

  -- The entries that the leader has not accepted and whose deadline is after its last one.
  unfoldable pub preserved : List AcceptedEntryMeta → UnsyncedLog T → List (UnsyncedLogEntry T)
  unfolding contains
  preserved entry_meta [] = []
  preserved entry_meta ((i, e) ∷ log) =
      if not (contains e.entry_id (map (λ meta. meta.entry_id) entry_meta))
        && is_beyond (last_deadline entry_meta) e.deadline
      then e ∷ preserved entry_meta log
      else preserved entry_meta log

  -- The entries of the tail with their indices from `idx` on and their prefixes.
  unfoldable pub place_tail :
      ℕ → DomHash → List (UnsyncedLogEntry T) → UnsyncedLog T → UnsyncedLog T
  unfolding extend_hash Assoc.insert
  place_tail idx prefix_hash [] log = log
  place_tail idx prefix_hash (e ∷ es) log =
      place_tail (idx + 1) (extend_hash prefix_hash e.entry_hash) es
        (Assoc.insert idx (record e { prefix_hash = prefix_hash }) log)

  -- The hash of the tail.
  unfoldable pub tail_hash : DomHash → List (UnsyncedLogEntry T) → DomHash
  unfolding extend_hash
  tail_hash h [] = h
  tail_hash h (e ∷ es) = tail_hash (extend_hash h e.entry_hash) es

module _ {ℓ} {F : Type 0} {T : Type ℓ} where
  -- The loop over the metadata that takes the accepted entries out of the early buffer.
  unfoldable pub remove_each : Dom F T → List AcceptedEntryMeta → Dom F T
  unfolding remove_from_buffers
  remove_each d [] = d
  remove_each d (meta ∷ metas) = remove_each (remove_from_buffers d meta.entry_id).0 metas

module _ {ℓ} {F : Type 0} {T S : Type ℓ} where
  unfoldable pub cleanup_fast_path_metadata :
      SequencePaxos F T S → List AcceptedEntryMeta → SequencePaxos F T S × List (UnsyncedLogEntry T)
  unfolding remove_each preserved sort_by_key
  cleanup_fast_path_metadata s entry_meta = (
    record s {
      dom = remove_each s.dom entry_meta;
      unsynced_log = [];
      unsynced_hash = default_hash;
    },
    sort_by_key (preserved entry_meta s.unsynced_log),
  )

  unfoldable pub rebuild_unsynced_tail :
      SequencePaxos F T S → ℕ → List (UnsyncedLogEntry T) → SequencePaxos F T S
  unfolding place_tail tail_hash
  rebuild_unsynced_tail s accepted_idx preserved_tail = record s {
    unsynced_log = place_tail (accepted_idx + 1) s.accepted_prefix_hash preserved_tail [];
    unsynced_hash = tail_hash default_hash preserved_tail;
  }
