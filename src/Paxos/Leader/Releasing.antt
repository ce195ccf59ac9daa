-- ===== src/Paxos/Leader/Releasing.antt =====
-- What a leader does with a proposal that comes out of the early buffer.
use ca_op.Prelude.{
  ltb, leb, Bool-cases, length, set, drop, length-append, length-set, get_elem?_lt, sub_usize,
  sub_usize_le, ℕ, zero, suc, ◌+◌, ◌-◌, ◌≤◌, ◌<◌, ◌≡◌, refl, ap₂, ◌∙◌, inl, inr, Bool, true, false,
  some, [], ◌∷◌, ◌++◌, append-nil, arith,
}
use ca_op.Prelude.Int.{ℤ}
use ca_op.Messages.Paxos.{DomHash, extend_hash, EntryId, AcceptedEntryMeta, DomPropose}
use ca_op.Storage.Internal
use ca_op.Storage.Internal.{
  InternalStorage, AcceptedMetaData, append_entry_with_batching, flush_if_full_batch,
  append_entries_without_batching,
}
use ca_op.Storage.Cache.{cache_entry, take_entries_if_batch_is_full}
use ca_op.Storage.Memory
use ca_op.LeaderState.Accept.{set_accepted_idx, get_accepted_idx, push_pending_accept_meta}
use ca_op.LeaderState.Fast.{set_accepted_map}
use ca_op.Paxos.{SequencePaxos}
use ca_op.Paxos.Leader.Decide.{try_fast_decide_each, after_append, accept_entry_leader}
use ca_op.Paxos.Leader.Messages.{IsShaped}
use ca_op.Paxos.Leader.FastDecision.{FastDecides, try_fast_decide_idx-FastDecides}
use ca_op.Paxos.Leader.SlowDecision.{IsLeading}
use ca_op.Paxos.Leader.Accepting.{with_accepts, send_acceptdecide-Accepts}
use ca_op.Paxos.Release.{release_leader}

module _ {ℓ} {F : Type 0} {T S : Type ℓ} where
  -- The log and the batch are as they were, and the decided index is not lower.
  abbrev KeepsLog : InternalStorage T S → SequencePaxos F T S → Type ℓ
  KeepsLog i s' =
      (s'.internal_storage.storage.log ≡ i.storage.log)
      × (s'.internal_storage.cache.batched_entries ≡ i.cache.batched_entries)
      × (s'.internal_storage.cache.accepted_idx ≡ i.cache.accepted_idx)
      × (i.cache.decided_idx ≤ s'.internal_storage.cache.decided_idx)

  FastDecides-KeepsLog :
      (s : SequencePaxos F T S) (idx : ℕ) (r : SequencePaxos F T S × Bool)
      → IsShaped s.leader_state
      → FastDecides s idx r
      → KeepsLog s.internal_storage r.0 × IsShaped r.0.leader_state
  unfolding Internal.set_decided_idx
  FastDecides-KeepsLog s idx (s', true) shape (can, (storage, votes, shape', told)) =
      (rw storage (refl, refl, refl, omega (arith, can.2)), shape')
  FastDecides-KeepsLog s idx (s', false) shape (cannot, same) =
      rw same ((refl, refl, refl, omega arith), shape)

  try_fast_decide_each-KeepsLog :
      (n : ℕ) (s : SequencePaxos F T S) (idx : ℕ)
      → IsShaped s.leader_state
      → (s' : SequencePaxos F T S) × (try_fast_decide_each n s idx ≡ some s')
        × KeepsLog s.internal_storage s'
  unfolding try_fast_decide_each
  try_fast_decide_each-KeepsLog zero s idx shape = (s, refl, (refl, refl, refl, omega arith))
  try_fast_decide_each-KeepsLog (suc n) s idx shape =
      let (r, run, decides) = try_fast_decide_idx-FastDecides s idx shape in
      let ((log, batch, acc, up), shape') = FastDecides-KeepsLog s idx r shape decides in
      let (s', run', (log', batch', acc', up')) =
        try_fast_decide_each-KeepsLog n r.0 (idx + 1) shape' in
      (s', rw run run', (log' ∙ log, batch' ∙ batch, acc' ∙ acc, omega arith))

  -- The entry is behind the log and the batch, and the decided index is not lower.
  abbrev pub Appends : InternalStorage T S → T → SequencePaxos F T S → Type ℓ
  Appends i e s' =
      (s'.internal_storage.storage.log ++ s'.internal_storage.cache.batched_entries
        ≡ i.storage.log ++ (i.cache.batched_entries ++ e ∷ []))
      × (i.cache.decided_idx ≤ s'.internal_storage.cache.decided_idx)

  after_append-KeepsLog :
      (s : SequencePaxos F T S) (m : AcceptedMetaData T)
      → IsLeading s
      → 0 < s.pid
      → s.pid ≤ s.leader_state.max_pid
      → length m.entries ≤ length s.leader_state.pending_accept_meta
      → (s' : SequencePaxos F T S) × (after_append s (some m) ≡ some s')
        × KeepsLog s.internal_storage s'
  unfolding set_accepted_idx
  after_append-KeepsLog s m (shape, c) low high enough =
      let place : sub_usize s.pid 1 ≡ s.pid - 1 = sub_usize_le s.pid 1 low in
      let inside : ltb (s.pid - 1) (length s.leader_state.accepted_indexes) ≡ true = ground arith in
      let noted : SequencePaxos F T S = record s {
        leader_state = record (s.leader_state) {
          accepted_indexes = set s.leader_state.accepted_indexes (s.pid - 1) m.accepted_idx;
        };
      } in
      let (ns, ms, out, sent, lead, more) =
        send_acceptdecide-Accepts noted m
          (
            (
              shape.0,
              shape.1,
              length-set s.leader_state.accepted_indexes (s.pid - 1) m.accepted_idx ∙ shape.2,
              shape.3,
            ),
            c,
          )
          enough in
      let (s', run, keeps) =
        try_fast_decide_each-KeepsLog (length m.entries)
          (with_accepts
            (record noted {
              leader_state = record (noted.leader_state) {
                pending_accept_meta = drop (length m.entries) s.leader_state.pending_accept_meta;
              };
            })
            ns ms out)
          (sub_usize (m.accepted_idx + 1) (length m.entries)) lead.0 in
      (s', rw (place, inside, sent) run, keeps)

  accept_entry_leader-Appends :
      (s : SequencePaxos F T S) (e : T)
      → IsLeading s
      → 0 < s.pid
      → s.pid ≤ s.leader_state.max_pid
      → length s.internal_storage.cache.batched_entries + 1
        ≤ length s.leader_state.pending_accept_meta
      → (s' : SequencePaxos F T S) × (accept_entry_leader s e ≡ some s')
        × Appends s.internal_storage e s'
  unfolding accept_entry_leader append_entry_with_batching flush_if_full_batch cache_entry
      take_entries_if_batch_is_full append_entries_without_batching Memory.append_entries
  accept_entry_leader-Appends s e lead low high enough =
      let batch = s.internal_storage.cache.batched_entries ++ e ∷ [] in
      let size : length batch ≡ length s.internal_storage.cache.batched_entries + 1 =
        omega (arith, length-append s.internal_storage.cache.batched_entries (e ∷ [])) in
      elim (Bool-cases (leb s.internal_storage.cache.batch_size (length batch))) [
        | inl full ↦
            let idx = s.internal_storage.cache.accepted_idx + length batch in
            let flushed : SequencePaxos F T S = record s {
              internal_storage = record {
                storage = Memory.append_entries s.internal_storage.storage batch;
                cache = record (s.internal_storage.cache) {
                  batched_entries = [];
                  accepted_idx = idx;
                };
              };
            } in
            let (s', run, (log, rest, acc, up)) =
              after_append-KeepsLog flushed (record { accepted_idx = idx; entries = batch }) lead
                low high (omega arith) in
            (
              s',
              rw full run,
              (
                ap₂ (λ l b. l ++ b) log rest ∙ append-nil (s.internal_storage.storage.log ++ batch),
                up,
              ),
            )
        | inr part ↦ (
          record s {
            internal_storage = record (s.internal_storage) {
              cache = record (s.internal_storage.cache) { batched_entries = batch };
            };
          },
          rw part refl,
          (refl, omega arith),
        )
      ]

  -- A leader with a place for every pid, and with the metadata of all entries in its batch, releases
  -- every proposal without a panic, also when it has accepted a stop sign: the entry comes behind the
  -- log and the batch, and the decided index does not fall.
  pub release_leader-Appends :
      (hash_of : EntryId → ℤ → DomHash) (s : SequencePaxos F T S) (prop : DomPropose T)
      → IsLeading s
      → 0 < s.pid
      → s.pid ≤ s.leader_state.max_pid
      → length s.internal_storage.cache.batched_entries ≤ length s.leader_state.pending_accept_meta
      → (s' : SequencePaxos F T S) × (release_leader hash_of s prop ≡ some s')
        × Appends s.internal_storage prop.entry s'
  unfolding release_leader push_pending_accept_meta get_accepted_idx set_accepted_map extend_hash
  release_leader-Appends hash_of s prop (shape, c) low high enough =
      let entry_hash = hash_of prop.entry_id prop.deadline in
      let meta : AcceptedEntryMeta = record {
        entry_id = prop.entry_id;
        deadline = prop.deadline;
      } in
      let (idx, there) = get_elem?_lt s.leader_state.accepted_indexes (s.pid - 1) (omega arith) in
      let voted : SequencePaxos F T S = record s {
        accepted_prefix_hash = extend_hash s.accepted_prefix_hash entry_hash;
        leader_state =
            set_accepted_map (push_pending_accept_meta s.leader_state meta) (idx + 1) entry_hash
              s.accepted_prefix_hash s.pid false;
      } in
      let (s', run, appends) =
        accept_entry_leader-Appends voted prop.entry (shape, c) low high
          (omega (arith, length-append s.leader_state.pending_accept_meta (meta ∷ []))) in
      (s', rw (sub_usize_le s.pid 1 low, there) run, appends)
