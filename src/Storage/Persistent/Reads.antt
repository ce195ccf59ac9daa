-- ===== src/Storage/Persistent/Reads.antt =====
-- What `PersistentStorage` reads from a database that stands for a state of the back end in memory.
use ca_op.Prelude.{
  ltb, leb, ◌==◌, ==_iff, Bool-cases, length, get_elem?, take, drop, sub_usize, sub_usize_le, ℕ,
  zero, suc, ◌+◌, ◌-◌, ◌≤◌, ◌<◌, ◌≡◌, refl, ap, ◌∙◌, ◌≢◌, inl, inr, true, false, ◌&&◌, ◌||◌, Option,
  none, some, List, [], ◌∷◌, arith,
}
use ca_op.Ballot.{Ballot}
use ca_op.Storage.Memory
use ca_op.Storage.Memory.{MemoryStorage, slice}
use ca_op.Storage.Persistent.{
  decide, trim_key, stopsign_key, snapshot_key, DbOps, Codec, Codecs, PersistentStorage, read_value,
  read_index, read_option, open_at, open_db, take_entries, get_entries, get_compacted_idx,
  get_decided_idx, get_promise, get_accepted_round, get_stopsign, get_snapshot,
}
use ca_op.Storage.Persistent.Laws.{IsCodec, DbLaws, encoded, get_elem?-none}
use ca_op.Storage.Persistent.Mirrors.{HoldsValue, HoldsLog, Mirrors}

-- A read index is an element of the rest of the list.
drop_cons {ℓ} :
    {A : Type ℓ} (xs : List A) (i : ℕ)
    → i < length xs
    → (x : A) × (get_elem? xs i ≡ some x) × (drop i xs ≡ x ∷ drop (suc i) xs)
drop_cons [] i h = absurd (omega (arith, h))
drop_cons (x ∷ xs) zero h = (x, refl, refl)
drop_cons (x ∷ xs) (suc i) h =
    let rest = drop_cons xs i (omega (arith, h)) in (rest.0, rest.1, rest.2)

at_offset : (base i : ℕ) → base + i - base ≡ i
at_offset base i = omega arith

module _ {ℓ} {D V : Type 0} {T S : Type ℓ} (dbs : DbOps D V) (codecs : Codecs T S V)
    (laws : DbLaws dbs) (decodes : IsCodec codecs.of_entry) where
  take_entries-HoldsLog :
      (d : D) (base : ℕ) (log : List T) (n i : ℕ)
      → i + n ≤ length log
      → HoldsLog dbs codecs laws d base log
      → take_entries dbs codecs n (dbs.seek (base + i) d) ≡ some (take n (drop i log))
  unfolding take_entries
  take_entries-HoldsLog d base log zero i inside h = refl
  take_entries-HoldsLog d base log (suc n) i inside h =
      let (e, here, split) = drop_cons log i (omega arith) in
      let inside' : i < length log = omega arith in
      let held : laws.log_at (base + i) d ≡ some (codecs.of_entry.serialize e) =
        ground (arith, h (base + i), here, ap (get_elem? log) (at_offset base i)) in
      let next : base + i + 1 ≡ base + suc i = omega arith in
      let rest = take_entries-HoldsLog d base log n (suc i) (omega arith) h in
      rw
        (laws.seek_at (base + i) (codecs.of_entry.serialize e) d held, decodes e, next, rest, split)
        refl

  -- If the storage stands for a state of the back end in memory, and the entries decode to what was
  -- encoded, then a read within the log gives the entries that the back end in memory gives.
  pub get_entries-Mirrors :
      (s : PersistentStorage D V) (m : MemoryStorage T S) (from to : ℕ)
      → m.trimmed_idx ≤ from
      → from ≤ to
      → to ≤ m.trimmed_idx + length m.log
      → Mirrors dbs codecs laws s.db s.next_log_key m
      → get_entries dbs codecs s from to ≡ some (Memory.get_entries m from to)
  unfolding get_entries Memory.get_entries slice
  get_entries-Mirrors s m from to low ordered high r =
      let f = from - m.trimmed_idx in
      let n = to - from in
      let at_from : sub_usize from m.trimmed_idx ≡ f = sub_usize_le from m.trimmed_idx low in
      let at_to : sub_usize to m.trimmed_idx ≡ to - m.trimmed_idx =
        sub_usize_le to m.trimmed_idx (omega arith) in
      let within : leb f (to - m.trimmed_idx) && leb (to - m.trimmed_idx) (length m.log) ≡ true =
        ground arith in
      let size : to - m.trimmed_idx - f ≡ n = omega arith in
      let start : from ≡ m.trimmed_idx + f = omega arith in
      let walk = take_entries-HoldsLog s.db m.trimmed_idx m.log n f (omega arith) r.log in
      rw (at_from, at_to, within, size)
        (elim (Bool-cases (leb to from)) [
          | inl empty ↦
              let none_left : n ≡ 0 = ground arith in
              let skipped : ltb s.next_log_key to || leb to from ≡ true = ground arith in
              rw (skipped, none_left) refl
          | inr some_left ↦
              let reads : ltb s.next_log_key to || leb to from ≡ false =
                ground (arith, r.next_key) in
              rw reads (ap (λ k. take_entries dbs codecs n (dbs.seek k s.db)) start ∙ walk)
        ])

module _ {ℓ} {D V : Type 0} {T S : Type ℓ} (dbs : DbOps D V) (codecs : Codecs T S V)
    (laws : DbLaws dbs) (decodes : IsCodec codecs.of_index) where
  opened_empty :
      (d : D) (next : ℕ) (m : MemoryStorage T S)
      → Mirrors dbs codecs laws d next m
      → open_at dbs codecs d none
        ≡ some (record { db = d; write_batch = []; next_log_key = m.compacted_idx })
  unfolding open_at
  opened_empty d next m r = elim (r.state.3) [
    | inl written ↦ rw (written, decodes m.compacted_idx) refl
    | inr (missing, initial) ↦ rw (missing, initial) refl
  ]

  empty-open_db :
      (d : D) (next : ℕ) (m : MemoryStorage T S)
      → length m.log ≡ 0
      → m.compacted_idx ≡ m.trimmed_idx
      → Mirrors dbs codecs laws d next m
      → open_db dbs codecs d ≡ some (record { db = d; write_batch = []; next_log_key = next })
  unfolding open_db
  empty-open_db d next m empty compacted r =
      let nothing : (j : ℕ) → laws.log_at j d ≡ none =
        λ j. ground (arith, r.log j, get_elem?-none m.log (j - m.trimmed_idx) (omega arith)) in
      let same : m.compacted_idx ≡ next = omega (arith, r.next_key) in
      rw (laws.last_none d nothing) (opened_empty d next m r ∙ rw same refl)

  held-open_db :
      (d : D) (next : ℕ) (m : MemoryStorage T S)
      → length m.log ≢ 0
      → Mirrors dbs codecs laws d next m
      → open_db dbs codecs d ≡ some (record { db = d; write_batch = []; next_log_key = next })
  unfolding open_db open_at
  held-open_db d next m held r =
      let n = length m.log - 1 in
      let inside : n < length m.log = omega arith in
      let (e, last, split) = drop_cons m.log n inside in
      let found : laws.log_at (m.trimmed_idx + n) d ≡ some (codecs.of_entry.serialize e) = ground (
        arith,
        r.log (m.trimmed_idx + n),
        last,
        ap (get_elem? m.log) (at_offset m.trimmed_idx n),
      ) in
      let after : (j : ℕ) → m.trimmed_idx + n < j → laws.log_at j d ≡ none = λ j behind.
        ground (arith, r.log j, get_elem?-none m.log (j - m.trimmed_idx) (omega arith)) in
      let key : m.trimmed_idx + n + 1 ≡ next = omega (arith, r.next_key) in
      rw (laws.last_at (m.trimmed_idx + n) (codecs.of_entry.serialize e) d found after, key) refl

  -- If the database and the next key stand for a state of the back end in memory, an empty log is
  -- compacted up to where it is trimmed, and an index decodes to what was encoded, then the storage
  -- that is opened on the database has the same next key and an empty batch.
  pub open_db-Mirrors :
      (d : D) (next : ℕ) (m : MemoryStorage T S)
      → (length m.log ≡ 0 → m.compacted_idx ≡ m.trimmed_idx)
      → Mirrors dbs codecs laws d next m
      → open_db dbs codecs d ≡ some (record { db = d; write_batch = []; next_log_key = next })
  open_db-Mirrors d next m compacted r = elim (Bool-cases (length m.log == 0)) [
    | inl zero_long ↦
        let empty : length m.log ≡ 0 = ground (arith, ==_iff (length m.log) 0) in
        empty-open_db d next m empty (compacted empty) r
    | inr longer ↦ held-open_db d next m (ground (arith, ==_iff (length m.log) 0)) r
  ]

module _ {ℓ} {D V : Type 0} {T S : Type ℓ} (dbs : DbOps D V) (codecs : Codecs T S V)
    (laws : DbLaws dbs) (ballots : IsCodec codecs.of_ballot) (indices : IsCodec codecs.of_index)
    (stopsigns : IsCodec codecs.of_stopsign) (snapshots : IsCodec codecs.of_snapshot) where
  ballot_read :
      (o : Option Ballot) → read_value codecs.of_ballot (encoded codecs.of_ballot o) ≡ some o
  ballot_read none = refl
  ballot_read (some b) = rw (ballots b) refl

  index_read :
      (idx : ℕ) (o : Option V)
      → HoldsValue codecs.of_index 0 idx o
      → read_index codecs.of_index o ≡ some idx
  index_read idx o (inl written) = rw (written, indices idx) refl
  index_read idx o (inr (missing, initial)) = rw (missing, initial) refl

  option_read {κ} :
      {A : Type κ} (c : Codec (Option A) V) (a : Option A) (o : Option V)
      → IsCodec c
      → HoldsValue c none a o
      → read_option c o ≡ some a
  option_read c a o decodes (inl written) = rw (written, decodes a) refl
  option_read c a o decodes (inr (missing, initial)) = rw (missing, initial) refl

  -- If the storage stands for a state of the back end in memory, and all values decode to what was
  -- encoded, then every getter of the state gives the value that the back end in memory has, and no
  -- getter fails.
  pub getters-Mirrors :
      (s : PersistentStorage D V) (m : MemoryStorage T S)
      → Mirrors dbs codecs laws s.db s.next_log_key m
      → (get_promise dbs codecs s ≡ some m.n_prom)
        × (get_accepted_round dbs codecs s ≡ some m.acc_round)
        × (get_decided_idx dbs codecs s ≡ some m.ld)
        × (get_compacted_idx dbs codecs s ≡ some m.compacted_idx)
        × (get_stopsign dbs codecs s ≡ some m.stopsign)
        × (get_snapshot dbs codecs s ≡ some m.snapshot)
  unfolding get_promise get_accepted_round get_decided_idx get_compacted_idx get_stopsign
      get_snapshot
  getters-Mirrors s m r =
      let h = r.state in
      (
        ap (read_value codecs.of_ballot) (h.0) ∙ ballot_read m.n_prom,
        ap (read_value codecs.of_ballot) (h.1) ∙ ballot_read m.acc_round,
        index_read m.ld (dbs.get decide s.db) (h.2),
        index_read m.compacted_idx (dbs.get trim_key s.db) (h.3),
        option_read codecs.of_stopsign m.stopsign (dbs.get stopsign_key s.db) stopsigns (h.4),
        option_read codecs.of_snapshot m.snapshot (dbs.get snapshot_key s.db) snapshots (h.5),
      )
