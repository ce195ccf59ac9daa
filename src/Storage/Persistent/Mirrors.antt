-- ===== src/Storage/Persistent/Mirrors.antt =====
-- The specification of `PersistentStorage`: the database and the next key stand for a state of the
-- back end in memory.
use ca_op.Prelude.{
  ltb, leb, if◌then◌else◌, Bool-cases, length, get_elem?, drop, length-append, length-drop,
  sub_usize, sub_usize_le, ℕ, ◌+◌, ◌-◌, ◌≤◌, min, ◌≡◌, sym, ap, subst, ◌∙◌, ◌⊎◌, inl, inr, Option,
  none, some, List, [], ◌∷◌, ◌++◌, arith,
}
use ca_op.Storage.Memory
use ca_op.Storage.Memory.{MemoryStorage}
use ca_op.Storage.Persistent.{
  StateKey, nprom, acc, decide, trim_key, stopsign_key, snapshot_key, put_log, delete_range, DbOps,
  Codec, Codecs, puts,
}
use ca_op.Storage.Persistent.Laws.{
  DbLaws, encoded, get_elem?_append, get_elem?-drop, get_elem?-none, at_puts,
}

-- A key holds a value, or it is missing and the value is the default.
abbrev pub HoldsValue {ℓ} : {A : Type ℓ} {V : Type 0} → Codec A V → A → A → Option V → Type ℓ
HoldsValue c default a o = (o ≡ some (c.serialize a)) ⊎ ((o ≡ none) × (a ≡ default))

module _ {ℓ} {D V : Type 0} {T S : Type ℓ} (dbs : DbOps D V) (codecs : Codecs T S V)
    (laws : DbLaws dbs) where
  -- The state keys.
  abbrev pub HoldsState : D → MemoryStorage T S → Type ℓ
  HoldsState d m =
      (dbs.get nprom d ≡ encoded codecs.of_ballot m.n_prom)
      × (dbs.get acc d ≡ encoded codecs.of_ballot m.acc_round)
      × HoldsValue codecs.of_index 0 m.ld (dbs.get decide d)
      × HoldsValue codecs.of_index 0 m.compacted_idx (dbs.get trim_key d)
      × HoldsValue codecs.of_stopsign none m.stopsign (dbs.get stopsign_key d)
      × HoldsValue codecs.of_snapshot none m.snapshot (dbs.get snapshot_key d)

  -- The keys of the log: the entries at their indices, and nothing else.
  abbrev pub HoldsLog : D → ℕ → List T → Type 0
  HoldsLog d base log =
      (k : ℕ)
      → laws.log_at k d
        ≡ (if leb base k then encoded codecs.of_entry (get_elem? log (k - base)) else none)

  pub record Mirrors (d : D) (next : ℕ) (m : MemoryStorage T S) : Type ℓ where
    pub next_key : next ≡ m.trimmed_idx + length m.log
    pub log : HoldsLog d m.trimmed_idx m.log
    pub state : HoldsState d m

  -- A write that keeps the state keys.
  pub frame_state :
      (d d' : D) (m : MemoryStorage T S)
      → ((key : StateKey) → dbs.get key d' ≡ dbs.get key d)
      → HoldsState d m
      → HoldsState d' m
  frame_state d d' m same (p, r, i, c, ss, sn) = (
    same nprom ∙ p,
    same acc ∙ r,
    subst (HoldsValue codecs.of_index 0 m.ld) (sym (same decide)) i,
    subst (HoldsValue codecs.of_index 0 m.compacted_idx) (sym (same trim_key)) c,
    subst (HoldsValue codecs.of_stopsign none m.stopsign) (sym (same stopsign_key)) ss,
    subst (HoldsValue codecs.of_snapshot none m.snapshot) (sym (same snapshot_key)) sn,
  )

  pub get_puts :
      (key : StateKey) (j : ℕ) (es : List T) (d : D)
      → dbs.get key (dbs.write (puts dbs codecs j es) d) ≡ dbs.get key d
  unfolding puts
  get_puts key j [] d = ap (dbs.get key) (laws.write_nil d)
  get_puts key j (e ∷ es) d =
      let v = codecs.of_entry.serialize e in
      ap (dbs.get key) (laws.write_cons (put_log j v) (puts dbs codecs (j + 1) es) d)
      ∙ get_puts key (j + 1) es (dbs.write_one (put_log j v) d)
      ∙ laws.get_put_log key j v d

  -- The entries are put from a key of the log on; those behind them are gone already.
  puts-HoldsLog :
      (d : D) (base : ℕ) (log : List T) (es : List T)
      → HoldsLog d base log
      → HoldsLog (dbs.write (puts dbs codecs (base + length log) es) d) base (log ++ es)
  puts-HoldsLog d base log es h k =
      let next = base + length log in
      let put = at_puts dbs codecs laws k next es d in
      let before = h k in
      elim (Bool-cases (leb base k)) [
        | inr outside ↦ ground (arith, put, before)
        | inl inside ↦ elim (Bool-cases (ltb (k - base) (length log))) [
          | inl old ↦
              let found = get_elem?_append log es (k - base) in ground (arith, put, before, found)
          | inr new ↦
              let place : k - base - length log ≡ k - next = omega arith in
              let found : get_elem? (log ++ es) (k - base) ≡ get_elem? es (k - next) =
                get_elem?_append log es (k - base) ∙ rw new (ap (get_elem? es) place) in
              elim (Bool-cases (ltb k (next + length es))) [
                | inl within ↦ ground (arith, put, before, found)
                | inr beyond ↦ ground (
                  arith,
                  put,
                  before,
                  found,
                  get_elem?-none log (k - base),
                  get_elem?-none es (k - next),
                )
              ]
        ]
      ]

  trim-HoldsLog :
      (d : D) (base n : ℕ) (log : List T)
      → HoldsLog d base log
      → HoldsLog (dbs.write_one (delete_range 0 (base + n)) d) (base + n) (drop n log)
  trim-HoldsLog d base n log h k =
      let gone = laws.at_delete_range k 0 (base + n) d in
      let before = h k in
      elim (Bool-cases (leb (base + n) k)) [
        | inl stays ↦
            let place : n + (k - (base + n)) ≡ k - base = ground arith in
            let found : get_elem? (drop n log) (k - (base + n)) ≡ get_elem? log (k - base) =
              get_elem?-drop n log (k - (base + n)) ∙ ap (get_elem? log) place in
            ground (arith, gone, before, found)
        | inr below ↦ ground (arith, gone, before)
      ]

  pub append-Mirrors :
      (d : D) (next : ℕ) (m : MemoryStorage T S) (es : List T)
      → Mirrors d next m
      → Mirrors
          (dbs.write (puts dbs codecs next es) d)
          (next + length es)
          (Memory.append_entries m es)
  unfolding Memory.append_entries
  append-Mirrors d next m es r = record {
    next_key = omega (arith, r.next_key, length-append m.log es);
    log = rw r.next_key (puts-HoldsLog d m.trimmed_idx m.log es r.log);
    state = frame_state d _ m (λ key. get_puts key next es d) r.state;
  }

  pub trim-Mirrors :
      (d : D) (next idx : ℕ) (m : MemoryStorage T S)
      → m.trimmed_idx ≤ idx
      → idx ≤ m.trimmed_idx + length m.log
      → Mirrors d next m
      → Mirrors (dbs.write_one (delete_range 0 idx) d) next (Memory.trim m idx)
  unfolding Memory.trim
  trim-Mirrors d next idx m low high r =
      let n = idx - m.trimmed_idx in
      let offset : min (sub_usize idx m.trimmed_idx) (length m.log) ≡ n =
        omega (arith, sub_usize_le idx m.trimmed_idx low) in
      let at : idx ≡ m.trimmed_idx + n = omega arith in
      record {
        next_key = rw offset (omega (arith, r.next_key, length-drop n m.log));
        log = rw offset (
            subst (λ i. HoldsLog (dbs.write_one (delete_range 0 i) d) i (drop n m.log)) (sym at)
              (trim-HoldsLog d m.trimmed_idx n m.log r.log));
        state = frame_state d _ m (λ key. laws.get_delete_range key 0 idx d) r.state;
      }
