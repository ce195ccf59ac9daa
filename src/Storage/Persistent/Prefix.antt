-- ===== src/Storage/Persistent/Prefix.antt =====
-- Appending on a prefix, in `PersistentStorage` and in the back end in memory.
use ca_op.Prelude.{
  ltb, leb, if◌then◌else◌, Bool-cases, length, get_elem?, take, length-append, length-take,
  sub_usize, sub_usize_le, ℕ, ◌+◌, ◌-◌, ◌≤◌, ◌≡◌, refl, sym, ap, subst, ◌∙◌, inl, inr, ◌&&◌, none,
  List, ◌++◌, arith,
}
use ca_op.Storage.Memory
use ca_op.Storage.Memory.{MemoryStorage}
use ca_op.Storage.Persistent.{StateKey, delete_range, DbOps, Codecs, puts}
use ca_op.Storage.Persistent.Laws.{
  DbLaws, get_elem?_append, get_elem?-take, get_elem?-none, at_puts,
}
use ca_op.Storage.Persistent.Mirrors.{HoldsLog, Mirrors, frame_state, get_puts}

module _ {ℓ} {D V : Type 0} {T S : Type ℓ} (dbs : DbOps D V) (codecs : Codecs T S V)
    (laws : DbLaws dbs) where
  -- The database after the deletion behind the new entries.
  abbrev cut : D → ℕ → ℕ → D
  cut d delete_idx next =
      if ltb delete_idx next then dbs.write_one (delete_range delete_idx next) d else d

  at_cut :
      (k : ℕ) (d : D) (delete_idx next : ℕ)
      → laws.log_at k (cut d delete_idx next)
        ≡ (if leb delete_idx k && ltb k next then none else laws.log_at k d)
  at_cut k d delete_idx next = elim (Bool-cases (ltb delete_idx next)) [
    | inl behind ↦ rw behind (laws.at_delete_range k delete_idx next d)
    | inr nothing ↦ ground arith
  ]

  get_cut :
      (key : StateKey) (d : D) (delete_idx next : ℕ)
      → dbs.get key (cut d delete_idx next) ≡ dbs.get key d
  get_cut key d delete_idx next = elim (Bool-cases (ltb delete_idx next)) [
    | inl behind ↦ rw behind (laws.get_delete_range key delete_idx next d)
    | inr nothing ↦ rw nothing refl
  ]

  prefix-HoldsLog :
      (d : D) (base n : ℕ) (log es : List T)
      → n ≤ length log
      → HoldsLog dbs codecs laws d base log
      → HoldsLog dbs codecs laws
          (dbs.write
            (puts dbs codecs (base + n) es)
            (cut d (base + n + length es) (base + length log)))
          base
          (take n log ++ es)
  prefix-HoldsLog d base n log es inside h k =
      let from = base + n in
      let next = base + length log in
      let d' = cut d (from + length es) next in
      let put = at_puts dbs codecs laws k from es d' in
      let cleared = at_cut k d (from + length es) next in
      let before = h k in
      let size : length (take n log) ≡ n = omega (arith, length-take n log) in
      elim (Bool-cases (leb base k)) [
        | inr outside ↦ ground (arith, put, cleared, before)
        | inl within ↦
            let joined = get_elem?_append (take n log) es (k - base) in
            let kept = get_elem?-take n log (k - base) in
            elim (Bool-cases (ltb (k - base) n)) [
              | inl old ↦ ground (arith, put, cleared, before, joined, kept, size)
              | inr new ↦
                  let place : k - base - length (take n log) ≡ k - from = omega arith in
                  let moved = ap (get_elem? es) place in
                  elim (Bool-cases (ltb k (from + length es))) [
                    | inl fresh ↦ ground (arith, put, cleared, joined, size, moved)
                    | inr beyond ↦
                        let nothing = get_elem?-none es (k - from) (ground arith) in
                        elim (Bool-cases (ltb k next)) [
                          | inl deleted ↦ ground (arith, put, cleared, joined, size, moved, nothing)
                          | inr after ↦
                              let end = get_elem?-none log (k - base) (ground arith) in
                              ground
                                (arith, put, cleared, before, joined, size, moved, nothing, end)
                        ]
                  ]
            ]
      ]

  pub prefix-Mirrors :
      (d : D) (next from_idx : ℕ) (m : MemoryStorage T S) (es : List T)
      → m.trimmed_idx ≤ from_idx
      → from_idx ≤ m.trimmed_idx + length m.log
      → Mirrors dbs codecs laws d next m
      → Mirrors dbs codecs laws
          (dbs.write (puts dbs codecs from_idx es) (cut d (from_idx + length es) next))
          (from_idx + length es)
          (Memory.append_on_prefix m from_idx es)
  unfolding Memory.append_on_prefix
  prefix-Mirrors d next from_idx m es low high r =
      let n = from_idx - m.trimmed_idx in
      let offset : sub_usize from_idx m.trimmed_idx ≡ n = sub_usize_le from_idx m.trimmed_idx low in
      let at : from_idx ≡ m.trimmed_idx + n = omega arith in
      let d' = cut d (from_idx + length es) next in
      record {
        next_key = rw offset (omega (arith, length-append (take n m.log) es, length-take n m.log));
        log =
            rw (offset, r.next_key)
              (subst
                (λ i.
                  HoldsLog dbs codecs laws
                    (dbs.write (puts dbs codecs i es)
                      (cut d (i + length es) (m.trimmed_idx + length m.log)))
                    m.trimmed_idx (take n m.log ++ es))
                (sym at) (prefix-HoldsLog d m.trimmed_idx n m.log es (omega arith) r.log));
        state =
            frame_state dbs codecs laws d _ m
              (λ key.
                get_puts dbs codecs laws key from_idx es d'
                ∙ get_cut key d (from_idx + length es) next)
              r.state;
      }
