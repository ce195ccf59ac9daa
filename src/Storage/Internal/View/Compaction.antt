-- ===== src/Storage/Internal/View/Compaction.antt =====
-- Trimming and snapshots leave the abstract log as it is.
use ca_op.Prelude.{
  ltb, Bool-cases, length, ℕ, ◌≤◌, ◌<◌, min, max, ◌≡◌, refl, ◌⊎◌, inl, inr, Option, none, some,
  List, arith,
}
use ca_op.Storage.{undecided_index, ok, err}
use ca_op.Storage.Memory.Window.{trim-log}
use ca_op.Storage.Cache.{stopsign_is_decided}
use ca_op.Storage.Internal.{InternalStorage, get_decided_idx_without_stopsign}
use ca_op.Storage.Internal.Compact.{compaction_idx, compact, try_trim}
use ca_op.Storage.Internal.View.{Represents}

module _ {ℓ} {T S : Type ℓ} where
  -- The decided part of the log without the stop sign is part of the log.
  pub decided_without_stopsign :
      (s : InternalStorage T S) (h : List T)
      → Represents s h
      → (get_decided_idx_without_stopsign s ≤ length h)
        × (get_decided_idx_without_stopsign s ≤ s.cache.decided_idx)
  unfolding get_decided_idx_without_stopsign stopsign_is_decided
  decided_without_stopsign s h r = ground (arith, r.accepted, r.decided_le)

  -- The atomic write of a compaction up to `idx`.
  pub compact-Represents :
      (s : InternalStorage T S) (h : List T) (idx : ℕ) (snapshot : Option S)
      → Represents s h
      → s.cache.compacted_idx ≤ idx
      → idx ≤ length h
      → idx ≤ s.cache.decided_idx
      → Represents (compact s idx snapshot) h
  unfolding compact
  compact-Represents s h idx none r low high dec = record {
    mirrors = record {
      promise = r.mirrors.promise;
      round = r.mirrors.round;
      decided = r.mirrors.decided;
      compacted = refl;
      trimmed = refl;
      stopsign = r.mirrors.stopsign;
    };
    log = trim-log s.storage h s.cache.compacted_idx idx r.mirrors.trimmed r.log low high;
    accepted = r.accepted;
    compacted_le = high;
    compacted_decided = dec;
    decided_le = r.decided_le;
  }
  compact-Represents s h idx (some snap) r low high dec = record {
    mirrors = record {
      promise = r.mirrors.promise;
      round = r.mirrors.round;
      decided = r.mirrors.decided;
      compacted = refl;
      trimmed = refl;
      stopsign = r.mirrors.stopsign;
    };
    log = trim-log s.storage h s.cache.compacted_idx idx r.mirrors.trimmed r.log low high;
    accepted = r.accepted;
    compacted_le = high;
    compacted_decided = dec;
    decided_le = r.decided_le;
  }

  -- A request beyond the decided index is refused; another one compacts up to its index, or up to
  -- the stop sign if it asks for all of a decided log.
  pub compaction_idx-cases :
      (s : InternalStorage T S) (h : List T) (idx : ℕ)
      → Represents s h
      → ((s.cache.decided_idx < idx)
          × (compaction_idx s idx ≡ err (undecided_index s.cache.decided_idx)))
        ⊎ ((idx ≤ s.cache.decided_idx)
            × (compaction_idx s idx ≡ ok (min idx (get_decided_idx_without_stopsign s))))
  unfolding compaction_idx get_decided_idx_without_stopsign stopsign_is_decided
  compaction_idx-cases s h idx r = ground (arith, r.accepted)

  -- The state after a compaction up to `idx`, if that is further than the last one.
  abbrev pub Compacted : InternalStorage T S → List T → ℕ → InternalStorage T S → Type ℓ
  Compacted s h idx s' = Represents s' h × (s'.cache.compacted_idx ≡ max s.cache.compacted_idx idx)

  -- A trim beyond the decided index is refused. Any other one succeeds: the log is as before, the
  -- compacted index is the larger of the old one and the requested one, where a request for the
  -- whole decided log leaves the stop sign out.
  pub try_trim-Represents :
      (s : InternalStorage T S) (h : List T) (idx : ℕ)
      → Represents s h
      → ((s.cache.decided_idx < idx) × (try_trim s idx ≡ err (undecided_index s.cache.decided_idx)))
        ⊎ ((idx ≤ s.cache.decided_idx)
            × ((s' : InternalStorage T S) × (try_trim s idx ≡ ok s')
                × Compacted s h (min idx (get_decided_idx_without_stopsign s)) s'))
  unfolding try_trim
  try_trim-Represents s h idx r = elim (compaction_idx-cases s h idx r) [
    | inl (late, e) ↦ inl (late, rw (e, try_trim))
    | inr (fine, e) ↦ inr (
      fine,
      compacted (min idx (get_decided_idx_without_stopsign s)) e
          (omega (arith, decided_without_stopsign s h r)),
    )
  ]
    where
      compacted :
          (i : ℕ)
          → compaction_idx s idx ≡ ok i
          → (i ≤ length h) × (i ≤ s.cache.decided_idx)
          → (s' : InternalStorage T S) × (try_trim s idx ≡ ok s') × Compacted s h i s'
      compacted i e (high, dec) = elim (Bool-cases (ltb s.cache.compacted_idx i)) [
        | inl further ↦ (
          compact s i none,
          rw (e, try_trim, further),
          (compact-Represents s h i none r (ground arith) high dec, ground arith),
        )
        | inr covered ↦ (s, rw (e, try_trim, covered), (r, ground arith))
      ]
