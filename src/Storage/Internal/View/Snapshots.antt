-- ===== src/Storage/Internal/View/Snapshots.antt =====
-- Snapshots stand for the prefix of the log that they replace.
use ca_op.Prelude.{
  ltb, Bool-cases, length, take, drop, take-append-take, ℕ, ◌-◌, ◌≤◌, ◌≡◌, refl, ap, ◌∙◌, ◌⊎◌, inl,
  inr, false, Option, none, some, List, [], ◌++◌, arith,
}
use ca_op.Storage.{SnapshotOps, ok}
use ca_op.Storage.Memory.Window.{get_entries-take}
use ca_op.Storage.Internal.{InternalStorage}
use ca_op.Storage.Internal.Compact.{
  merge_stored, create_snapshot, compact, snapshot_target, try_snapshot,
}
use ca_op.Storage.Internal.View.{Represents}
use ca_op.Storage.Internal.View.Compaction.{
  decided_without_stopsign, compact-Represents, compaction_idx-cases, Compacted,
}

-- The law of the user's snapshots: to merge the changes of more entries is to take a snapshot of
-- all entries.
abbrev pub IsMergeable {ℓ} : {T S : Type ℓ} → SnapshotOps T S → Type ℓ
IsMergeable {T = T} ops =
    (xs ys : List T) → ops.merge (ops.create xs) (ops.create ys) ≡ ops.create (xs ++ ys)

module _ {ℓ} {T S : Type ℓ} (ops : SnapshotOps T S) where
  -- The compacted part of the log is in the snapshot.
  abbrev pub Covers : InternalStorage T S → List T → Type ℓ
  Covers s h =
      (s.storage.snapshot ≡ some (ops.create (take s.cache.compacted_idx h)))
      ⊎ ((s.storage.snapshot ≡ none) × (s.cache.compacted_idx ≡ 0))

  -- A snapshot at an index that is not compacted stands for all entries before that index, also
  -- for those that only the stored snapshot still has.
  pub create_snapshot-Covers :
      (s : InternalStorage T S) (h : List T) (idx : ℕ)
      → IsMergeable ops
      → Represents s h
      → Covers s h
      → s.cache.compacted_idx ≤ idx
      → idx ≤ length h
      → create_snapshot ops s idx ≡ ok (ops.create (take idx h))
  unfolding create_snapshot
  create_snapshot-Covers s h idx law r cov low high =
      let late : ltb idx s.cache.compacted_idx ≡ false = ground arith in
      let entries =
        get_entries-take s.storage h s.cache.compacted_idx s.cache.compacted_idx idx
          r.mirrors.trimmed r.log (omega arith) low high in
      rw (late, entries) (merged cov)
    where
      c : ℕ
      c = s.cache.compacted_idx

      whole : take c h ++ take (idx - c) (drop c h) ≡ take idx h
      whole = take-append-take c (idx - c) h ∙ ap (λ k. take k h) (omega arith)

      merged :
          Covers s h
          → ok (merge_stored ops s.storage.snapshot (ops.create (take (idx - c) (drop c h))))
            ≡ ok (ops.create (take idx h))
      merged (inl stored) =
          rw (stored, merge_stored, law (take c h) (take (idx - c) (drop c h)), whole)
      merged (inr (fresh, none_yet)) =
          let empty : take c h ≡ [] = rw none_yet in
          rw (fresh, merge_stored) (ap (λ l. ok (ops.create l)) (rw empty at whole))

  target_bounds :
      (s : InternalStorage T S) (h : List T) (idx : Option ℕ) (target : ℕ)
      → Represents s h
      → snapshot_target s idx ≡ ok target
      → (target ≤ length h) × (target ≤ s.cache.decided_idx)
  unfolding snapshot_target
  target_bounds s h none target r e = ground (arith, decided_without_stopsign s h r)
  target_bounds s h (some i) target r e =
      ground (arith, decided_without_stopsign s h r, compaction_idx-cases s h i r)

  -- A snapshot request succeeds or is refused as a trim is. It leaves the log as it was, and the
  -- snapshot again stands for all that is compacted.
  pub try_snapshot-Covers :
      (s : InternalStorage T S) (h : List T) (idx : Option ℕ) (target : ℕ)
      → IsMergeable ops
      → Represents s h
      → Covers s h
      → snapshot_target s idx ≡ ok target
      → (s' : InternalStorage T S) × (try_snapshot ops s idx ≡ ok s')
        × Compacted s h target s'
        × Covers s' h
  unfolding try_snapshot
  try_snapshot-Covers s h idx target law r cov e =
      let (high, dec) = target_bounds s h idx target r e in
      elim (Bool-cases (ltb s.cache.compacted_idx target)) [
        | inl further ↦
            let made = create_snapshot-Covers s h target law r cov (ground arith) high in
            (
              compact s target (some (ops.create (take target h))),
              rw (e, try_snapshot, further, made),
              (
                compact-Represents s h target (some (ops.create (take target h))) r (ground arith)
                    high dec,
                ground arith,
              ),
              inl refl,
            )
        | inr covered ↦ (s, rw (e, try_snapshot, covered), (r, ground arith), cov)
      ]
