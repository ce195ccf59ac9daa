-- ===== src/Dom/Buffer/Order.antt =====
-- The order in which proposals come out of the early buffer (lib/omnipaxos/src/dom/buffer.rs) over
-- a sequence of steps.
use ca_op.Prelude.{
  Bool-cases, All, ◌≡◌, refl, sym, subst, inl, inr, false, Option, none, some, List, [], ◌∷◌, ◌++◌,
  map,
}
use ca_op.Prelude.Int.{ℤ}
use ca_op.Messages.Paxos.{EntryId, DomPropose}
use ca_op.Dom.Buffer.{
  BufferKey, key_of, EbEntry, new_entry, EarlyBuffer, is_late, insert, remove, release,
}
use ca_op.Dom.Buffer.Heap.{
  le_key_total, IsAfter, All-keep, IsOrdered, IsValid, All-push, push-IsOrdered, keep-IsOrdered,
  is_other, remove-keep,
}
use ca_op.Dom.Buffer.Release.{last_of, release-Splits}

-- A step of a buffer: a proposal comes in, the ready ones are released, or one is removed.
pub data Step {ℓ} (T : Type ℓ) : Type ℓ where
  arrives : DomPropose T → Step T
  released_at : ℤ → Step T
  removed : EntryId → Step T

module _ {ℓ} {T : Type ℓ} where
  -- The state after a step, and what it releases.
  unfoldable pub step : EarlyBuffer T → Step T → EarlyBuffer T × List (DomPropose T)
  unfolding insert release remove
  step b (arrives proposal) = ((insert b proposal).0, [])
  step b (released_at now) = release b now
  step b (removed id) = ((remove b id).0, [])

  unfoldable pub steps : EarlyBuffer T → List (Step T) → EarlyBuffer T × List (DomPropose T)
  unfolding step
  steps b [] = (b, [])
  steps b (s ∷ ss) = let (b', ps) = step b s in let (b'', qs) = steps b' ss in (b'', ps ++ qs)

  -- No key is before the one that came out before it.
  abbrev pub IsIncreasing : Option BufferKey → List (DomPropose T) → Type 0
  IsIncreasing last [] = Unit
  IsIncreasing last (p ∷ ps) = IsAfter last (key_of p) × IsIncreasing (some (key_of p)) ps

  front-IsIncreasing :
      (ps : List (DomPropose T)) (rest : List (EbEntry T)) (last : Option BufferKey)
      → IsOrdered (map new_entry ps ++ rest)
      → All (λ e. IsAfter last e.key) (map new_entry ps ++ rest)
      → IsIncreasing last ps × IsOrdered rest × All (λ e. IsAfter (last_of last ps) e.key) rest
  front-IsIncreasing [] rest last o a = (tt, o, a)
  front-IsIncreasing (p ∷ ps) rest last (k, low, o) (h, a) =
      let (up, o', a') = front-IsIncreasing ps rest (some (key_of p)) o low in ((h, up), o', a')

  append-IsIncreasing :
      (ps qs : List (DomPropose T)) (last : Option BufferKey)
      → IsIncreasing last ps
      → IsIncreasing (last_of last ps) qs
      → IsIncreasing last (ps ++ qs)
  append-IsIncreasing [] qs last a b = b
  append-IsIncreasing (p ∷ ps) qs last (h, a) b =
      (h, append-IsIncreasing ps qs (some (key_of p)) a b)

  not_late-IsAfter :
      (last : Option BufferKey) (b : EarlyBuffer T) (p : DomPropose T)
      → b.last_released ≡ last
      → is_late b p ≡ false
      → IsAfter last (key_of p)
  unfolding is_late
  not_late-IsAfter none b p e h = tt
  not_late-IsAfter (some last) b p e h = le_key_total (key_of p) last (rw e at h)

  pub insert-IsValid : (b : EarlyBuffer T) (p : DomPropose T) → IsValid b → IsValid (insert b p).0
  unfolding insert
  insert-IsValid b p v = elim (Bool-cases (is_late b p)) [
    | inl late ↦ rw (late, insert) v
    | inr early ↦
        rw (early, insert)
          (record {
            ordered = push-IsOrdered (new_entry p) b.heap refl v.ordered;
            after =
                All-push (λ e. IsAfter b.last_released e.key) (new_entry p) b.heap
                  (not_late-IsAfter b.last_released b p refl early) v.after;
          })
  ]

  -- What a step keeps: its result is valid, it releases in order, and the last one is remembered.
  abbrev Keeps : EarlyBuffer T → EarlyBuffer T × List (DomPropose T) → Type ℓ
  Keeps b (b', ps) =
      IsValid b' × IsIncreasing b.last_released ps × (b'.last_released ≡ last_of b.last_released ps)

  insert_last :
      (b : EarlyBuffer T) (p : DomPropose T) → (insert b p).0.last_released ≡ b.last_released
  unfolding insert
  insert_last b p = elim (Bool-cases (is_late b p)) [
    | inl late ↦ rw (late, insert) refl
    | inr early ↦ rw (early, insert) refl
  ]

  step-Keeps : (b : EarlyBuffer T) (s : Step T) → IsValid b → Keeps b (step b s)
  unfolding step
  step-Keeps b (arrives p) v = (insert-IsValid b p v, tt, insert_last b p)
  step-Keeps b (released_at now) v =
      let (split, end, ready, waiting) = release-Splits b now v in
      let (up, o, a) =
        front-IsIncreasing (release b now).1 (release b now).0.heap b.last_released
          (subst IsOrdered split v.ordered)
          (subst (All (λ e. IsAfter b.last_released e.key)) split v.after) in
      (
        record {
          ordered = o;
          after = subst (λ last. All (λ e. IsAfter last e.key) (release b now).0.heap) (sym end) a;
        },
        up,
        end,
      )
  step-Keeps b (removed id) v =
      subst (λ b'. Keeps b (b', [])) (sym (remove-keep b id v.ordered))
        (
          record {
            ordered = keep-IsOrdered (is_other id) b.heap v.ordered;
            after = All-keep (λ e. IsAfter b.last_released e.key) (is_other id) b.heap v.after;
          },
          tt,
          refl,
        )

  -- Over any sequence of arrivals, releases and removals the proposals come out of the buffer by
  -- their deadlines, with the entry id as a tie-breaker, across all releases.
  pub steps-IsIncreasing :
      (b : EarlyBuffer T) (ss : List (Step T))
      → IsValid b
      → IsIncreasing b.last_released (steps b ss).1
  unfolding steps
  steps-IsIncreasing b [] v = tt
  steps-IsIncreasing b (s ∷ ss) v =
      let (v', up, end) = step-Keeps b s v in
      append-IsIncreasing (step b s).1 (steps (step b s).0 ss).1 b.last_released up (
        subst (λ last. IsIncreasing last (steps (step b s).0 ss).1) end
          (steps-IsIncreasing (step b s).0 ss v'))
