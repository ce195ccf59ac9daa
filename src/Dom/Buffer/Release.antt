-- ===== src/Dom/Buffer/Release.antt =====
-- What the early buffer (lib/omnipaxos/src/dom/buffer.rs) releases at a time.
use ca_op.Prelude.{
  Bool-cases, length, All, ℕ, zero, suc, ◌≤◌, ◌≡◌, refl, sym, ap, ap₂, subst, ◌∙◌, inl, inr, true,
  false, Option, none, some, List, [], ◌∷◌, ◌++◌, map, arith,
}
use ca_op.Prelude.Int.{ℤ, ◌≤ℤ◌, ltb_ℤ}
use ca_op.Messages.Paxos.{DomPropose}
use ca_op.Dom.Buffer.{
  BufferKey, key_of, le_key, EbEntry, new_entry, EarlyBuffer, pop_ready, release_loop, release,
}
use ca_op.Dom.Buffer.Heap.{le_key-deadline, IsOrdered, IsValid}

module _ {ℓ} {T : Type ℓ} where
  -- The last key that came out.
  abbrev pub last_of : Option BufferKey → List (DomPropose T) → Option BufferKey
  last_of last [] = last
  last_of last (p ∷ ps) = last_of (some (key_of p)) ps

  abbrev pub IsReady : ℤ → DomPropose T → Type 0
  IsReady now p = p.deadline ≤ℤ now

  abbrev pub IsWaiting : ℤ → EbEntry T → Type 0
  IsWaiting now e = ltb_ℤ now e.key.deadline ≡ true

  entry-eta : (e : EbEntry T) → e.key ≡ key_of e.proposal → e ≡ new_entry e.proposal
  entry-eta e k = ap (λ key. record { key = key; proposal = e.proposal }) k

  IsWaiting-after :
      (now : ℤ) (e : EbEntry T) (es : List (EbEntry T))
      → IsWaiting now e
      → All (λ x. le_key e.key x.key ≡ true) es
      → All (IsWaiting now) es
  IsWaiting-after now e [] w a = tt
  IsWaiting-after now e (x ∷ es) w (h, a) =
      (ground (arith, le_key-deadline e.key x.key h), IsWaiting-after now e es w a)

  -- A release takes the ready proposals from the front of the heap, and leaves the others.
  abbrev pub Splits : ℤ → EarlyBuffer T → EarlyBuffer T × List (DomPropose T) → Type ℓ
  Splits now b (b', ps) =
      (b.heap ≡ map new_entry ps ++ b'.heap)
      × (b'.last_released ≡ last_of b.last_released ps)
      × All (IsReady now) ps
      × All (IsWaiting now) b'.heap

  pop_ready_waits :
      (now : ℤ) (e : EbEntry T) (es : List (EbEntry T)) (last : Option BufferKey)
      → ltb_ℤ now e.proposal.deadline ≡ true
      → pop_ready (record { heap = e ∷ es; last_released = last }) now
        ≡ (record { heap = e ∷ es; last_released = last }, none)
  unfolding pop_ready
  pop_ready_waits now e es last h = rw (pop_ready, h) refl

  pop_ready_ready :
      (now : ℤ) (e : EbEntry T) (es : List (EbEntry T)) (last : Option BufferKey)
      → ltb_ℤ now e.proposal.deadline ≡ false
      → pop_ready (record { heap = e ∷ es; last_released = last }) now
        ≡ (record { heap = es; last_released = some e.key }, some e.proposal)
  unfolding pop_ready
  pop_ready_ready now e es last h = rw (pop_ready, h) refl

  -- The rest of a round of the loop, after `pop_ready`.
  abbrev go_on : ℕ → ℤ → EarlyBuffer T × Option (DomPropose T) → EarlyBuffer T × List (DomPropose T)
  go_on fuel now (b, none) = (b, [])
  go_on fuel now (b, some prop) = ((release_loop fuel now b).0, prop ∷ (release_loop fuel now b).1)

  loop_waits :
      (fuel : ℕ) (now : ℤ) (e : EbEntry T) (es : List (EbEntry T)) (last : Option BufferKey)
      → ltb_ℤ now e.proposal.deadline ≡ true
      → release_loop (suc fuel) now (record { heap = e ∷ es; last_released = last })
        ≡ (record { heap = e ∷ es; last_released = last }, [])
  unfolding release_loop
  loop_waits fuel now e es last h = ap (go_on fuel now) (pop_ready_waits now e es last h)

  loop_ready :
      (fuel : ℕ) (now : ℤ) (e : EbEntry T) (es : List (EbEntry T)) (last : Option BufferKey)
      → ltb_ℤ now e.proposal.deadline ≡ false
      → release_loop (suc fuel) now (record { heap = e ∷ es; last_released = last }) ≡ (
        (release_loop fuel now (record { heap = es; last_released = some e.key })).0,
        e.proposal ∷ (release_loop fuel now (record { heap = es; last_released = some e.key })).1,
      )
  unfolding release_loop
  loop_ready fuel now e es last h = ap (go_on fuel now) (pop_ready_ready now e es last h)

  release_loop-Splits :
      (fuel : ℕ) (now : ℤ) (heap : List (EbEntry T)) (last : Option BufferKey)
      → length heap ≤ fuel
      → IsOrdered heap
      → Splits now
          (record { heap = heap; last_released = last })
          (release_loop fuel now (record { heap = heap; last_released = last }))
  unfolding release_loop pop_ready
  release_loop-Splits zero now [] last f o = (refl, refl, tt, tt)
  release_loop-Splits zero now (e ∷ es) last f o = absurd (omega arith)
  release_loop-Splits (suc fuel) now [] last f o = (refl, refl, tt, tt)
  release_loop-Splits (suc fuel) now (e ∷ es) last f (k, low, o) =
      elim (Bool-cases (ltb_ℤ now e.proposal.deadline)) [
        | inl waits ↦
            let w : IsWaiting now e = ap (λ key. ltb_ℤ now key.deadline) k ∙ waits in
            subst (Splits now _) (sym (loop_waits fuel now e es last waits))
              (refl, refl, tt, (w, IsWaiting-after now e es w low))
        | inr ready ↦
            let (split, end, all_ready, rest) =
              release_loop-Splits fuel now es (some e.key) (omega arith) o in
            subst (Splits now _) (sym (loop_ready fuel now e es last ready)) (
              ap₂ (λ x xs. x ∷ xs) (entry-eta e k) split,
              end
                  ∙ ap
                      (λ key.
                        last_of (some key)
                          (release_loop fuel now
                            (record { heap = es; last_released = some e.key })).1)
                      k,
              (ground arith, all_ready),
              rest,
            )
      ]

  -- At a time the buffer releases exactly the proposals whose deadline has passed, in their order,
  -- and remembers the last one; all others stay. The fuel of the loop is enough.
  pub release-Splits : (b : EarlyBuffer T) (now : ℤ) → IsValid b → Splits now b (release b now)
  unfolding release
  release-Splits b now v =
      release_loop-Splits (length b.heap) now b.heap b.last_released (omega arith) v.ordered
