-- ===== src/Dom/Buffer.antt =====
-- `EarlyBuffer` of lib/omnipaxos/src/dom/buffer.rs. The binary heap is a list in the order in which
-- its elements come out; the order of equal elements is not specified by the heap.
pub mod Heap
pub mod Release
pub mod Order
use ca_op.Prelude.{
  if◌then◌else◌, length, ℕ, zero, suc, ◌+◌, compare, Ordering, Bool, true, false, not, Option, none,
  some, List, [], ◌∷◌,
}
use ca_op.Prelude.Int.{ℤ, pos_part, neg_part, ltb_ℤ}
use ca_op.Ballot.{then_cmp}
use ca_op.Messages.Paxos.{EntryId, entry_id_eq, DomPropose}

pub record BufferKey : Type 0 where
  pub deadline : ℤ
  pub entry_id : EntryId

-- `BufferKey::from`
abbrev pub key_of {ℓ} : {T : Type ℓ} → DomPropose T → BufferKey
key_of proposal = record { deadline = proposal.deadline; entry_id = proposal.entry_id }

-- The order of `i64`.
abbrev pub compare_ℤ : ℤ → ℤ → Ordering
compare_ℤ a b = compare (pos_part a + neg_part b) (pos_part b + neg_part a)

-- The derived order: by deadline, then by entry id.
unfoldable pub cmp_key : BufferKey → BufferKey → Ordering
cmp_key a b = then_cmp (compare_ℤ a.deadline b.deadline) (
    then_cmp (compare a.entry_id.client_id b.entry_id.client_id)
      (compare a.entry_id.command_id b.entry_id.command_id))

unfoldable pub le_key : BufferKey → BufferKey → Bool
unfolding cmp_key
le_key a b = elim (cmp_key a b) [ Ordering.gt ↦ false | _ ↦ true ]

pub record EbEntry {ℓ} (T : Type ℓ) : Type ℓ where
  pub key : BufferKey
  pub proposal : DomPropose T

-- `EBEntry::new`
abbrev pub new_entry {ℓ} : {T : Type ℓ} → DomPropose T → EbEntry T
new_entry proposal = record { key = key_of proposal; proposal = proposal }

pub record EarlyBuffer {ℓ} (T : Type ℓ) : Type ℓ where
  pub heap : List (EbEntry T)
  pub last_released : Option BufferKey

module _ {ℓ} {T : Type ℓ} where
  -- `EarlyBuffer::new`
  abbrev pub new_buffer : EarlyBuffer T
  new_buffer = record { heap = []; last_released = none }

  -- `BinaryHeap::push`
  unfoldable pub push : EbEntry T → List (EbEntry T) → List (EbEntry T)
  push e [] = e ∷ []
  push e (x ∷ xs) = if le_key x.key e.key then x ∷ push e xs else e ∷ x ∷ xs

  unfoldable pub is_late : EarlyBuffer T → DomPropose T → Bool
  is_late b proposal = elim b.last_released [
    | none ↦ false
    | some last ↦ le_key (key_of proposal) last
  ]

  -- A late proposal is handed back.
  unfoldable pub insert : EarlyBuffer T → DomPropose T → EarlyBuffer T × Option (DomPropose T)
  unfolding push is_late
  insert b proposal =
      if is_late b proposal
      then (b, some proposal)
      else (record b { heap = push (new_entry proposal) b.heap }, none)

  unfoldable pub last_released_deadline : EarlyBuffer T → Option ℤ
  last_released_deadline b = elim b.last_released [ none ↦ none | some key ↦ some key.deadline ]

  unfoldable pub peek : EarlyBuffer T → Option (DomPropose T)
  peek b = elim b.heap [ [] ↦ none | e ∷ es ↦ some e.proposal ]

  unfoldable pub pop : EarlyBuffer T → EarlyBuffer T × Option (DomPropose T)
  pop b = elim b.heap [
    | [] ↦ (b, none)
    | e ∷ es ↦ (record { heap = es; last_released = some e.key }, some e.proposal)
  ]

  -- Whether the earliest proposal has a deadline that is not after `now`.
  abbrev pub is_ready : Option (DomPropose T) → ℤ → Bool
  is_ready none now = false
  is_ready (some next) now = not (ltb_ℤ now next.deadline)

  unfoldable pub pop_ready : EarlyBuffer T → ℤ → EarlyBuffer T × Option (DomPropose T)
  unfolding peek pop
  pop_ready b now = if is_ready (peek b) now then pop b else (b, none)

  -- The loop of `remove`, which takes the elements of the heap one by one.
  unfoldable pub remove_loop :
      EntryId
      → List (EbEntry T)
      → List (EbEntry T)
      → Option (DomPropose T)
      → List (EbEntry T) × Option (DomPropose T)
  unfolding push
  remove_loop entry_id [] new_heap removed = (new_heap, removed)
  remove_loop entry_id (e ∷ heap) new_heap removed =
      if entry_id_eq e.proposal.entry_id entry_id
      then remove_loop entry_id heap new_heap (some e.proposal)
      else remove_loop entry_id heap (push e new_heap) removed

  unfoldable pub remove : EarlyBuffer T → EntryId → EarlyBuffer T × Option (DomPropose T)
  unfolding remove_loop
  remove b entry_id = let r = remove_loop entry_id b.heap [] none in (record b { heap = r.0 }, r.1)

  -- The loop of `Dom::release_ready`, with fuel.
  unfoldable pub release_loop : ℕ → ℤ → EarlyBuffer T → EarlyBuffer T × List (DomPropose T)
  release_loop zero limit b = (b, [])
  release_loop (suc fuel) limit b =
      let (b', next) = pop_ready b limit in
      elim next [
        | none ↦ (b', [])
        | some prop ↦ let (b'', proposals) = release_loop fuel limit b' in (b'', prop ∷ proposals)
      ]

  -- One round of the loop for each element of the heap is enough.
  unfoldable pub release : EarlyBuffer T → ℤ → EarlyBuffer T × List (DomPropose T)
  unfolding release_loop
  release b limit = release_loop (length b.heap) limit b
