-- ===== src/Dom/Buffer/Heap.antt =====
-- The order of the early buffer (lib/omnipaxos/src/dom/buffer.rs) and what keeps it: the keys are
-- those of the proposals, in order, and all after the last one that was released.
use ca_op.Prelude.{
  Bool-cases, keep, All, ◌≡◌, refl, sym, ap, ◌∙◌, inl, inr, Bool, true, false, not, Option, none,
  some, List, [], ◌∷◌, ◌++◌, append-nil, append_assoc, arith,
}
use ca_op.Prelude.Int.{◌≤ℤ◌}
use ca_op.Messages.Paxos.{EntryId, entry_id_eq, DomPropose}
use ca_op.Dom.Buffer.{BufferKey, key_of, le_key, EbEntry, EarlyBuffer, push, remove_loop, remove}

pub le_key_total : (a b : BufferKey) → le_key a b ≡ false → le_key b a ≡ true
unfolding le_key
le_key_total a b h = ground arith

pub le_key_refl : (a : BufferKey) → le_key a a ≡ true
unfolding le_key
le_key_refl a = ground arith

pub le_key_trans : (a b c : BufferKey) → le_key a b ≡ true → le_key b c ≡ true → le_key a c ≡ true
unfolding le_key
le_key_trans a b c h k = ground arith

pub le_key-lt : (a b c : BufferKey) → le_key a b ≡ false → le_key a c ≡ true → le_key c b ≡ false
unfolding le_key
le_key-lt a b c h k = ground arith

pub le_key-deadline : (a b : BufferKey) → le_key a b ≡ true → a.deadline ≤ℤ b.deadline
unfolding le_key
le_key-deadline a b h = ground arith

-- A key that may come out after the last one that did.
abbrev pub IsAfter : Option BufferKey → BufferKey → Type 0
IsAfter none key = Unit
IsAfter (some last) key = le_key last key ≡ true

module _ {ℓ} {T : Type ℓ} where
  pub All-append {κ} :
      (P : EbEntry T → Type κ) (xs ys : List (EbEntry T)) → All P xs → All P ys → All P (xs ++ ys)
  All-append P [] ys a b = b
  All-append P (x ∷ xs) ys (p, a) b = (p, All-append P xs ys a b)

  pub All-keep {κ} :
      (P : EbEntry T → Type κ) (q : EbEntry T → Bool) (xs : List (EbEntry T))
      → All P xs
      → All P (keep q xs)
  All-keep P q [] a = tt
  All-keep P q (x ∷ xs) (p, a) = elim (Bool-cases (q x)) [
    | inl h ↦ rw h (p, All-keep P q xs a)
    | inr h ↦ rw h (All-keep P q xs a)
  ]

  pub All-map {κ} :
      (P Q : EbEntry T → Type κ) (xs : List (EbEntry T))
      → ((x : EbEntry T) → P x → Q x)
      → All P xs
      → All Q xs
  All-map P Q [] f a = tt
  All-map P Q (x ∷ xs) f (p, a) = (f x p, All-map P Q xs f a)

  -- The entries come out by their keys, which are those of the proposals.
  abbrev pub IsOrdered : List (EbEntry T) → Type ℓ
  IsOrdered [] = Unit
  IsOrdered (e ∷ es) =
      (e.key ≡ key_of e.proposal) × All (λ x. le_key e.key x.key ≡ true) es × IsOrdered es

  pub record IsValid (b : EarlyBuffer T) : Type ℓ where
    pub ordered : IsOrdered b.heap
    pub after : All (λ e. IsAfter b.last_released e.key) b.heap

  pub All-push {κ} :
      (P : EbEntry T → Type κ) (e : EbEntry T) (xs : List (EbEntry T))
      → P e
      → All P xs
      → All P (push e xs)
  unfolding push
  All-push P e [] p a = (p, tt)
  All-push P e (x ∷ xs) p (q, a) = elim (Bool-cases (le_key x.key e.key)) [
    | inl h ↦ rw h (q, All-push P e xs p a)
    | inr h ↦ rw h (p, (q, a))
  ]

  pub push-IsOrdered :
      (e : EbEntry T) (xs : List (EbEntry T))
      → e.key ≡ key_of e.proposal
      → IsOrdered xs
      → IsOrdered (push e xs)
  unfolding push
  push-IsOrdered e [] k o = (k, tt, tt)
  push-IsOrdered e (x ∷ xs) k (kx, low, o) = elim (Bool-cases (le_key x.key e.key)) [
    | inl h ↦
        rw h (kx, All-push (λ y. le_key x.key y.key ≡ true) e xs h low, push-IsOrdered e xs k o)
    | inr h ↦
        let before = le_key_total x.key e.key h in
        rw h (
          k,
          (before, All-map _ _ xs (λ y l. le_key_trans e.key x.key y.key before l) low),
          (kx, low, o),
        )
  ]

  -- An element that is not before any other one goes to the end.
  pub push_last :
      (e : EbEntry T) (xs : List (EbEntry T))
      → All (λ x. le_key x.key e.key ≡ true) xs
      → push e xs ≡ xs ++ e ∷ []
  unfolding push
  push_last e [] a = refl
  push_last e (x ∷ xs) (h, a) = rw h (ap (λ l. x ∷ l) (push_last e xs a))

  pub keep-IsOrdered :
      (q : EbEntry T → Bool) (xs : List (EbEntry T)) → IsOrdered xs → IsOrdered (keep q xs)
  keep-IsOrdered q [] o = tt
  keep-IsOrdered q (x ∷ xs) (k, low, o) = elim (Bool-cases (q x)) [
    | inl h ↦ rw h (k, All-keep _ q xs low, keep-IsOrdered q xs o)
    | inr h ↦ rw h (keep-IsOrdered q xs o)
  ]

  -- What `remove` leaves: all other entries, in the same order.
  abbrev pub is_other : EntryId → EbEntry T → Bool
  is_other id e = not (entry_id_eq e.proposal.entry_id id)

  remove_loop-keep :
      (id : EntryId) (heap new_heap : List (EbEntry T)) (r : Option (DomPropose T))
      → IsOrdered heap
      → All (λ e. All (λ x. le_key x.key e.key ≡ true) new_heap) heap
      → (remove_loop id heap new_heap r).0 ≡ new_heap ++ keep (is_other id) heap
  unfolding remove_loop
  remove_loop-keep id [] new_heap r o a = sym (append-nil new_heap)
  remove_loop-keep id (e ∷ heap) new_heap r (k, low, o) (h, a) =
      elim (Bool-cases (entry_id_eq e.proposal.entry_id id)) [
        | inl same ↦ rw same (remove_loop-keep id heap new_heap (some e.proposal) o a)
        | inr other ↦
            rw (other, push_last e new_heap h)
              (remove_loop-keep id heap (new_heap ++ e ∷ []) r o (snoc heap low a)
                ∙ append_assoc new_heap (e ∷ []) (keep (is_other id) heap))
      ]
    where
      snoc :
          (xs : List (EbEntry T))
          → All (λ y. le_key e.key y.key ≡ true) xs
          → All (λ y. All (λ x. le_key x.key y.key ≡ true) new_heap) xs
          → All (λ y. All (λ x. le_key x.key y.key ≡ true) (new_heap ++ e ∷ [])) xs
      snoc [] l m = tt
      snoc (y ∷ ys) (l, ls) (m, ms) = (All-append _ new_heap (e ∷ []) m (l, tt), snoc ys ls ms)

  none_before :
      (xs : List (EbEntry T)) → All (λ e. All (λ (x : EbEntry T). le_key x.key e.key ≡ true) []) xs
  none_before [] = tt
  none_before (x ∷ xs) = (tt, none_before xs)

  -- A removal takes the entries with that id out of the buffer and leaves all others in order.
  pub remove-keep :
      (b : EarlyBuffer T) (id : EntryId)
      → IsOrdered b.heap
      → (remove b id).0 ≡ record b { heap = keep (is_other id) b.heap }
  unfolding remove
  remove-keep b id o = rw (remove_loop-keep id b.heap [] none o (none_before b.heap)) refl
