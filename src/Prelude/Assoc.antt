-- ===== src/Prelude/Assoc.antt =====
-- Hash maps and hash sets as association lists. Keys come with a Boolean equality that decides
-- the equality of the program's keys.
use ca_op.Prelude.{
  ◌==◌ as nat_beq, if◌then◌else◌, ==_iff, Bool-cases, ℕ, ◌≡◌, refl, ◌↔◌, inl, inr, Bool, true,
  false, ◌||◌, Option, none, some, List, [], ◌∷◌, arith,
}

pub record Eq {ℓ} (A : Type ℓ) : Type ℓ where
  pub beq : A → A → Bool
  pub beq_iff : (a b : A) → (beq a b ≡ true) ↔ (a ≡ b)

instance abbrev pub nat_eq : Eq ℕ
nat_eq = record { beq = nat_beq; beq_iff = ==_iff }

module _ {ℓ} {K : Type ℓ} ⦃e : Eq K⦄ where
  -- `HashSet::contains`
  unfoldable pub contains : K → List K → Bool
  contains k [] = false
  contains k (x ∷ xs) = e.beq x k || contains k xs

  -- `HashSet::insert`
  unfoldable pub insert_set : K → List K → List K
  unfolding contains
  insert_set k xs = if contains k xs then xs else k ∷ xs

  -- `HashSet::union`
  unfoldable pub union : List K → List K → List K
  unfolding insert_set
  union [] ys = ys
  union (x ∷ xs) ys = insert_set x (union xs ys)

  module _ {κ} {V : Type κ} where
    -- `HashMap::get`
    unfoldable pub get : K → List (K × V) → Option V
    get k [] = none
    get k ((j, v) ∷ m) = if e.beq j k then some v else get k m

    -- `HashMap::insert`
    unfoldable pub insert : K → V → List (K × V) → List (K × V)
    insert k v [] = (k, v) ∷ []
    insert k v ((j, w) ∷ m) = if e.beq j k then (k, v) ∷ m else (j, w) ∷ insert k v m

    pub get-insert :
        (k j : K) (v : V) (m : List (K × V))
        → get j (insert k v m) ≡ (if e.beq k j then some v else get j m)
    unfolding get insert
    get-insert k j v [] = refl
    get-insert k j v ((i, w) ∷ m) =
        ground (arith, e.beq_iff k j, e.beq_iff i k, e.beq_iff i j, get-insert k j v m)

    pub insert-insert :
        (k : K) (v w : V) (m : List (K × V)) → insert k w (insert k v m) ≡ insert k w m
    unfolding insert
    insert-insert k v w [] = ground (arith, e.beq_iff k k)
    insert-insert k v w ((j, x) ∷ m) =
        ground (arith, e.beq_iff j k, e.beq_iff k k, insert-insert k v w m)

    pub get-insert_self : (k : K) (v : V) (m : List (K × V)) → get k (insert k v m) ≡ some v
    get-insert_self k v m = ground (arith, get-insert k k v m, e.beq_iff k k)

  pub contains-insert_set :
      (k j : K) (xs : List K) → contains j (insert_set k xs) ≡ (e.beq k j || contains j xs)
  unfolding insert_set
  contains-insert_set k j xs = elim (Bool-cases (contains k xs)) [
    | inl old ↦ rw (old, insert_set) (there xs old)
    | inr new ↦ rw (new, insert_set) refl
  ]
    where
      there : (xs : List K) → contains k xs ≡ true → contains j xs ≡ (e.beq k j || contains j xs)
      there xs old = elim (Bool-cases (e.beq k j)) [
        | inl same ↦ rw same (rw (← (e.beq_iff k j).0 same) old)
        | inr other ↦ rw other refl
      ]

  insert_set_present : (k : K) (xs : List K) → contains k xs ≡ true → insert_set k xs ≡ xs
  unfolding insert_set
  insert_set_present k xs h = rw (h, insert_set)

  pub insert_set-insert_set :
      (k : K) (xs : List K) → insert_set k (insert_set k xs) ≡ insert_set k xs
  insert_set-insert_set k xs =
      insert_set_present k (insert_set k xs)
        (ground (arith, contains-insert_set k k xs, e.beq_iff k k))
