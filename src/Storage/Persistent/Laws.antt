-- ===== src/Storage/Persistent/Laws.antt =====
-- What `PersistentStorage` relies on: the database keeps what is written, and values decode to what
-- was encoded.
use ca_op.Prelude.{
  ltb, leb, ◌==◌, if◌then◌else◌, ==_iff, Bool-cases, length, get_elem?, take, drop, ℕ, zero, suc,
  ◌+◌, ◌-◌, ◌≤◌, ◌<◌, ◌≡◌, refl, ap, ◌∙◌, inl, inr, Bool, true, false, ◌&&◌, Option, none, some,
  List, [], ◌∷◌, ◌++◌, arith,
}
use ca_op.Storage.Persistent.{
  StateKey, nprom, acc, decide, trim_key, stopsign_key, snapshot_key, Write, put_log, delete_range,
  put, DbOps, Codec, Codecs, puts,
}

abbrev pub eq_key : StateKey → StateKey → Bool
eq_key nprom nprom = true
eq_key acc acc = true
eq_key decide decide = true
eq_key trim_key trim_key = true
eq_key stopsign_key stopsign_key = true
eq_key snapshot_key snapshot_key = true
eq_key _ _ = false

abbrev pub IsCodec {ℓ} : {A : Type ℓ} {V : Type 0} → Codec A V → Type ℓ
IsCodec {A = A} c = (a : A) → c.deserialize (c.serialize a) ≡ some a

-- The documented behaviour of the database, with `log_at`, the value of a log key: a write takes
-- effect and changes nothing else, a batch is its writes in order, an iterator walks the keys in
-- order, and the last key is the greatest one.
pub record DbLaws {D V : Type 0} (dbs : DbOps D V) : Type 0 where
  pub log_at : ℕ → D → Option V
  pub at_put_log :
      (k j : ℕ) (v : V) (d : D)
      → log_at k (dbs.write_one (put_log j v) d) ≡ (if j == k then some v else log_at k d)
  pub at_delete_range :
      (k a b : ℕ) (d : D)
      → log_at k (dbs.write_one (delete_range a b) d)
        ≡ (if leb a k && ltb k b then none else log_at k d)
  pub at_put :
      (k : ℕ) (key : StateKey) (v : V) (d : D) → log_at k (dbs.write_one (put key v) d) ≡ log_at k d
  pub get_put :
      (key other : StateKey) (v : V) (d : D)
      → dbs.get key (dbs.write_one (put other v) d)
        ≡ (if eq_key other key then some v else dbs.get key d)
  pub get_put_log :
      (key : StateKey) (j : ℕ) (v : V) (d : D)
      → dbs.get key (dbs.write_one (put_log j v) d) ≡ dbs.get key d
  pub get_delete_range :
      (key : StateKey) (a b : ℕ) (d : D)
      → dbs.get key (dbs.write_one (delete_range a b) d) ≡ dbs.get key d
  pub write_nil : (d : D) → dbs.write [] d ≡ d
  pub write_cons :
      (w : Write V) (ws : List (Write V)) (d : D)
      → dbs.write (w ∷ ws) d ≡ dbs.write ws (dbs.write_one w d)
  pub seek_at :
      (k : ℕ) (v : V) (d : D) → log_at k d ≡ some v → dbs.seek k d ≡ (k, v) ∷ dbs.seek (k + 1) d
  pub last_at :
      (k : ℕ) (v : V) (d : D)
      → log_at k d ≡ some v
      → ((j : ℕ) → k < j → log_at j d ≡ none)
      → dbs.last_key d ≡ some k
  pub last_none : (d : D) → ((j : ℕ) → log_at j d ≡ none) → dbs.last_key d ≡ none

-- A value as it is written.
abbrev pub encoded {ℓ} : {A : Type ℓ} {V : Type 0} → Codec A V → Option A → Option V
encoded c none = none
encoded c (some a) = some (c.serialize a)

sub_zero : (i : ℕ) → i ≡ i - 0
sub_zero i = omega arith

sub_suc : (i n : ℕ) → i - n ≡ suc i - suc n
sub_suc i n = omega arith

suc_add : (n i : ℕ) → suc (n + i) ≡ suc n + i
suc_add n i = omega arith

pub get_elem?_append {ℓ} :
    {A : Type ℓ} (xs ys : List A) (i : ℕ)
    → get_elem? (xs ++ ys) i
      ≡ (if ltb i (length xs) then get_elem? xs i else get_elem? ys (i - length xs))
get_elem?_append [] ys i = ground (arith, ap (get_elem? ys) (sub_zero i))
get_elem?_append (x ∷ xs) ys zero = ground arith
get_elem?_append (x ∷ xs) ys (suc i) =
    ground (arith, get_elem?_append xs ys i, ap (get_elem? ys) (sub_suc i (length xs)))

pub get_elem?-take {ℓ} :
    {A : Type ℓ} (n : ℕ) (xs : List A) (i : ℕ)
    → get_elem? (take n xs) i ≡ (if ltb i n then get_elem? xs i else none)
get_elem?-take zero xs i = ground arith
get_elem?-take (suc n) [] i = ground arith
get_elem?-take (suc n) (x ∷ xs) zero = ground arith
get_elem?-take (suc n) (x ∷ xs) (suc i) = ground (arith, get_elem?-take n xs i)

pub get_elem?-drop {ℓ} :
    {A : Type ℓ} (n : ℕ) (xs : List A) (i : ℕ) → get_elem? (drop n xs) i ≡ get_elem? xs (n + i)
get_elem?-drop zero xs i = ap (get_elem? xs) (omega arith)
get_elem?-drop (suc n) [] i = refl
get_elem?-drop (suc n) (x ∷ xs) i = get_elem?-drop n xs i ∙ ap (get_elem? (x ∷ xs)) (suc_add n i)

pub drop-length {ℓ} : {A : Type ℓ} (xs : List A) → drop (length xs) xs ≡ []
drop-length [] = refl
drop-length (x ∷ xs) = drop-length xs

pub get_elem?-none {ℓ} : {A : Type ℓ} (xs : List A) (i : ℕ) → length xs ≤ i → get_elem? xs i ≡ none
get_elem?-none [] i h = refl
get_elem?-none (x ∷ xs) zero h = absurd (omega arith)
get_elem?-none (x ∷ xs) (suc i) h = get_elem?-none xs i (omega arith)

module _ {ℓ} {D V : Type 0} {T S : Type ℓ} (dbs : DbOps D V) (codecs : Codecs T S V)
    (laws : DbLaws dbs) where
  pub at_puts :
      (k j : ℕ) (es : List T) (d : D)
      → laws.log_at k (dbs.write (puts dbs codecs j es) d) ≡ (
          if leb j k && ltb k (j + length es)
          then encoded codecs.of_entry (get_elem? es (k - j))
          else laws.log_at k d)
  unfolding puts
  at_puts k j [] d = ground (arith, ap (λ x. laws.log_at k x) (laws.write_nil d))
  at_puts k j (e ∷ es) d =
      let v = codecs.of_entry.serialize e in
      let d' = dbs.write_one (put_log j v) d in
      let step =
        ap (λ x. laws.log_at k x) (laws.write_cons (put_log j v) (puts dbs codecs (j + 1) es) d) in
      let rest = at_puts k (j + 1) es d' in
      let put = laws.at_put_log k j v d in
      elim (Bool-cases (j == k)) [
        | inl same ↦
            let here : k - j ≡ 0 = ground arith in rw here (ground (arith, step, rest, put))
        | inr other ↦ elim (Bool-cases (leb j k)) [
          | inl after ↦
              let there : k - j ≡ suc (k - (j + 1)) = ground (arith, ==_iff j k) in
              rw there (ground (arith, step, rest, put, ==_iff j k))
          | inr before ↦ ground (arith, step, rest, put)
        ]
      ]
