-- ===== src/LeaderState/Votes.antt =====
-- The votes of the fast path.
use ca_op.Prelude.{
  ltb, ◌==◌, if◌then◌else◌, Bool-cases, Option-cases, get_or_else, all, count, All, ℕ, ◌+◌, ◌≡◌,
  refl, sym, ap, subst, ◌∙◌, inl, inr, Bool, true, false, ◌&&◌, Option, none, some, List, [], ◌∷◌,
  ◌++◌, append_assoc, arith,
}
use ca_op.Prelude.Assoc
use ca_op.Prelude.Assoc.{nat_eq, insert_set, insert-insert, get-insert_self, insert_set-insert_set}
use ca_op.Messages.Paxos.{
  hash_pair_key, DomHash, hash_eq, hash_eq_iff, EntryId, UnsyncedLogEntry, UnsyncedLog,
}
use ca_op.LeaderState.{AcceptedMapEntry, LeaderState}
use ca_op.LeaderState.Fast.{
  Tally, add_vote, matched, vote, tally, prune, voters, record_vote, new_map_entry,
  get_matched_unsynced_entries, set_accepted_map, get_accepted_map, prune_accepted_map,
}

-- After pruning, the entries up to the decided index are gone and the others as before.
get-prune :
    (d j : ℕ) (m : List (ℕ × AcceptedMapEntry))
    → Assoc.get j (prune d m) ≡ (if ltb d j then Assoc.get j m else none)
unfolding Assoc.get prune
get-prune d j [] = ground arith
get-prune d j ((i, e) ∷ m) = ground (arith, get-prune d j m)

-- Whether a log continues the prefix at the index with an entry of the hash.
abbrev pub votes_hash {ℓ} : {T : Type ℓ} → DomHash → Option (UnsyncedLogEntry T) → Bool
votes_hash entry_hash none = false
votes_hash entry_hash (some e) = hash_eq e.entry_hash entry_hash

-- The votes of a tally for a hash; none if the hash is not there.
unfoldable pub tallied {ℓ} : {T : Type ℓ} → DomHash → Tally T → ℕ
tallied h [] = 0
tallied h ((g, (n, id, x)) ∷ t) = if hash_eq g h then n else tallied h t

module _ {ℓ} {T : Type ℓ} where
  -- Whether a log has, at the index, an entry of the hash that comes after the prefix.
  unfoldable pub votes_at : ℕ → DomHash → DomHash → UnsyncedLog T → Bool
  votes_at i p h [] = false
  votes_at i p h ((j, e) ∷ log) =
      if j == i
      then (e.prefix_hash.hash == p.hash) && (e.entry_hash.hash == h.hash)
      else votes_at i p h log

  -- A log has an entry with this hash, id and value at the index, after the prefix.
  abbrev pub Holds : ℕ → DomHash → DomHash → EntryId → T → UnsyncedLog T → Type ℓ
  Holds i p h id x log =
      (u : UnsyncedLogEntry T) × (Assoc.get i log ≡ some u)
      × (u.prefix_hash ≡ p)
      × (u.entry_hash ≡ h)
      × (u.entry_id ≡ id)
      × (u.entry ≡ x)

  -- One of the logs does.
  abbrev pub IsHeld : ℕ → DomHash → DomHash → EntryId → T → List (UnsyncedLog T) → Type ℓ
  IsHeld i p h id x logs =
      (log : UnsyncedLog T) × (before : List (UnsyncedLog T)) × (later : List (UnsyncedLog T))
      × (logs ≡ before ++ log ∷ later)
      × Holds i p h id x log

  -- The entry that a tally keeps for a hash is one of the entries counted.
  abbrev pub AreHeld : ℕ → DomHash → List (UnsyncedLog T) → Tally T → Type ℓ
  AreHeld i p logs t = All (λ c. IsHeld i p c.0 c.1.1 c.1.2 logs) t

  pub votes_hash-matched :
      (i : ℕ) (p h : DomHash) (log : UnsyncedLog T)
      → votes_hash h (matched i p log) ≡ votes_at i p h log
  unfolding matched Assoc.get votes_at hash_eq
  votes_hash-matched i p h [] = refl
  votes_hash-matched i p h ((j, e) ∷ log) = elim (Bool-cases (j == i)) [
    | inr other ↦ rw (matched, other) (votes_hash-matched i p h log)
    | inl here ↦ elim (Bool-cases (e.prefix_hash.hash == p.hash)) [
      | inl after ↦ rw (matched, here, after) refl
      | inr differs ↦ rw (matched, here, differs) refl
    ]
  ]

  pub Holds-votes_hash :
      (i : ℕ) (p h : DomHash) (id : EntryId) (x : T) (log : UnsyncedLog T)
      → Holds i p h id x log
      → votes_hash h (matched i p log) ≡ true
  unfolding matched
  Holds-votes_hash i p h id x log (u, at, after, named, _, _) =
      rw (at, matched, (hash_eq_iff u.prefix_hash p).1 after) ((hash_eq_iff u.entry_hash h).1 named)

  matched-Holds :
      (i : ℕ) (p : DomHash) (log : UnsyncedLog T) (u : UnsyncedLogEntry T)
      → matched i p log ≡ some u
      → Holds i p u.entry_hash u.entry_id u.entry log
  unfolding matched
  matched-Holds i p log u e = elim (Option-cases (Assoc.get i log)) [
    | inl absent ↦ absurd (ground (arith, rw (absent, matched) at e))
    | inr (v, at) ↦ elim (Bool-cases (hash_eq v.prefix_hash p)) [
      | inr other ↦ absurd (ground (arith, rw (at, matched, other) at e))
      | inl after ↦
          let same : v ≡ u = some_eq v (rw (at, matched, after) at e) in
          subst (λ w. Holds i p w.entry_hash w.entry_id w.entry log) same
            (v, at, (hash_eq_iff v.prefix_hash p).0 after, refl, refl, refl)
    ]
  ]
    where
      some_eq : (v : UnsyncedLogEntry T) {w : UnsyncedLogEntry T} → some v ≡ some w → v ≡ w
      some_eq v e = ap (λ o. elim o [ none ↦ v | some x ↦ x ]) e

  add_vote-AreHeld :
      (i : ℕ) (p : DomHash) (logs : List (UnsyncedLog T)) (e : UnsyncedLogEntry T) (t : Tally T)
      → IsHeld i p e.entry_hash e.entry_id e.entry logs
      → AreHeld i p logs t
      → AreHeld i p logs (add_vote e t)
  unfolding add_vote
  add_vote-AreHeld i p logs e [] new a = (new, tt)
  add_vote-AreHeld i p logs e ((h, (n, id, x)) ∷ t) new a =
      elim (Bool-cases (hash_eq h e.entry_hash)) [
        | inl same ↦ rw same (
          subst (λ k. IsHeld i p k e.entry_id e.entry logs)
              (sym ((hash_eq_iff h e.entry_hash).0 same)) new,
          a.1,
        )
        | inr other ↦ rw other (a.0, add_vote-AreHeld i p logs e t new a.1)
      ]

  vote-AreHeld :
      (i : ℕ) (p : DomHash) (logs : List (UnsyncedLog T)) (o : Option (UnsyncedLogEntry T))
      (t : Tally T)
      → ((u : UnsyncedLogEntry T) → o ≡ some u → IsHeld i p u.entry_hash u.entry_id u.entry logs)
      → AreHeld i p logs t
      → AreHeld i p logs (vote o t)
  vote-AreHeld i p logs none t new a = a
  vote-AreHeld i p logs (some u) t new a = add_vote-AreHeld i p logs u t (new u refl) a

  tally-AreHeld :
      (i : ℕ) (p : DomHash) (all before logs : List (UnsyncedLog T)) (t : Tally T)
      → all ≡ before ++ logs
      → AreHeld i p all t
      → AreHeld i p all (tally i p logs t)
  unfolding tally
  tally-AreHeld i p all before [] t e a = a
  tally-AreHeld i p all before (log ∷ logs) t e a =
      tally-AreHeld i p all (before ++ log ∷ []) logs (vote (matched i p log) t)
        (e ∙ sym (append_assoc before (log ∷ []) logs))
        (vote-AreHeld i p all (matched i p log) t
          (λ u found. (log, before, logs, e, matched-Holds i p log u found)) a)

  tallied-add_vote :
      (h : DomHash) (e : UnsyncedLogEntry T) (t : Tally T)
      → tallied h (add_vote e t) ≡ (if hash_eq e.entry_hash h then tallied h t + 1 else tallied h t)
  unfolding tallied add_vote
  tallied-add_vote h e [] = ground arith
  tallied-add_vote h e ((g, (n, id, x)) ∷ t) = ground (
    arith,
    hash_eq_iff g e.entry_hash,
    hash_eq_iff g h,
    hash_eq_iff e.entry_hash h,
    tallied-add_vote h e t,
  )

  tallied-vote :
      (h : DomHash) (o : Option (UnsyncedLogEntry T)) (t : Tally T)
      → tallied h (vote o t) ≡ (if votes_hash h o then tallied h t + 1 else tallied h t)
  tallied-vote h none t = refl
  tallied-vote h (some e) t = tallied-add_vote h e t

  tallied-tally :
      (i : ℕ) (p h : DomHash) (logs : List (UnsyncedLog T)) (t : Tally T)
      → tallied h (tally i p logs t) ≡ tallied h t + count (votes_at i p h) logs
  unfolding tally
  tallied-tally i p h [] t = omega arith
  tallied-tally i p h (log ∷ logs) t =
      tallied-tally i p h logs (vote (matched i p log) t)
      ∙ ground (arith, tallied-vote h (matched i p log) t, votes_hash-matched i p h log)

voters-insert :
    (key : DomHash × DomHash) (vs : List ℕ) (m : List ((DomHash × DomHash) × List ℕ))
    → voters key (Assoc.insert key vs m) ≡ vs
unfolding voters
voters-insert key vs m = rw (Assoc.get-insert_self key vs m)

record_vote_again :
    (a : AcceptedMapEntry) (h p : DomHash) (pid : ℕ) (is_fast : Bool)
    → record_vote (record_vote a h p pid is_fast) h p pid is_fast ≡ record_vote a h p pid is_fast
unfolding record_vote
record_vote_again a h p pid true =
    let vs = insert_set pid (voters (p, h) a.fast) in
    rw
      (
        voters-insert (p, h) vs a.fast,
        insert_set-insert_set pid (voters (p, h) a.fast),
        Assoc.insert-insert (p, h) vs vs a.fast,
      )
      refl
record_vote_again a h p pid false = rw (insert_set-insert_set pid a.slow) refl

module _ {ℓ} {T S : Type ℓ} where
  -- The count that recovery compares with its threshold is the number of replicas whose stored
  -- unsynced log has, at the index and after the prefix, an entry of that hash. The entry that is
  -- kept for each hash, with its id, is one of those entries.
  pub get_matched_unsynced_entries-count :
      (s : LeaderState T S) (i : ℕ) (p h : DomHash)
      → (tallied h (get_matched_unsynced_entries s i p)
          ≡ count (votes_at i p h) s.unsynced_log_store)
        × AreHeld i p s.unsynced_log_store (get_matched_unsynced_entries s i p)
  unfolding get_matched_unsynced_entries tallied
  get_matched_unsynced_entries-count s i p h = (
    tallied-tally i p h s.unsynced_log_store [] ∙ omega arith,
    tally-AreHeld i p s.unsynced_log_store [] s.unsynced_log_store [] refl tt,
  )

  -- A vote that is repeated counts once: to record it again changes nothing.
  pub set_accepted_map-again :
      (s : LeaderState T S) (idx pid : ℕ) (h p : DomHash) (is_fast : Bool)
      → set_accepted_map (set_accepted_map s idx h p pid is_fast) idx h p pid is_fast
        ≡ set_accepted_map s idx h p pid is_fast
  unfolding set_accepted_map
  set_accepted_map-again s idx pid h p is_fast =
      let a = get_or_else (Assoc.get idx s.accepted_map) (new_map_entry h p) in
      let a' = record_vote a h p pid is_fast in
      let found = Assoc.get-insert_self idx a' s.accepted_map in
      rw (found, record_vote_again a h p pid is_fast, Assoc.insert-insert idx a' a' s.accepted_map)
        refl

  -- After a decision no vote up to the decided index is left, and all later ones are as before.
  get_accepted_map-prune :
      (s : LeaderState T S) (d j : ℕ)
      → get_accepted_map (prune_accepted_map s d) j
        ≡ (if ltb d j then get_accepted_map s j else none)
  unfolding get_accepted_map prune_accepted_map
  get_accepted_map-prune s d j = get-prune d j s.accepted_map
