-- ===== src/Paxos/Leader/Recover/Complete.antt =====
-- That the recovery finds what has enough votes.
use ca_op.Prelude.{
  leb, if◌then◌else◌, Bool-cases, All, ℕ, ◌+◌, ◌≤◌, ◌<◌, ◌≡◌, refl, ap, subst, ◌≢◌, inl, inr, true,
  false, Option, none, some, List, [], ◌∷◌, arith,
}
use ca_op.Prelude.Assoc.{contains}
use ca_op.Messages.Paxos.{
  entry_id_key, DomHash, hash_eq, hash_eq_iff, EntryId, UnsyncedLogEntry, UnsyncedLog,
}
use ca_op.LeaderState.Fast.{Tally, add_vote, matched, vote, tally, get_matched_unsynced_entries}
use ca_op.LeaderState.Votes.{tallied, get_matched_unsynced_entries-count, IsHeld}
use ca_op.Paxos.Leader.Recover.{Recovery, winners, next_winner}
use ca_op.Paxos.Leader.Recover.Rounds.{store}
use ca_op.Paxos.Leader.Recover.Winners.{votes_for, winners-All}

module _ {ℓ} {T : Type ℓ} where
  -- No count of the tally is for the hash.
  abbrev IsAbsent : DomHash → Tally T → Type 0
  IsAbsent h t = All (λ c. hash_eq c.0 h ≡ false) t

  -- Each hash has one count.
  abbrev IsTally : Tally T → Type 0
  IsTally [] = Unit
  IsTally ((h, v) ∷ t) = IsAbsent h t × IsTally t

  tallied_absent : (h : DomHash) (t : Tally T) → IsAbsent h t → tallied h t ≡ 0
  unfolding tallied
  tallied_absent h [] a = refl
  tallied_absent h ((g, (n, id, x)) ∷ t) a = rw a.0 (tallied_absent h t a.1)

  add_vote-IsAbsent :
      (h : DomHash) (e : UnsyncedLogEntry T) (t : Tally T)
      → hash_eq e.entry_hash h ≡ false
      → IsAbsent h t
      → IsAbsent h (add_vote e t)
  unfolding add_vote
  add_vote-IsAbsent h e [] other a = (other, tt)
  add_vote-IsAbsent h e ((g, (n, id, x)) ∷ t) other a = elim (Bool-cases (hash_eq g e.entry_hash)) [
    | inl same ↦ rw same a
    | inr differs ↦ rw differs (a.0, add_vote-IsAbsent h e t other a.1)
  ]

  add_vote-IsTally : (e : UnsyncedLogEntry T) (t : Tally T) → IsTally t → IsTally (add_vote e t)
  unfolding add_vote
  add_vote-IsTally e [] a = (tt, tt)
  add_vote-IsTally e ((g, (n, id, x)) ∷ t) a = elim (Bool-cases (hash_eq g e.entry_hash)) [
    | inl same ↦ rw same a
    | inr differs ↦ rw differs (
      add_vote-IsAbsent g e t
          (ground (arith, hash_eq_iff g e.entry_hash, hash_eq_iff e.entry_hash g)) a.0,
      add_vote-IsTally e t a.1,
    )
  ]

  vote-IsTally : (o : Option (UnsyncedLogEntry T)) (t : Tally T) → IsTally t → IsTally (vote o t)
  vote-IsTally none t a = a
  vote-IsTally (some e) t a = add_vote-IsTally e t a

  tally-IsTally :
      (i : ℕ) (p : DomHash) (logs : List (UnsyncedLog T)) (t : Tally T)
      → IsTally t
      → IsTally (tally i p logs t)
  unfolding tally
  tally-IsTally i p [] t a = a
  tally-IsTally i p (log ∷ logs) t a =
      tally-IsTally i p logs (vote (matched i p log) t) (vote-IsTally (matched i p log) t a)

  -- Behind an entry of a tally, the others have the counts of the whole.
  below_rest :
      (threshold : ℕ) (g h : DomHash) (v : ℕ × EntryId × T) (t : Tally T)
      → 1 ≤ threshold
      → IsAbsent g t
      → ((k : DomHash) → k ≢ h → tallied k ((g, v) ∷ t) < threshold)
      → (k : DomHash) → k ≢ h
      → tallied k t < threshold
  unfolding tallied
  below_rest threshold g h v t pos a below k other = elim (Bool-cases (hash_eq g k)) [
    | inl same ↦
        subst (λ j. tallied j t < threshold) ((hash_eq_iff g k).0 same)
          (rw (tallied_absent g t a) (omega arith))
    | inr differs ↦ let b = below k other in rw differs at b
  ]

  winners_none :
      (threshold : ℕ) (h : DomHash) (t : Tally T)
      → 1 ≤ threshold
      → IsTally t
      → IsAbsent h t
      → ((k : DomHash) → k ≢ h → tallied k t < threshold)
      → winners threshold t ≡ []
  unfolding winners tallied
  winners_none threshold h [] pos a away below = refl
  winners_none threshold h ((g, (n, id, x)) ∷ t) pos a away below =
      let few : leb threshold n ≡ false =
        ground (arith, below g (λ e. absurd (ground (arith, hash_eq_iff g h))), hash_eq_iff g g) in
      rw few (
        winners_none threshold h t pos a.1 away.1
          (below_rest threshold g h (n, id, x) t pos a.0 below))

  winners_sole :
      (threshold : ℕ) (h : DomHash) (t : Tally T)
      → 1 ≤ threshold
      → IsTally t
      → threshold ≤ tallied h t
      → ((k : DomHash) → k ≢ h → tallied k t < threshold)
      → (id : EntryId) × (e : T) × (winners threshold t ≡ (h, id, e) ∷ [])
  unfolding winners tallied
  winners_sole threshold h [] pos a enough below = absurd (omega arith)
  winners_sole threshold h ((g, (n, id, x)) ∷ t) pos a enough below =
      elim (Bool-cases (hash_eq g h)) [
        | inl same ↦
            let same' = (hash_eq_iff g h).0 same in
            let many : leb threshold n ≡ true = ground arith in
            (
              id,
              x,
              rw
                  (
                    many,
                    winners_none threshold h t pos a.1 (subst (λ k. IsAbsent k t) same' a.0)
                        (below_rest threshold g h (n, id, x) t pos a.0 below),
                  )
                  (ap (λ k. (k, id, x) ∷ []) same'),
            )
        | inr differs ↦
            let few : leb threshold n ≡ false =
              ground
                (arith, below g (λ e. absurd (ground (arith, hash_eq_iff g h))), hash_eq_iff g g) in
            let (id', e, found) =
              winners_sole threshold h t pos a.1 (rw differs at enough)
                (below_rest threshold g h (n, id, x) t pos a.0 below) in
            (id', e, rw few found)
      ]

module _ {ℓ} {T S : Type ℓ} where
  -- If one entry has enough votes at the next index, after the hash of the log, and no other one
  -- has, then the recovery takes an entry of that hash that a log holds there, unless its request has
  -- been recovered before.
  pub next_winner-finds :
      (threshold : ℕ) (r : Recovery T S) (h : DomHash)
      → 1 ≤ threshold
      → threshold ≤ votes_for h (r.new_accepted_idx + 1) r.expected_prev_hash (store r)
      → ((g : DomHash)
          → g ≢ h
          → votes_for g (r.new_accepted_idx + 1) r.expected_prev_hash (store r) < threshold)
      → (id : EntryId) × (e : T) × IsHeld
          (r.new_accepted_idx + 1)
          r.expected_prev_hash
          h
          id
          e
          (store r)
        × (next_winner threshold r
            ≡ (if contains id r.recovered_entry_ids then none else some (h, id, e)))
  unfolding next_winner get_matched_unsynced_entries votes_for
  next_winner-finds threshold r h pos enough below =
      let i = r.new_accepted_idx + 1 in
      let t = tally i r.expected_prev_hash (store r) [] in
      let votes : (g : DomHash) → tallied g t ≡ votes_for g i r.expected_prev_hash (store r) =
        λ g. (get_matched_unsynced_entries-count r.leader_state i r.expected_prev_hash g).0 in
      let (id, e, found) =
        winners_sole threshold h t pos (tally-IsTally i r.expected_prev_hash (store r) [] tt)
          (omega (arith, votes h)) (λ g other. omega (arith, votes g, below g other)) in
      let held =
        winners-All (λ (g, k, x). IsHeld i r.expected_prev_hash g k x (store r)) threshold t
          (h, id, e) [] found
          (get_matched_unsynced_entries-count r.leader_state i r.expected_prev_hash h).1 in
      (id, e, held, rw found refl)
