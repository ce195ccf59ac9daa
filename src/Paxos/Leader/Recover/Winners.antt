-- ===== src/Paxos/Leader/Recover/Winners.antt =====
-- What the recovery appends, and the votes behind it.
use ca_op.Prelude.{
  leb, if◌then◌else◌, Bool-cases, length, count, All, ℕ, ◌+◌, ◌≤◌, ◌≡◌, refl, sym, ap, subst, ◌∙◌,
  inl, inr, false, Option, none, some, List, [], ◌∷◌, ◌++◌, map, arith,
}
use ca_op.Prelude.Assoc.{contains, insert_set}
use ca_op.Messages.Paxos.{
  entry_id_key, DomHash, extend_hash, hash_eq, hash_eq_iff, EntryId, UnsyncedLogEntry, UnsyncedLog,
}
use ca_op.LeaderState.Fast.{Tally, add_vote, matched, vote, tally, get_matched_unsynced_entries}
use ca_op.LeaderState.Votes.{
  votes_hash, votes_at, votes_hash-matched, get_matched_unsynced_entries-count, IsHeld,
}
use ca_op.Paxos.Leader.Recover.{
  Recovery, Winner, winners, sole, unless_recovered, entries_in, next_winner, recover_entry,
  recover_loop, run_recovery,
}
use ca_op.Paxos.Leader.Recover.Rounds.{
  above-le-entries_in, store, recover_entry_frame, Rounds, recover_loop-Rounds, Rounds-log,
}

module _ {ℓ} {T : Type ℓ} where
  -- The logs that have an entry of the hash at the index, after the prefix.
  unfoldable pub votes_for : DomHash → ℕ → DomHash → List (UnsyncedLog T) → ℕ
  votes_for h i p logs = count (votes_at i p h) logs

  -- Each entry is one of the logs' at its index, after the prefix with the entries before it, and its
  -- hash has the votes there.
  abbrev pub AreVoted : ℕ → List (UnsyncedLog T) → ℕ → DomHash → List (Winner T) → Type ℓ
  AreVoted threshold logs i p [] = Unit
  AreVoted threshold logs i p ((h, id, e) ∷ ws) =
      (threshold ≤ votes_for h i p logs)
      × IsHeld i p h id e logs
      × AreVoted threshold logs (i + 1) (extend_hash p h) ws

  -- No count of a tally is above the bound for its hash.
  abbrev AreAtMost : (DomHash → ℕ) → Tally T → Type 0
  AreAtMost f t = All (λ c. c.1.0 ≤ f c.0) t

  AreAtMost-le :
      (f g : DomHash → ℕ) (t : Tally T)
      → ((h : DomHash) → f h ≤ g h)
      → AreAtMost f t
      → AreAtMost g t
  AreAtMost-le f g [] le a = tt
  AreAtMost-le f g ((h, (n, id, e)) ∷ t) le a = (omega (arith, le h), AreAtMost-le f g t le a.1)

  add_vote-AreAtMost :
      (f g : DomHash → ℕ) (e : UnsyncedLogEntry T) (t : Tally T)
      → ((h : DomHash) → f h ≤ g h)
      → f e.entry_hash + 1 ≤ g e.entry_hash
      → AreAtMost f t
      → AreAtMost g (add_vote e t)
  unfolding add_vote
  add_vote-AreAtMost f g e [] le more a = (omega arith, tt)
  add_vote-AreAtMost f g e ((h, (n, id, x)) ∷ t) le more a =
      elim (Bool-cases (hash_eq h e.entry_hash)) [
        | inl same ↦
            let same' = (hash_eq_iff h e.entry_hash).0 same in
            rw same (
              subst (λ k. (n + 1) ≤ g k) (sym same')
                  (omega (arith, subst (λ k. n ≤ f k) same' a.0)),
              AreAtMost-le f g t le a.1,
            )
        | inr other ↦ rw other (omega (arith, le h), add_vote-AreAtMost f g e t le more a.1)
      ]

  vote-AreAtMost :
      (f : DomHash → ℕ) (o : Option (UnsyncedLogEntry T)) (t : Tally T)
      → AreAtMost f t
      → AreAtMost (λ h. f h + (if votes_hash h o then 1 else 0)) (vote o t)
  vote-AreAtMost f none t a = AreAtMost-le f _ t (λ h. omega arith) a
  vote-AreAtMost f (some e) t a =
      add_vote-AreAtMost f _ e t (λ h. ground arith)
        (ground (arith, hash_eq_iff e.entry_hash e.entry_hash)) a

  tally-AreAtMost :
      (f : DomHash → ℕ) (i : ℕ) (p : DomHash) (logs : List (UnsyncedLog T)) (t : Tally T)
      → AreAtMost f t
      → AreAtMost (λ h. f h + votes_for h i p logs) (tally i p logs t)
  unfolding tally votes_for
  tally-AreAtMost f i p [] t a = AreAtMost-le f _ t (λ h. omega arith) a
  tally-AreAtMost f i p (log ∷ logs) t a =
      AreAtMost-le
        (λ h. f h + (if votes_hash h (matched i p log) then 1 else 0) + votes_for h i p logs)
        (λ h. f h + votes_for h i p (log ∷ logs)) (tally i p logs (vote (matched i p log) t))
        (λ h. ground (arith, votes_hash-matched i p h log))
        (tally-AreAtMost (λ h. f h + (if votes_hash h (matched i p log) then 1 else 0)) i p logs
          (vote (matched i p log) t) (vote-AreAtMost f (matched i p log) t a))

  head_eq : {v w : Winner T} {vs ws : List (Winner T)} → v ∷ vs ≡ w ∷ ws → v ≡ w
  head_eq {v} e = ap (λ l. elim l [ [] ↦ v | x ∷ xs ↦ x ]) e

  some_eq : {v w : Winner T} → some v ≡ some w → v ≡ w
  some_eq {v} e = ap (λ o. elim o [ none ↦ v | some x ↦ x ]) e

  winners-first :
      (threshold : ℕ) (f : DomHash → ℕ) (t : Tally T) (w : Winner T) (ws : List (Winner T))
      → winners threshold t ≡ w ∷ ws
      → AreAtMost f t
      → threshold ≤ f w.0
  unfolding winners
  winners-first threshold f [] w ws e a = absurd (ground arith)
  winners-first threshold f ((h, (n, id, x)) ∷ t) w ws e a = elim (Bool-cases (leb threshold n)) [
    | inl enough ↦ subst (λ v. threshold ≤ f v.0) (head_eq (rw enough at e)) (ground arith)
    | inr few ↦ winners-first threshold f t w ws (rw few at e) a.1
  ]

  -- What holds of all entries of a tally, holds of a winner.
  pub winners-All {κ} :
      (P : Winner T → Type κ) (threshold : ℕ) (t : Tally T) (w : Winner T) (ws : List (Winner T))
      → winners threshold t ≡ w ∷ ws
      → All (λ c. P (c.0, c.1.1, c.1.2)) t
      → P w
  unfolding winners
  winners-All P threshold [] w ws e a = absurd (ground arith)
  winners-All P threshold ((h, (n, id, x)) ∷ t) w ws e a = elim (Bool-cases (leb threshold n)) [
    | inl enough ↦ subst P (head_eq (rw enough at e)) a.0
    | inr few ↦ winners-All P threshold t w ws (rw few at e) a.1
  ]

  sole-inv :
      (ws : List (Winner T)) (ids : List EntryId) (h : DomHash) (id : EntryId) (e : T)
      → unless_recovered ids (sole ws) ≡ some (h, id, e)
      → (ws ≡ (h, id, e) ∷ []) × (contains id ids ≡ false)
  sole-inv [] ids h id e eq = absurd (ground arith)
  sole-inv ((h', id', e') ∷ []) ids h id e eq = elim (Bool-cases (contains id' ids)) [
    | inl again ↦ absurd (ground (arith, rw again at eq))
    | inr fresh ↦
        let same = some_eq (rw fresh at eq) in
        (ap (λ w. w ∷ []) same, subst (λ w. contains w.1 ids ≡ false) same fresh)
  ]
  sole-inv (w ∷ w' ∷ ws) ids h id e eq = absurd (ground arith)

  -- Each request stands once in the list, and is none of the ids.
  abbrev pub AreOnce : List EntryId → List (Winner T) → Type 0
  AreOnce ids [] = Unit
  AreOnce ids ((h, id, e) ∷ ws) = (contains id ids ≡ false) × AreOnce (insert_set id ids) ws

  -- The hash of a log with the entries behind it.
  abbrev pub chain : DomHash → List (Winner T) → DomHash
  chain p [] = p
  chain p ((h, id, e) ∷ ws) = chain (extend_hash p h) ws

module _ {ℓ} {T S : Type ℓ} where
  recover_entry_hashes :
      (own : UnsyncedLog T) (r : Recovery T S) (w : Winner T)
      → ((recover_entry own r w).expected_prev_hash ≡ extend_hash r.expected_prev_hash w.0)
        × ((recover_entry own r w).recovered_entry_ids ≡ insert_set w.1 r.recovered_entry_ids)
  unfolding recover_entry
  recover_entry_hashes own r (h, id, e) = (refl, refl)

  next_winner-voted :
      (threshold : ℕ) (r : Recovery T S) (w : Winner T)
      → next_winner threshold r ≡ some w
      → (threshold ≤ votes_for w.0 (r.new_accepted_idx + 1) r.expected_prev_hash (store r))
        × IsHeld (r.new_accepted_idx + 1) r.expected_prev_hash w.0 w.1 w.2 (store r)
        × (contains w.1 r.recovered_entry_ids ≡ false)
  unfolding next_winner get_matched_unsynced_entries
  next_winner-voted threshold r (h, id, e) eq =
      let i = r.new_accepted_idx + 1 in
      let t = tally i r.expected_prev_hash (store r) [] in
      let (alone, fresh) = sole-inv (winners threshold t) r.recovered_entry_ids h id e eq in
      let enough =
        winners-first threshold (λ g. 0 + votes_for g i r.expected_prev_hash (store r)) t (h, id, e)
          [] alone (tally-AreAtMost (λ g. 0) i r.expected_prev_hash (store r) [] tt) in
      let held =
        winners-All (λ (g, k, x). IsHeld i r.expected_prev_hash g k x (store r)) threshold t
          (h, id, e) [] alone
          (get_matched_unsynced_entries-count r.leader_state i r.expected_prev_hash h).1 in
      (omega arith, held, fresh)

  Rounds-AreVoted :
      (threshold : ℕ) (own : UnsyncedLog T) (r : Recovery T S) (ws : List (Winner T))
      (r' : Recovery T S)
      → r.new_accepted_idx ≡ r.storage.cache.accepted_idx
      → Rounds threshold own r ws r'
      → AreVoted threshold (store r) (r.new_accepted_idx + 1) r.expected_prev_hash ws
        × AreOnce r.recovered_entry_ids ws
        × (r'.expected_prev_hash ≡ chain r.expected_prev_hash ws)
        × (next_winner threshold r' ≡ none)
  Rounds-AreVoted threshold own r [] r' at (e, same) = rw same (tt, tt, refl, e)
  Rounds-AreVoted threshold own r ((h, id, x) ∷ ws) r' at (e, rounds) =
      let w : Winner T = (h, id, x) in
      let (logs, idx, cached, _) = recover_entry_frame own r w in
      let (hash, ids) = recover_entry_hashes own r w in
      let (voted, held, fresh) = next_winner-voted threshold r w e in
      let (voted', once, chained, end) =
        Rounds-AreVoted threshold own (recover_entry own r w) ws r' (idx ∙ sym cached) rounds in
      (
        (voted, held, rw (logs, idx, hash, ← at) at voted'),
        (fresh, rw ids at once),
        chained ∙ ap (λ p. chain p ws) hash,
        end,
      )

  -- The recovery ends by itself within its fuel. Each entry that it appends is, with its id, one of an
  -- unsynced log of the promises, at its index and after the hash of what is before it, and its hash
  -- has enough votes there among these logs; no request is appended twice, and the accepted index and
  -- the hash follow the log.
  pub run_recovery-AreVoted :
      (threshold : ℕ) (own : UnsyncedLog T) (r : Recovery T S)
      → r.new_accepted_idx ≡ r.storage.cache.accepted_idx
      → let r' = run_recovery threshold own r in
        (ws : List (Winner T)) × (r'.storage.storage.log
          ≡ r.storage.storage.log ++ map (λ w. w.2) ws)
        × (r'.new_accepted_idx ≡ r.new_accepted_idx + length ws)
        × (r'.expected_prev_hash ≡ chain r.expected_prev_hash ws)
        × AreVoted threshold (store r) (r.new_accepted_idx + 1) r.expected_prev_hash ws
        × AreOnce r.recovered_entry_ids ws
        × (next_winner threshold r' ≡ none)
  unfolding run_recovery
  run_recovery-AreVoted threshold own r at =
      let fuel = entries_in (store r) in
      let (ws, rounds) =
        recover_loop-Rounds fuel threshold own r at
          (above-le-entries_in r.new_accepted_idx (store r)) in
      let r' = recover_loop fuel threshold own r in
      let (log, idx, _) = Rounds-log threshold own r ws r' at rounds in
      let (voted, once, chained, end) = Rounds-AreVoted threshold own r ws r' at rounds in
      (ws, log, idx, chained, voted, once, end)
