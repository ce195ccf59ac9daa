-- ===== src/Paxos/Leader/Recover/Rounds.antt =====
-- The rounds of the recovery: that the loop ends, and what it recovers.
use ca_op.Prelude.{
  ltb, ◌==◌, if◌then◌else◌, Bool-cases, Option-cases, is_some, length, any, count, count-le, ℕ,
  zero, suc, ◌+◌, ◌≤◌, ◌<◌, ◌≡◌, refl, sym, ap, subst, ◌∙◌, inl, inr, Bool, true, false, Option,
  none, some, List, [], ◌∷◌, ◌++◌, map, append-nil, append_assoc, arith,
}
use ca_op.Prelude.Assoc
use ca_op.Prelude.Assoc.{nat_eq, contains, insert_set}
use ca_op.Messages.Paxos.{entry_id_key, DomHash, hash_eq, UnsyncedLogEntry, UnsyncedLog}
use ca_op.Storage.Internal.{append_entries_without_batching}
use ca_op.Storage.Memory.{append_entries}
use ca_op.LeaderState.Accept.{insert_recovered_remote_entry_id}
use ca_op.LeaderState.Fast.{Tally, matched, tally, get_matched_unsynced_entries}
use ca_op.Paxos.Leader.Recover.{
  Recovery, Winner, winners, has_entry_id, entries_in, next_winner, recover_entry, recover_loop,
}

module _ {ℓ} {T : Type ℓ} where
  abbrev has_key : ℕ → UnsyncedLog T → Bool
  has_key k log = is_some (Assoc.get k log)

  -- The entries above an index.
  unfoldable pub above : ℕ → List (UnsyncedLog T) → ℕ
  above k [] = 0
  above k (log ∷ logs) = count (λ (i, e). ltb k i) log + above k logs

  count-above_le :
      (k : ℕ) (log : UnsyncedLog T)
      → count (λ (i, e). ltb (k + 1) i) log ≤ count (λ (i, e). ltb k i) log
  count-above_le k [] = omega arith
  count-above_le k ((i, e) ∷ log) = ground (arith, count-above_le k log)

  count-above_lt :
      (k : ℕ) (log : UnsyncedLog T)
      → has_key (k + 1) log ≡ true
      → count (λ (i, e). ltb (k + 1) i) log < count (λ (i, e). ltb k i) log
  unfolding Assoc.get
  count-above_lt k [] h = absurd (ground arith)
  count-above_lt k ((i, e) ∷ log) h = elim (Bool-cases (i == (k + 1))) [
    | inl here ↦ ground (arith, count-above_le k log)
    | inr there ↦ ground (
      arith,
      count-above_lt k log
          (subst (λ b. is_some (if b then some e else Assoc.get (k + 1) log) ≡ true) there h),
    )
  ]

  above_le : (k : ℕ) (logs : List (UnsyncedLog T)) → above (k + 1) logs ≤ above k logs
  unfolding above
  above_le k [] = omega arith
  above_le k (log ∷ logs) = omega (arith, count-above_le k log, above_le k logs)

  above_lt :
      (k : ℕ) (logs : List (UnsyncedLog T))
      → any (has_key (k + 1)) logs ≡ true
      → above (k + 1) logs < above k logs
  unfolding above
  above_lt k [] h = absurd (ground arith)
  above_lt k (log ∷ logs) h = elim (Bool-cases (has_key (k + 1) log)) [
    | inl here ↦ omega (arith, count-above_lt k log here, above_le k logs)
    | inr there ↦ omega (arith, count-above_le k log, above_lt k logs (ground arith))
  ]

  pub above-le-entries_in : (k : ℕ) (logs : List (UnsyncedLog T)) → above k logs ≤ entries_in logs
  unfolding above entries_in
  above-le-entries_in k [] = omega arith
  above-le-entries_in k (log ∷ logs) =
      omega (arith, count-le (λ (i, e). ltb k i) log, above-le-entries_in k logs)

  matched_absent :
      (i : ℕ) (p : DomHash) (log : UnsyncedLog T) → has_key i log ≡ false → matched i p log ≡ none
  unfolding matched
  matched_absent i p log h = go (Assoc.get i log) h
    where
      go :
          (o : Option (UnsyncedLogEntry T))
          → is_some o ≡ false
          → elim o [ none ↦ none | some e ↦ if hash_eq e.prefix_hash p then some e else none ]
            ≡ none
      go none h = refl
      go (some e) h = absurd (ground arith)

  -- Without an entry at the index there is nothing to tally.
  tally_absent :
      (i : ℕ) (p : DomHash) (logs : List (UnsyncedLog T)) (t : Tally T)
      → any (has_key i) logs ≡ false
      → tally i p logs t ≡ t
  unfolding tally
  tally_absent i p [] t h = refl
  tally_absent i p (log ∷ logs) t h =
      rw (matched_absent i p log (ground arith)) (tally_absent i p logs t (ground arith))

module _ {ℓ} {T S : Type ℓ} where
  -- The logs of the recovery.
  abbrev pub store : Recovery T S → List (UnsyncedLog T)
  store r = r.leader_state.unsynced_log_store

  next_winner_absent :
      (threshold : ℕ) (r : Recovery T S)
      → any (has_key (r.new_accepted_idx + 1)) (store r) ≡ false
      → next_winner threshold r ≡ none
  unfolding next_winner get_matched_unsynced_entries winners
  next_winner_absent threshold r h =
      rw (tally_absent (r.new_accepted_idx + 1) r.expected_prev_hash (store r) [] h) refl

  pub recover_entry_frame :
      (own : UnsyncedLog T) (r : Recovery T S) (w : Winner T)
      → (store (recover_entry own r w) ≡ store r)
        × ((recover_entry own r w).new_accepted_idx ≡ r.storage.cache.accepted_idx + 1)
        × ((recover_entry own r w).storage.cache.accepted_idx ≡ r.storage.cache.accepted_idx + 1)
        × ((recover_entry own r w).storage.storage.log ≡ r.storage.storage.log ++ w.2 ∷ [])
  unfolding recover_entry append_entries_without_batching insert_recovered_remote_entry_id
      append_entries
  recover_entry_frame own r (h, id, e) = elim (Bool-cases (has_entry_id own id)) [
    | inl mine ↦ rw mine (refl, refl, refl, refl)
    | inr other ↦ rw other (refl, refl, refl, refl)
  ]

  -- The rounds of the recovery, by their winners; the last one finds none.
  abbrev pub Rounds : ℕ → UnsyncedLog T → Recovery T S → List (Winner T) → Recovery T S → Type ℓ
  Rounds threshold own r [] r' = (next_winner threshold r ≡ none) × (r' ≡ r)
  Rounds threshold own r (w ∷ ws) r' =
      (next_winner threshold r ≡ some w) × Rounds threshold own (recover_entry own r w) ws r'

  next_winner-present :
      (threshold : ℕ) (r : Recovery T S) (w : Winner T)
      → next_winner threshold r ≡ some w
      → any (has_key (r.new_accepted_idx + 1)) (store r) ≡ true
  next_winner-present threshold r w e =
      elim (Bool-cases (any (has_key (r.new_accepted_idx + 1)) (store r))) [
        | inl here ↦ here
        | inr absent ↦ absurd (ground (arith, next_winner_absent threshold r absent))
      ]

  recover_entry-above :
      (fuel threshold : ℕ) (own : UnsyncedLog T) (r : Recovery T S) (w : Winner T)
      → r.new_accepted_idx ≡ r.storage.cache.accepted_idx
      → above r.new_accepted_idx (store r) ≤ suc fuel
      → next_winner threshold r ≡ some w
      → above (recover_entry own r w).new_accepted_idx (store (recover_entry own r w)) ≤ fuel
  recover_entry-above fuel threshold own r w at enough e =
      let (logs, idx, _, _) = recover_entry_frame own r w in
      rw (logs, idx, ← at)
        (omega (arith, above_lt r.new_accepted_idx (store r) (next_winner-present threshold r w e)))

  -- With a round of fuel for each entry above the accepted index, the loop stops by itself.
  pub recover_loop-Rounds :
      (fuel threshold : ℕ) (own : UnsyncedLog T) (r : Recovery T S)
      → r.new_accepted_idx ≡ r.storage.cache.accepted_idx
      → above r.new_accepted_idx (store r) ≤ fuel
      → (ws : List (Winner T)) × Rounds threshold own r ws (recover_loop fuel threshold own r)
  unfolding recover_loop
  recover_loop-Rounds zero threshold own r at enough =
      elim (Option-cases (next_winner threshold r)) [
        | inl e ↦ ([], (e, refl))
        | inr (w, e) ↦ absurd (
            omega
              (arith, above_lt r.new_accepted_idx (store r) (next_winner-present threshold r w e)))
      ]
  recover_loop-Rounds (suc fuel) threshold own r at enough =
      elim (Option-cases (next_winner threshold r)) [
        | inl e ↦ ([], (e, rw (e, recover_loop) refl))
        | inr (w, e) ↦
            let (logs, idx, cached, _) = recover_entry_frame own r w in
            let (ws, rounds) =
              recover_loop-Rounds fuel threshold own (recover_entry own r w) (idx ∙ sym cached)
                (recover_entry-above fuel threshold own r w at enough e) in
            (w ∷ ws, (e, rw (e, recover_loop) rounds))
      ]

  -- What the rounds have appended.
  pub Rounds-log :
      (threshold : ℕ) (own : UnsyncedLog T) (r : Recovery T S) (ws : List (Winner T))
      (r' : Recovery T S)
      → r.new_accepted_idx ≡ r.storage.cache.accepted_idx
      → Rounds threshold own r ws r'
      → (r'.storage.storage.log ≡ r.storage.storage.log ++ map (λ w. w.2) ws)
        × (r'.new_accepted_idx ≡ r.new_accepted_idx + length ws)
        × (r'.storage.cache.accepted_idx ≡ r'.new_accepted_idx)
  Rounds-log threshold own r [] r' at (e, same) =
      rw same (sym (append-nil r.storage.storage.log), omega arith, sym at)
  Rounds-log threshold own r (w ∷ ws) r' at (e, rounds) =
      let (logs, idx, cached, log) = recover_entry_frame own r w in
      let (log', idx', at') =
        Rounds-log threshold own (recover_entry own r w) ws r' (idx ∙ sym cached) rounds in
      (
        log'
            ∙ ap (λ l. l ++ map (λ w. w.2) ws) log
            ∙ append_assoc r.storage.storage.log (w.2 ∷ []) (map (λ w. w.2) ws),
        omega arith,
        at',
      )
