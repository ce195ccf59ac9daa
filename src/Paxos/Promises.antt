-- ===== src/Paxos/Promises.antt =====
-- The promise of a follower and the guards of its handlers
-- (lib/omnipaxos/src/sequence_paxos/follower.rs).
use ca_op.Prelude.{
  ltb, leb, ◌==◌, if◌then◌else◌, Bool-cases, ℕ, ◌≤◌, min, max, Ordering, ◌≡◌, refl, ◌∙◌, inl, inr,
  Bool, true, false, ◌&&◌, arith,
}
use ca_op.Ballot.{Ballot, cmp}
use ca_op.Clocks.{
  MessageStatus, expected, dropped_preceding, outdated, SequenceNumber, check_msg_status,
}
use ca_op.Messages.{Role, Phase}
use ca_op.Messages.Paxos.{not_accepted}
use ca_op.Storage.Cache.{StateCache, take_batched_entries}
use ca_op.Storage.Internal
use ca_op.Storage.Internal.{InternalStorage}
use ca_op.Paxos.{SequencePaxos, send, reconnected, check_valid_ballot, handle_sequence_num}
use ca_op.Paxos.Follower.{update_decided_idx_and_get_accepted_idx}
use ca_op.Paxos.Follower.Replies.{is_expected, guard}

-- From `c` the decided index went as far towards `d` as entries are accepted, and not back.
abbrev pub Decides {ℓ} : {T : Type ℓ} → ℕ → StateCache T → StateCache T → Type 0
Decides d c c' =
    (c'.decided_idx ≤ c'.accepted_idx)
    × (c'.decided_idx ≡ max c.decided_idx (min d c'.accepted_idx))
    × (c.accepted_idx ≤ c'.accepted_idx)
    × (c'.promise ≡ c.promise)

module _ {ℓ} {F : Type 0} {T S : Type ℓ} where
  reconnected-storage :
      (s : SequencePaxos F T S) (pid : ℕ)
      → (reconnected s pid).internal_storage ≡ s.internal_storage
  unfolding reconnected send
  reconnected-storage s pid = elim (Bool-cases (pid == s.pid)) [
    | inl own ↦ rw own refl
    | inr other ↦ elim (Bool-cases (pid == s.internal_storage.cache.promise.pid)) [
      | inl led ↦ rw (other, led) refl
      | inr peer ↦ rw (other, peer) refl
    ]
  ]

  -- `check_valid_ballot` as a function of the comparison.
  abbrev checked : SequencePaxos F T S → Ballot → Ordering → SequencePaxos F T S × Bool
  checked s n Ordering.eq = (s, true)
  checked s n Ordering.gt =
      (send s n.pid (not_accepted (record { n = s.internal_storage.cache.promise })), false)
  checked s n Ordering.lt = (reconnected s n.pid, false)

  checked-storage :
      (s : SequencePaxos F T S) (n : Ballot) (o : Ordering)
      → (checked s n o).0.internal_storage ≡ s.internal_storage
  unfolding send
  checked-storage s n Ordering.eq = refl
  checked-storage s n Ordering.gt = refl
  checked-storage s n Ordering.lt = reconnected-storage s n.pid

  check_valid_ballot-storage :
      (s : SequencePaxos F T S) (n : Ballot)
      → (check_valid_ballot s n).0.internal_storage ≡ s.internal_storage
  unfolding check_valid_ballot
  check_valid_ballot-storage s n = checked-storage s n (cmp s.internal_storage.cache.promise n)

  abbrev numbered :
      SequencePaxos F T S → SequenceNumber → ℕ → MessageStatus → SequencePaxos F T S × MessageStatus
  numbered s m from expected = (record s { current_seq_num = m }, expected)
  numbered s m from dropped_preceding = (reconnected s from, dropped_preceding)
  numbered s m from outdated = (s, outdated)

  numbered-storage :
      (s : SequencePaxos F T S) (m : SequenceNumber) (from : ℕ) (status : MessageStatus)
      → (numbered s m from status).0.internal_storage ≡ s.internal_storage
  numbered-storage s m from expected = refl
  numbered-storage s m from dropped_preceding = reconnected-storage s from
  numbered-storage s m from outdated = refl

  handle_sequence_num-storage :
      (s : SequencePaxos F T S) (m : SequenceNumber) (from : ℕ)
      → (handle_sequence_num s m from).0.internal_storage ≡ s.internal_storage
  unfolding handle_sequence_num
  handle_sequence_num-storage s m from =
      numbered-storage s m from (check_msg_status s.current_seq_num m)

  pub guard-storage :
      (s : SequencePaxos F T S) (n : Ballot) (m : SequenceNumber) (p : Role × Phase → Bool)
      → (guard s n m p).0.internal_storage ≡ s.internal_storage
  unfolding guard
  guard-storage s n m p =
      elim (Bool-cases ((check_valid_ballot s n).1 && p (check_valid_ballot s n).0.state)) [
        | inl runs ↦ rw runs (
            handle_sequence_num-storage (check_valid_ballot s n).0 m n.pid
            ∙ check_valid_ballot-storage s n)
        | inr refused ↦ rw refused (check_valid_ballot-storage s n)
      ]

  -- Decided entries are accepted, and the decided index does not fall: an update to an announced
  -- index makes it the larger of the old one and the announced one, as far as entries are accepted
  -- when the batch is flushed for it. The promise stays.
  pub update_decided_idx-Decides :
      (s : SequencePaxos F T S) (d : ℕ)
      → s.internal_storage.cache.decided_idx ≤ s.internal_storage.cache.accepted_idx
      → Decides d s.internal_storage.cache
          (update_decided_idx_and_get_accepted_idx s d).0.internal_storage.cache
  unfolding update_decided_idx_and_get_accepted_idx Internal.flush_batch Internal.set_decided_idx
      Internal.append_entries_without_batching take_batched_entries
  update_decided_idx-Decides s d h =
      elim (Bool-cases (leb d s.internal_storage.cache.decided_idx)) [
        | inl old ↦
            rw (update_decided_idx_and_get_accepted_idx, old)
              (omega arith, ground arith, omega arith, refl)
        | inr new ↦ elim (Bool-cases (ltb s.internal_storage.cache.accepted_idx d)) [
          | inl beyond ↦
              rw (update_decided_idx_and_get_accepted_idx, new, beyond)
                (omega arith, ground arith, omega arith, refl)
          | inr within ↦
              rw (update_decided_idx_and_get_accepted_idx, new, within)
                (ground arith, ground arith, omega arith, refl)
        ]
      ]

  -- What the guard lets through: the ballot is the promised one, the state fits and the number is
  -- the next one, which is then the current one.
  abbrev pub IsLetThrough :
      SequencePaxos F T S
      → Ballot
      → SequenceNumber
      → (Role × Phase → Bool)
      → SequencePaxos F T S
      → Type ℓ
  IsLetThrough s n m p s' =
      (cmp s.internal_storage.cache.promise n ≡ Ordering.eq)
      × (check_msg_status s.current_seq_num m ≡ expected)
      × (p s.state ≡ true)
      × (s' ≡ record s { current_seq_num = m })

  -- `guard` after the check of the ballot.
  abbrev guarded :
      SequenceNumber
      → ℕ
      → (Role × Phase → Bool)
      → SequencePaxos F T S × Bool
      → SequencePaxos F T S × Bool
  guarded m from p (s', is_valid) =
      if is_valid && p s'.state
      then ((handle_sequence_num s' m from).0, is_expected (handle_sequence_num s' m from).1)
      else (s', false)

  numbered_expected :
      (s : SequencePaxos F T S) (m : SequenceNumber) (from : ℕ) (status : MessageStatus)
      → is_expected (numbered s m from status).1 ≡ true
      → (status ≡ expected) × ((numbered s m from status).0 ≡ record s { current_seq_num = m })
  numbered_expected s m from expected h = (refl, refl)
  numbered_expected s m from dropped_preceding h = absurd (ground arith)
  numbered_expected s m from outdated h = absurd (ground arith)

  guarded-IsLetThrough :
      (s : SequencePaxos F T S) (n : Ballot) (m : SequenceNumber) (p : Role × Phase → Bool)
      (o : Ordering)
      → cmp s.internal_storage.cache.promise n ≡ o
      → (guarded m n.pid p (checked s n o)).1 ≡ true
      → IsLetThrough s n m p (guarded m n.pid p (checked s n o)).0
  unfolding handle_sequence_num
  guarded-IsLetThrough s n m p Ordering.gt e h = absurd (ground arith)
  guarded-IsLetThrough s n m p Ordering.lt e h = absurd (ground arith)
  guarded-IsLetThrough s n m p Ordering.eq e h = elim (Bool-cases (p s.state)) [
    | inl fits ↦
        let (next, same) =
          numbered_expected s m n.pid (check_msg_status s.current_seq_num m) (rw fits at h) in
        rw fits (e, next, refl, same)
    | inr unfit ↦ absurd (ground (arith, rw unfit at h))
  ]

  pub guard-IsLetThrough :
      (s : SequencePaxos F T S) (n : Ballot) (m : SequenceNumber) (p : Role × Phase → Bool)
      → (guard s n m p).1 ≡ true
      → IsLetThrough s n m p (guard s n m p).0
  unfolding guard check_valid_ballot
  guard-IsLetThrough s n m p h =
      guarded-IsLetThrough s n m p (cmp s.internal_storage.cache.promise n) refl h
