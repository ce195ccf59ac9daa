-- ===== src/Paxos/Leader/FastDecision.antt =====
-- When a leader decides on the fast path.
use ca_op.Prelude.{
  Bool-cases, length, All, ℕ, ◌+◌, ◌≤◌, ◌<◌, ◌≡◌, refl, ◌∙◌, inl, inr, Bool, true, false, ◌&&◌,
  Option, none, some, List, ◌++◌, map, arith,
}
use ca_op.Prelude.Assoc.{nat_eq, contains}
use ca_op.Messages.Paxos.{PaxosMessage}
use ca_op.Quorum.Intersection.{fast_quorum}
use ca_op.Storage.Internal
use ca_op.LeaderState.{AcceptedMapEntry, get_promised_followers}
use ca_op.LeaderState.Fast.{prune, get_accepted_map, prune_accepted_map}
use ca_op.Paxos.{SequencePaxos}
use ca_op.Paxos.Leader.Send.{send_decides}
use ca_op.Paxos.Leader.Decide.{
  combined_voters, has_fast_quorum, is_accepting, decide_at, may_fast_decide, voted_at,
  try_fast_decide_idx,
}
use ca_op.Paxos.Leader.Messages.{
  IsDecide, IsShaped, with_sent, followers-InRange, send_decides-SendsDecides,
}

-- The leader has accepted the entry and a fast quorum of nodes has voted for it.
abbrev pub IsVoted : ℕ → ℕ → Option AcceptedMapEntry → Type 0
IsVoted pid num_nodes none = ⊥
IsVoted pid num_nodes (some a) =
    (contains pid a.slow ≡ true) × (fast_quorum num_nodes ≤ length (combined_voters a))

module _ {ℓ} {F : Type 0} {T S : Type ℓ} where
  -- The leader may decide the index on the fast path.
  abbrev pub CanFastDecide : SequencePaxos F T S → ℕ → Type 0
  CanFastDecide s idx =
      (s.enable_fast_path ≡ true)
      × (is_accepting s ≡ true)
      × (s.internal_storage.cache.decided_idx < idx)
      × (idx ≤ s.internal_storage.cache.accepted_idx)
      × IsVoted s.pid (length s.peers + 1) (get_accepted_map s.leader_state idx)

  -- The index is decided, the votes up to it are gone, and every promised follower is told.
  abbrev pub DecidesAt : SequencePaxos F T S → ℕ → SequencePaxos F T S → Type ℓ
  DecidesAt s idx s' =
      (s'.internal_storage ≡ Internal.set_decided_idx s.internal_storage idx)
      × (s'.leader_state.accepted_map ≡ prune idx s.leader_state.accepted_map)
      × IsShaped s'.leader_state
      × ((msgs : List (PaxosMessage T S)) × (s'.outgoing ≡ s.outgoing ++ msgs)
          × (map (λ m. m.to) msgs ≡ get_promised_followers s.leader_state)
          × All (IsDecide s.leader_state.n_leader idx) msgs)

  -- What an attempt does, with its answer.
  abbrev pub FastDecides : SequencePaxos F T S → ℕ → SequencePaxos F T S × Bool → Type ℓ
  FastDecides s idx (s', true) = CanFastDecide s idx × DecidesAt s idx s'
  FastDecides s idx (s', false) = (¬ CanFastDecide s idx) × (s' ≡ s)

  voted_at-IsVoted :
      (s : SequencePaxos F T S) (o : Option AcceptedMapEntry)
      → voted_at s o ≡ true
      → IsVoted s.pid (length s.peers + 1) o
  unfolding has_fast_quorum
  voted_at-IsVoted s none e = absurd (ground arith)
  voted_at-IsVoted s (some a) e = (ground arith, ground arith)

  IsVoted-voted_at :
      (s : SequencePaxos F T S) (o : Option AcceptedMapEntry)
      → IsVoted s.pid (length s.peers + 1) o
      → voted_at s o ≡ true
  unfolding has_fast_quorum
  IsVoted-voted_at s none e = elim e [ ]
  IsVoted-voted_at s (some a) (own, enough) = ground arith

  may_fast_decide-CanFastDecide :
      (s : SequencePaxos F T S) (idx : ℕ)
      → (may_fast_decide s idx && voted_at s (get_accepted_map s.leader_state idx)) ≡ true
      → CanFastDecide s idx
  unfolding may_fast_decide
  may_fast_decide-CanFastDecide s idx e = (
    ground arith,
    ground arith,
    ground arith,
    ground arith,
    voted_at-IsVoted s (get_accepted_map s.leader_state idx) (ground arith),
  )

  CanFastDecide-may_fast_decide :
      (s : SequencePaxos F T S) (idx : ℕ)
      → CanFastDecide s idx
      → (may_fast_decide s idx && voted_at s (get_accepted_map s.leader_state idx)) ≡ true
  unfolding may_fast_decide
  CanFastDecide-may_fast_decide s idx (on, leads, above, within, voted) =
      let votes = IsVoted-voted_at s (get_accepted_map s.leader_state idx) voted in ground arith

  decide_at-IsShaped :
      (s : SequencePaxos F T S) (idx : ℕ)
      → IsShaped s.leader_state
      → IsShaped (decide_at s idx).leader_state
  unfolding decide_at prune_accepted_map
  decide_at-IsShaped s idx shape = shape

  pub decide_at-DecidesAt :
      (s : SequencePaxos F T S) (idx : ℕ)
      → IsShaped s.leader_state
      → (s' : SequencePaxos F T S) × (send_decides
            (decide_at s idx)
            (get_promised_followers (decide_at s idx).leader_state)
            idx
            false
          ≡ some s')
        × DecidesAt s idx s'
  unfolding decide_at prune_accepted_map get_promised_followers
  decide_at-DecidesAt s idx shape =
      let d = decide_at s idx in
      let (ns, msgs, run, dests, decides, size) =
        send_decides-SendsDecides d (get_promised_followers d.leader_state) idx
          (followers-InRange d (decide_at-IsShaped s idx shape)) in
      (
        with_sent d ns msgs,
        run,
        (refl, refl, (shape.0, size ∙ shape.1, shape.2, shape.3), (msgs, refl, dests, decides)),
      )

  -- A leader with a place for every pid attempts every decision without a panic. The answer is yes
  -- exactly if the fast path is on, the leader is in the accept phase, the index is accepted and
  -- not decided, the leader has voted for it and a fast quorum of nodes with it. Then the index is
  -- decided, the votes up to it are dropped and every promised follower gets a `Decide`; otherwise
  -- nothing changes.
  pub try_fast_decide_idx-FastDecides :
      (s : SequencePaxos F T S) (idx : ℕ)
      → IsShaped s.leader_state
      → (r : SequencePaxos F T S × Bool) × (try_fast_decide_idx s idx ≡ some r)
        × FastDecides s idx r
  unfolding try_fast_decide_idx
  try_fast_decide_idx-FastDecides s idx shape =
      elim (Bool-cases
        (may_fast_decide s idx && voted_at s (get_accepted_map s.leader_state idx))) [
          | inl can ↦
              let (s', run, decides) = decide_at-DecidesAt s idx shape in
              (
                (s', true),
                rw (can, try_fast_decide_idx, run) refl,
                (may_fast_decide-CanFastDecide s idx can, decides),
              )
          | inr cannot ↦ (
            (s, false),
            rw (cannot, try_fast_decide_idx) refl,
            (λ c. absurd (ground (arith, CanFastDecide-may_fast_decide s idx c)), refl),
          )
        ]
