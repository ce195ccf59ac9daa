-- ===== src/Paxos/Leader/Messages.antt =====
-- The decisions that a leader sends: they reach every follower that has promised, and change
-- nothing but the sequence numbers.
use ca_op.Prelude.{
  ltb, ◌==◌, Bool-cases, length, get_elem?, set, All, length-set, get_elem?_lt, inc_u64, sub_usize,
  sub_usize_le, ℕ, ◌+◌, ◌-◌, ◌≤◌, ◌≡◌, refl, sym, ap, ap₂, ◌∙◌, inl, inr, true, false, not, ◌&&◌,
  Option, some, List, [], ◌∷◌, ◌++◌, map, append-nil, append_assoc, arith,
}
use ca_op.Clocks.{SequenceNumber}
use ca_op.Ballot.{Ballot}
use ca_op.Messages.Paxos.{decide_msg, PaxosMessage}
use ca_op.LeaderState.{
  PromiseState, LeaderState, is_promised, promised_from, next_seq_num, get_promised_followers,
}
use ca_op.LeaderState.Indexes.{InRange}
use ca_op.Paxos.{SequencePaxos, send}
use ca_op.Paxos.Leader.Send.{number, send_decide, send_decides}

-- A `Decide` of the index, in the round of the ballot.
abbrev pub IsDecide {ℓ} : {T S : Type ℓ} → Ballot → ℕ → PaxosMessage T S → Type ℓ
IsDecide n idx m =
    (k : SequenceNumber) × (m.msg ≡ decide_msg (record { n = n; seq_num = k; decided_idx = idx }))

-- The promised followers have a sequence number, and each vector has a place for every pid.
abbrev pub IsShaped {ℓ} : {T S : Type ℓ} → LeaderState T S → Type 0
IsShaped ls =
    (length ls.promises_meta ≡ ls.max_pid)
    × (length ls.follower_seq_nums ≡ ls.max_pid)
    × (length ls.accepted_indexes ≡ ls.max_pid)
    × (length ls.latest_accept_meta ≡ ls.max_pid)

pub promised_from-InRange {ℓ} :
    {A : Type ℓ} (v : List A) (l i : ℕ) (ps : List PromiseState)
    → i + length ps ≤ length v
    → All (InRange v) (promised_from l i ps)
unfolding promised_from
promised_from-InRange v l i [] h = tt
promised_from-InRange v l i (p ∷ ps) h = elim (Bool-cases (is_promised p && not (i == l))) [
  | inl e ↦
      rw (e, promised_from)
        ((omega arith, omega arith), promised_from-InRange v l (i + 1) ps (omega arith))
  | inr e ↦ rw (e, promised_from) (promised_from-InRange v l (i + 1) ps (omega arith))
]

pub InRange-length :
    (v w : List SequenceNumber) (followers : List ℕ)
    → length w ≡ length v
    → All (InRange v) followers
    → All (InRange w) followers
InRange-length v w [] e a = tt
InRange-length v w (f ∷ fs) e a = ((a.0.0, omega arith), InRange-length v w fs e a.1)

module _ {ℓ} {F : Type 0} {T S : Type ℓ} where
  -- The replica with other sequence numbers and more messages.
  abbrev pub with_sent :
      SequencePaxos F T S → List SequenceNumber → List (PaxosMessage T S) → SequencePaxos F T S
  with_sent s ns msgs = record s {
    leader_state = record (s.leader_state) { follower_seq_nums = ns };
    outgoing = s.outgoing ++ msgs;
  }

  pub followers-InRange :
      (s : SequencePaxos F T S)
      → IsShaped s.leader_state
      → All (InRange s.leader_state.follower_seq_nums) (get_promised_followers s.leader_state)
  unfolding get_promised_followers
  followers-InRange s (p, n, _, _) =
      promised_from-InRange s.leader_state.follower_seq_nums _ 0 s.leader_state.promises_meta
        (omega arith)

  -- The `Decide` for a follower.
  abbrev decide_for : SequencePaxos F T S → ℕ → ℕ → SequenceNumber → PaxosMessage T S
  decide_for s to idx k = record {
    from = s.pid;
    to = to;
    msg = decide_msg (record { n = s.leader_state.n_leader; seq_num = k; decided_idx = idx });
  }

  send_decide-next :
      (s : SequencePaxos F T S) (to idx : ℕ) (last : SequenceNumber)
      → let k : SequenceNumber = record last { counter = inc_u64 last.counter } in
        sub_usize to 1 ≡ to - 1
        → ltb (to - 1) (length s.leader_state.follower_seq_nums) ≡ true
        → get_elem? s.leader_state.follower_seq_nums (to - 1) ≡ some last
        → send_decide s to idx false
          ≡ some (
              with_sent s
                (set s.leader_state.follower_seq_nums (to - 1) k)
                (decide_for s to idx k ∷ []))
  unfolding send_decide number next_seq_num send
  send_decide-next s to idx last place inside there = rw (place, there, inside) refl

  -- A decision for one follower.
  pub send_decide-sends :
      (s : SequencePaxos F T S) (to idx : ℕ)
      → InRange s.leader_state.follower_seq_nums to
      → (ns : List SequenceNumber) × (m : PaxosMessage T S) × (send_decide s to idx false
          ≡ some (with_sent s ns (m ∷ [])))
        × (m.to ≡ to)
        × IsDecide s.leader_state.n_leader idx m
        × (length ns ≡ length s.leader_state.follower_seq_nums)
  send_decide-sends s to idx (low, high) =
      let seqs = s.leader_state.follower_seq_nums in
      let (last, there) = get_elem?_lt seqs (to - 1) (omega arith) in
      let k : SequenceNumber = record last { counter = inc_u64 last.counter } in
      (
        set seqs (to - 1) k,
        decide_for s to idx k,
        send_decide-next s to idx last (sub_usize_le to 1 (omega arith)) (ground arith) there,
        refl,
        (k, refl),
        length-set seqs (to - 1) k,
      )

  -- What `send_decides` does with a list of followers.
  abbrev pub SendsDecides : SequencePaxos F T S → List ℕ → ℕ → Option (SequencePaxos F T S) → Type ℓ
  SendsDecides s followers idx o =
      (ns : List SequenceNumber) × (msgs : List (PaxosMessage T S)) × (o
        ≡ some (with_sent s ns msgs))
      × (map (λ m. m.to) msgs ≡ followers)
      × All (IsDecide s.leader_state.n_leader idx) msgs
      × (length ns ≡ length s.leader_state.follower_seq_nums)

  pub send_decides-SendsDecides :
      (s : SequencePaxos F T S) (followers : List ℕ) (idx : ℕ)
      → All (InRange s.leader_state.follower_seq_nums) followers
      → SendsDecides s followers idx (send_decides s followers idx false)
  unfolding send_decides
  send_decides-SendsDecides s [] idx a = (
    s.leader_state.follower_seq_nums,
    [],
    ap (λ out. some (record s { outgoing = out })) (sym (append-nil s.outgoing)),
    refl,
    tt,
    refl,
  )
  send_decides-SendsDecides s (to ∷ followers) idx (here, a) =
      let (ns, m, sent, dest, decides, size) = send_decide-sends s to idx here in
      let (ns', msgs, run, dests, all_decide, size') =
        send_decides-SendsDecides (with_sent s ns (m ∷ [])) followers idx
          (InRange-length s.leader_state.follower_seq_nums ns followers size a) in
      (
        ns',
        m ∷ msgs,
        rw sent (
            run
            ∙ ap
                (λ out. some (record s {
                  leader_state = record (s.leader_state) { follower_seq_nums = ns' };
                  outgoing = out;
                }))
                (append_assoc s.outgoing (m ∷ []) msgs)),
        ap₂ (λ x xs. x ∷ xs) dest dests,
        (decides, all_decide),
        size' ∙ size,
      )
