-- ===== src/Paxos/Leader/SlowDecision.antt =====
-- When a leader decides because an accept quorum has accepted.
use ca_op.Prelude.{
  ltb, leb, Bool-cases, length, set, count, All, length-append, length-set, get_elem?_lt,
  All-get_elem?, sub_usize, sub_usize_le, ℕ, zero, suc, ◌-◌, ◌≤◌, ◌<◌, ◌≡◌, refl, ap, subst, ◌∙◌,
  ◌⊎◌, inl, inr, true, false, ◌&&◌, Option, none, some, List, [], ◌∷◌, ◌++◌, arith,
}
use ca_op.Ballot.{Ballot, eq_ballot}
use ca_op.Clocks.{SequenceNumber}
use ca_op.Quorum.{is_accept_quorum}
use ca_op.Messages.Paxos.{AcceptDecide, Accepted, PaxosMsg, accept_decide, PaxosMessage}
use ca_op.Storage.Internal
use ca_op.LeaderState.{LeaderState, get_promised_followers}
use ca_op.LeaderState.Accept.{set_accepted_idx, get_latest_accept_meta, is_chosen}
use ca_op.LeaderState.Fast.{prune, prune_accepted_map}
use ca_op.LeaderState.Indexes.{InRange}
use ca_op.Paxos.{SequencePaxos}
use ca_op.Paxos.Decisions.{IsCached}
use ca_op.Paxos.Leader.Send.{accdec_in, put_msg, accdec_at, get_latest_accdec_message, send_decide}
use ca_op.Paxos.Leader.Decide.{
  is_accepting, decide_at, decide_to, decide_each, decide_if_chosen, handle_accepted,
}
use ca_op.Paxos.Leader.Messages.{IsShaped, promised_from-InRange, send_decide-sends}

pub length-put_msg {ℓ} :
    {T S : Type ℓ} (ms : List (PaxosMessage T S)) (i : ℕ) (msg : PaxosMsg T S)
    → length (put_msg ms i msg) ≡ length ms
length-put_msg [] i msg = refl
length-put_msg (m ∷ ms) zero msg = refl
length-put_msg (m ∷ ms) (suc i) msg = ap suc (length-put_msg ms i msg)

IsCached-le : (o : Option (Ballot × ℕ)) (m n : ℕ) → m ≤ n → IsCached o m → IsCached o n
IsCached-le none m n h c = tt
IsCached-le (some (b, i)) m n h c = omega arith

pub All-IsCached-le :
    (v : List (Option (Ballot × ℕ))) (m n : ℕ)
    → m ≤ n
    → All (λ o. IsCached o m) v
    → All (λ o. IsCached o n) v
All-IsCached-le [] m n h a = tt
All-IsCached-le (o ∷ v) m n h a = (IsCached-le o m n h a.0, All-IsCached-le v m n h a.1)

pub promised-within {ℓ} :
    {T S : Type ℓ} (ls : LeaderState T S)
    → IsShaped ls
    → All (λ to. (0 < to) × (to ≤ ls.max_pid)) (get_promised_followers ls)
unfolding get_promised_followers
promised-within ls shape =
    subst (λ n. All (λ to. (0 < to) × (to ≤ n)) (get_promised_followers ls)) shape.0
      (promised_from-InRange ls.promises_meta _ 0 ls.promises_meta (omega arith))

module _ {ℓ} {F : Type 0} {T S : Type ℓ} where
  -- A leader with a place for every pid, whose cached indices are those of messages that wait.
  abbrev pub IsLeading : SequencePaxos F T S → Type 0
  IsLeading s =
      IsShaped s.leader_state
      × All (λ o. IsCached o (length s.outgoing)) s.leader_state.latest_accept_meta

  -- Only sequence numbers and messages differ, and no message is lost.
  abbrev Tells : SequencePaxos F T S → Option (SequencePaxos F T S) → Type ℓ
  Tells s o =
      (ns : List SequenceNumber) × (out : List (PaxosMessage T S)) × (o
        ≡ some (record s {
          leader_state = record (s.leader_state) { follower_seq_nums = ns };
          outgoing = out;
        }))
      × (length ns ≡ length s.leader_state.follower_seq_nums)
      × (length s.outgoing ≤ length out)

  send_decide-Tells :
      (s : SequencePaxos F T S) (to idx : ℕ)
      → InRange s.leader_state.follower_seq_nums to
      → Tells s (send_decide s to idx false)
  send_decide-Tells s to idx inside =
      let (ns, m, run, dest, decides, size) = send_decide-sends s to idx inside in
      (ns, s.outgoing ++ m ∷ [], run, size, omega (arith, length-append s.outgoing (m ∷ [])))

  decide_to-Tells :
      (s : SequencePaxos F T S) (to idx : ℕ) (cached : Option (ℕ × AcceptDecide T))
      → InRange s.leader_state.follower_seq_nums to
      → Tells s (decide_to s to idx cached)
  decide_to-Tells s to idx none inside = send_decide-Tells s to idx inside
  decide_to-Tells s to idx (some (i, a)) inside = (
    s.leader_state.follower_seq_nums,
    put_msg s.outgoing i (accept_decide (record a { decided_idx = idx })),
    refl,
    refl,
    omega (arith, length-put_msg s.outgoing i (accept_decide (record a { decided_idx = idx }))),
  )

  accdec_at-returns :
      (s : SequencePaxos F T S) (o : Option (Ballot × ℕ))
      → IsCached o (length s.outgoing)
      → (r : Option (ℕ × AcceptDecide T)) × (accdec_at s o ≡ some r)
  accdec_at-returns s none c = (none, refl)
  accdec_at-returns s (some (bal, i)) c =
      elim (Bool-cases (eq_ballot bal s.leader_state.n_leader)) [
        | inl same ↦
            let (m, there) = get_elem?_lt s.outgoing i c in
            (accdec_in i m.msg, rw (same, there) refl)
        | inr other ↦ (none, rw other refl)
      ]

  pub get_latest_accdec_message-returns :
      (s : SequencePaxos F T S) (to : ℕ)
      → InRange s.leader_state.latest_accept_meta to
      → All (λ o. IsCached o (length s.outgoing)) s.leader_state.latest_accept_meta
      → (r : Option (ℕ × AcceptDecide T)) × (get_latest_accdec_message s to ≡ some r)
  unfolding get_latest_accdec_message get_latest_accept_meta
  get_latest_accdec_message-returns s to (low, high) c =
      let (o, there) = get_elem?_lt s.leader_state.latest_accept_meta (to - 1) (omega arith) in
      let (r, e) = accdec_at-returns s o (
        All-get_elem? (λ o. IsCached o (length s.outgoing)) s.leader_state.latest_accept_meta
          (to - 1) o there c) in
      (r, rw (sub_usize_le to 1 low, there) e)

  decide_each-Tells :
      (s : SequencePaxos F T S) (followers : List ℕ) (idx : ℕ)
      → IsLeading s
      → All (λ to. (0 < to) × (to ≤ s.leader_state.max_pid)) followers
      → Tells s (decide_each s followers idx)
  unfolding decide_each
  decide_each-Tells s [] idx lead inside =
      (s.leader_state.follower_seq_nums, s.outgoing, refl, refl, omega arith)
  decide_each-Tells s (to ∷ followers) idx (shape, c) ((low, high), inside) =
      let (cached, found) = get_latest_accdec_message-returns s to (low, omega arith) c in
      let (ns, out, told, size, more) = decide_to-Tells s to idx cached (low, omega arith) in
      let s₁ : SequencePaxos F T S = record s {
        leader_state = record (s.leader_state) { follower_seq_nums = ns };
        outgoing = out;
      } in
      let (ns', out', run, size', more') =
        decide_each-Tells s₁ followers idx
          (
            (shape.0, size ∙ shape.1, shape.2, shape.3),
            All-IsCached-le s.leader_state.latest_accept_meta (length s.outgoing) (length out) more
                c,
          )
          inside in
      (ns', out', rw (found, told) run, size' ∙ size, omega arith)

  -- The message is one of the current round, for a leader in the accept phase.
  abbrev pub IsCurrent : SequencePaxos F T S → Accepted → Type 0
  IsCurrent s acc = (eq_ballot acc.n s.leader_state.n_leader ≡ true) × (is_accepting s ≡ true)

  -- With the report of `from`, the index is one that an accept quorum has accepted, and was not
  -- decided before.
  abbrev pub IsNewlyChosen : SequencePaxos F T S → ℕ → ℕ → Type 0
  IsNewlyChosen s from idx =
      (s.internal_storage.cache.decided_idx < idx)
      × (is_accept_quorum s.leader_state.quorum
            (count (λ la. leb idx la) (set s.leader_state.accepted_indexes (from - 1) idx))
          ≡ true)

  -- The decision of a chosen index, or none.
  abbrev pub DecidesChosen : SequencePaxos F T S → ℕ → ℕ → SequencePaxos F T S → Type ℓ
  DecidesChosen s from idx s' =
      (IsNewlyChosen s from idx
        × (s'.internal_storage ≡ Internal.set_decided_idx s.internal_storage idx)
        × (s'.leader_state.accepted_map ≡ prune idx s.leader_state.accepted_map))
      ⊎ ((¬ IsNewlyChosen s from idx)
          × (s'.internal_storage ≡ s.internal_storage)
          × (s'.outgoing ≡ s.outgoing))

  -- The leader with the report of `from`.
  abbrev reported : SequencePaxos F T S → ℕ → ℕ → SequencePaxos F T S
  reported s from idx = record s {
    leader_state = record (s.leader_state) {
      accepted_indexes = set s.leader_state.accepted_indexes (from - 1) idx;
    };
  }

  decide_if_chosen-DecidesChosen :
      (s : SequencePaxos F T S) (from idx : ℕ)
      → IsLeading s
      → (s' : SequencePaxos F T S) × (decide_if_chosen (reported s from idx) idx ≡ some s')
        × DecidesChosen s from idx s'
        × (s'.leader_state.accepted_indexes ≡ set s.leader_state.accepted_indexes (from - 1) idx)
  unfolding decide_if_chosen is_chosen decide_at prune_accepted_map get_promised_followers
      Internal.set_decided_idx
  decide_if_chosen-DecidesChosen s from idx (shape, c) =
      let r = reported s from idx in
      let d = decide_at r idx in
      let shape' : IsShaped d.leader_state = (
        shape.0,
        shape.1,
        length-set s.leader_state.accepted_indexes (from - 1) idx ∙ shape.2,
        shape.3,
      ) in
      elim (Bool-cases
        (ltb s.internal_storage.cache.decided_idx idx && is_chosen r.leader_state idx)) [
          | inl chosen ↦
              let (ns, out, run, size, more) =
                decide_each-Tells d (get_promised_followers d.leader_state) idx (shape', c)
                  (promised-within d.leader_state shape') in
              (
                record d {
                  leader_state = record (d.leader_state) { follower_seq_nums = ns };
                  outgoing = out;
                },
                rw chosen run,
                inl ((ground arith, ground arith), refl, refl),
                refl,
              )
          | inr other ↦ (r, rw other refl, inr ((λ n. absurd (ground arith)), refl, refl), refl)
        ]

  -- A leader with a place for every pid handles every `Accepted` of a member without a panic. One
  -- of another round, or outside the accept phase, changes nothing. Any other one is noted, and its
  -- index is decided exactly if it is above the decided one and an accept quorum has now accepted
  -- it.
  pub handle_accepted-Decides :
      (s : SequencePaxos F T S) (acc : Accepted) (from : ℕ)
      → IsLeading s
      → 0 < from
      → from ≤ s.leader_state.max_pid
      → (s' : SequencePaxos F T S) × (handle_accepted s acc from ≡ some s')
        × (((¬ IsCurrent s acc) × (s' ≡ s))
            ⊎ (IsCurrent s acc
                × DecidesChosen s from acc.accepted_idx s'
                × (s'.leader_state.accepted_indexes
                    ≡ set s.leader_state.accepted_indexes (from - 1) acc.accepted_idx)))
  unfolding handle_accepted set_accepted_idx
  handle_accepted-Decides s acc from lead low high =
      let place : sub_usize from 1 ≡ from - 1 = sub_usize_le from 1 low in
      let inside : ltb (from - 1) (length s.leader_state.accepted_indexes) ≡ true =
        ground (arith, lead.0.2) in
      let (s', run, decides, noted) = decide_if_chosen-DecidesChosen s from acc.accepted_idx lead in
      elim (Bool-cases (eq_ballot acc.n s.leader_state.n_leader && is_accepting s)) [
        | inl current ↦ (
          s',
          rw (current, place, inside) run,
          inr ((ground arith, ground arith), decides, noted),
        )
        | inr other ↦ (s, rw other refl, inl ((λ n. absurd (ground arith)), refl))
      ]
