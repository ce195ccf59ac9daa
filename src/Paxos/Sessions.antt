-- ===== src/Paxos/Sessions.antt =====
-- The sequence numbers that a follower receives (lib/omnipaxos/src/sequence_paxos/follower.rs), over
-- any run of messages.
use ca_op.Prelude.{ℕ, zero, suc, ◌+◌, ◌≤◌, ◌<◌, ◌≡◌, ◌⊎◌, List, [], ◌∷◌, map}
use ca_op.Clocks.{MessageStatus, expected, dropped_preceding, outdated, SequenceNumber}
use ca_op.Paxos.{SequencePaxos, handle_sequence_num}

-- The number after `s` in its session.
abbrev pub next_in_session : SequenceNumber → SequenceNumber
next_in_session s = record s { counter = s.counter + 1 }

-- The numbers after `s`, in order.
abbrev pub numbers_after : SequenceNumber → ℕ → List SequenceNumber
numbers_after s zero = []
numbers_after s (suc n) = next_in_session s ∷ numbers_after (next_in_session s) n

-- An older session, or the same one and a number that is not greater.
abbrev pub IsRepeated : SequenceNumber → SequenceNumber → Type 0
IsRepeated s m = (m.session < s.session) ⊎ ((m.session ≡ s.session) × (m.counter ≤ s.counter))

-- A later session, or the same one and a number after the next one.
abbrev pub IsAhead : SequenceNumber → SequenceNumber → Type 0
IsAhead s m = (s.session < m.session) ⊎ ((m.session ≡ s.session) × (s.counter + 1 < m.counter))

-- The answers to a run of messages, each after the last number that was accepted before.
abbrev pub AreJudged : SequenceNumber → List (SequenceNumber × MessageStatus) → Type 0
AreJudged s [] = Unit
AreJudged s ((m, expected) ∷ rs) = (m ≡ next_in_session s) × AreJudged m rs
AreJudged s ((m, outdated) ∷ rs) = IsRepeated s m × AreJudged s rs
AreJudged s ((m, dropped_preceding) ∷ rs) = IsAhead s m × AreJudged s rs

-- The messages that are accepted.
abbrev pub accepted_of : List (SequenceNumber × MessageStatus) → List SequenceNumber
accepted_of [] = []
accepted_of ((m, expected) ∷ rs) = m ∷ accepted_of rs
accepted_of ((m, outdated) ∷ rs) = accepted_of rs
accepted_of ((m, dropped_preceding) ∷ rs) = accepted_of rs

-- The messages of a run are answered one by one.
abbrev IsJudged :
    SequenceNumber → List (SequenceNumber × ℕ) → List (SequenceNumber × MessageStatus) → Type 0
IsJudged s ms rs = (map (λ r. r.0) rs ≡ map (λ r. r.0) ms) × AreJudged s rs

module _ {ℓ} {F : Type 0} {T S : Type ℓ} where
  -- A run of messages, each with its sender, and the answers.
  unfoldable pub receive :
      SequencePaxos F T S
      → List (SequenceNumber × ℕ)
      → SequencePaxos F T S × List (SequenceNumber × MessageStatus)
  unfolding handle_sequence_num
  receive s [] = (s, [])
  receive s ((m, from) ∷ ms) =
      let (s', status) = handle_sequence_num s m from in
      let (s'', rs) = receive s' ms in (s'', (m, status) ∷ rs)
