-- ===== src/Paxos/Follower/Replies.antt =====
-- What the follower's handlers share: the replies with an `Accepted` message, which is cached until
-- the messages are taken, and the guard of the accept phase
-- (lib/omnipaxos/src/sequence_paxos/follower.rs).
use ca_op.Prelude.{
  if◌then◌else◌, length, get_elem?, set, ℕ, Bool, true, false, ◌&&◌, Option, none, some,
}
use ca_op.Prelude.Panic.{◌>>=◌}
use ca_op.Ballot.{Ballot, eq_ballot}
use ca_op.Clocks.{MessageStatus, expected, dropped_preceding, outdated, SequenceNumber}
use ca_op.Messages.{Role, Phase}
use ca_op.Messages.Paxos.{PaxosMsg, accepted, PaxosMessage}
use ca_op.Paxos.{SequencePaxos, send, check_valid_ballot, handle_sequence_num}

-- The cached `Accepted` message with a new index; `none` if another message is there.
abbrev pub with_accepted_idx {ℓ} : {T S : Type ℓ} → PaxosMsg T S → ℕ → Option (PaxosMsg T S)
with_accepted_idx (accepted a) idx = some (accepted (record a { accepted_idx = idx }))
with_accepted_idx _ idx = none

-- Whether a message is the next one of its session; a loss makes the follower reconnect.
abbrev pub is_expected : MessageStatus → Bool
is_expected expected = true
is_expected dropped_preceding = false
is_expected outdated = false

module _ {ℓ} {F : Type 0} {T S : Type ℓ} where
  -- A new `Accepted` message, whose index is cached.
  unfoldable pub send_accepted : SequencePaxos F T S → Ballot → ℕ → SequencePaxos F T S
  unfolding send
  send_accepted s n accepted_idx =
      send (record s { latest_accepted_meta = some (n, length s.outgoing) }) n.pid
        (accepted (record { n = n; accepted_idx = accepted_idx }))

  -- The reply over the message `m` at index `i`, if that is an `Accepted` message.
  abbrev pub replace_accepted :
      SequencePaxos F T S
      → Ballot
      → ℕ
      → ℕ
      → PaxosMessage T S
      → Option (PaxosMsg T S)
      → SequencePaxos F T S
  replace_accepted s n accepted_idx i m none = send_accepted s n accepted_idx
  replace_accepted s n accepted_idx i m (some msg) = record s {
    outgoing = set s.outgoing i (record m { msg = msg });
  }

  -- The reply when the cached index is `i`. Panics if that is out of bounds.
  unfoldable pub update_accepted_at :
      SequencePaxos F T S → Ballot → ℕ → ℕ → Option (SequencePaxos F T S)
  unfolding send_accepted
  update_accepted_at s n accepted_idx i = get_elem? s.outgoing i >>= λ m.
      some (replace_accepted s n accepted_idx i m (with_accepted_idx m.msg accepted_idx))

  -- The reply for the cached ballot and index, `get_latest_accepted_message`.
  abbrev pub reply_cached :
      SequencePaxos F T S → Ballot → ℕ → Option (Ballot × ℕ) → Option (SequencePaxos F T S)
  reply_cached s n accepted_idx none = some (send_accepted s n accepted_idx)
  reply_cached s n accepted_idx (some (ballot, i)) =
      if eq_ballot ballot n
      then update_accepted_at s n accepted_idx i
      else some (send_accepted s n accepted_idx)

  unfoldable pub reply_accepted : SequencePaxos F T S → Ballot → ℕ → Option (SequencePaxos F T S)
  unfolding update_accepted_at send_accepted eq_ballot
  reply_accepted s n accepted_idx = reply_cached s n accepted_idx s.latest_accepted_meta

  -- `if let Some(idx) = new_accepted_idx { self.reply_accepted(n, idx) }`
  abbrev pub reply_if : SequencePaxos F T S → Ballot → Option ℕ → Option (SequencePaxos F T S)
  reply_if s n none = some s
  reply_if s n (some idx) = reply_accepted s n idx

  -- The guard of the handlers of the accept phase: the ballot, the state, and then the number.
  unfoldable pub guard :
      SequencePaxos F T S
      → Ballot
      → SequenceNumber
      → (Role × Phase → Bool)
      → SequencePaxos F T S × Bool
  unfolding check_valid_ballot handle_sequence_num
  guard s n seq_num in_phase =
      let (s', is_valid) = check_valid_ballot s n in
      if is_valid && in_phase s'.state
      then (
        (handle_sequence_num s' seq_num n.pid).0,
        is_expected (handle_sequence_num s' seq_num n.pid).1,
      )
      else (s', false)
