-- ===== src/Paxos/Leader/Send.antt =====
-- The messages of a leader: the `send_` functions and the cached `AcceptDecide` message of
-- lib/omnipaxos/src/sequence_paxos/leader.rs. `none` is a panic.
use ca_op.Prelude.{
  if◌then◌else◌, length, get_elem?, ℕ, zero, suc, min, Bool, false, Option, none, some, List, [],
  ◌∷◌, ◌++◌,
}
use ca_op.Prelude.Panic.{◌>>=◌}
use ca_op.Ballot.{Ballot, eq_ballot}
use ca_op.Clocks.{SequenceNumber}
use ca_op.Messages.Paxos.{
  AcceptedEntryMeta, AcceptDecide, PaxosMsg, prepare_msg, accept_sync, accept_decide, decide_msg,
  accept_stop_sign, PaxosMessage,
}
use ca_op.Storage.{SnapshotOps, StopSign}
use ca_op.Storage.Internal.{AcceptedMetaData}
use ca_op.LeaderState.{
  PromiseMetaData, increment_seq_num_session, next_seq_num, get_seq_num, get_promise_meta,
  get_promised_followers,
}
use ca_op.LeaderState.Accept.{
  set_latest_accept_meta, get_latest_accept_meta, get_decided_idx, take_pending_accept_meta,
}
use ca_op.Paxos.{SequencePaxos, send, create_log_sync}

-- The index up to which a follower's accepted entries are valid.
unfoldable pub valid_entries_idx : Ballot → PromiseMetaData → PromiseMetaData → ℕ → ℕ
unfolding eq_ballot
valid_entries_idx current_n max_meta meta decided_idx =
    if eq_ballot meta.n_accepted current_n
    then meta.accepted_idx
    else (if eq_ballot meta.n_accepted max_meta.n_accepted
        then min max_meta.accepted_idx meta.accepted_idx
        else decided_idx)

module _ {ℓ} {T S : Type ℓ} where
  -- `accdec` of the pattern `PaxosMsg::AcceptDecide(accdec)`, with its index.
  abbrev pub accdec_in : ℕ → PaxosMsg T S → Option (ℕ × AcceptDecide T)
  accdec_in i (accept_decide a) = some (i, a)
  accdec_in i _ = none

  -- A write to the message at an index.
  abbrev pub put_msg : List (PaxosMessage T S) → ℕ → PaxosMsg T S → List (PaxosMessage T S)
  put_msg [] i msg = []
  put_msg (m ∷ ms) zero msg = record m { msg = msg } ∷ ms
  put_msg (m ∷ ms) (suc i) msg = m ∷ put_msg ms i msg

module _ {ℓ} {F : Type 0} {T S : Type ℓ} where
  -- The cached message for a ballot and index. Panics if the index is out of bounds.
  abbrev pub accdec_at :
      SequencePaxos F T S → Option (Ballot × ℕ) → Option (Option (ℕ × AcceptDecide T))
  accdec_at s none = some none
  accdec_at s (some (bal, i)) =
      if eq_ballot bal s.leader_state.n_leader
      then (get_elem? s.outgoing i >>= λ m. some (accdec_in i m.msg))
      else some none

  unfoldable pub get_latest_accdec_message :
      SequencePaxos F T S → ℕ → Option (Option (ℕ × AcceptDecide T))
  unfolding get_latest_accept_meta eq_ballot
  get_latest_accdec_message s to = do
    cached ← get_latest_accept_meta s.leader_state to
    accdec_at s cached

  unfoldable pub send_prepare : SequencePaxos F T S → ℕ → SequencePaxos F T S
  unfolding send
  send_prepare s to = send s to (
      prepare_msg (record {
        n = s.leader_state.n_leader;
        decided_idx = s.internal_storage.cache.decided_idx;
        n_accepted = s.internal_storage.cache.accepted_round;
        accepted_idx = s.internal_storage.cache.accepted_idx;
      }))

  unfoldable pub send_prepares : SequencePaxos F T S → List ℕ → SequencePaxos F T S
  unfolding send_prepare
  send_prepares s [] = s
  send_prepares s (to ∷ peers) = send_prepares (send_prepare s to) peers

  -- The number for a message: the next one, or the last one again for a message that is resent.
  unfoldable pub number :
      SequencePaxos F T S → ℕ → Bool → Option (SequencePaxos F T S × SequenceNumber)
  unfolding get_seq_num next_seq_num
  number s to resend =
      if resend
      then (get_seq_num s.leader_state to >>= λ m. some (s, m))
      else (next_seq_num s.leader_state to >>= λ r. some (record s { leader_state = r.0 }, r.1))

  unfoldable pub send_decide : SequencePaxos F T S → ℕ → ℕ → Bool → Option (SequencePaxos F T S)
  unfolding number send
  send_decide s to decided_idx resend = do
    (s', seq_num) ← number s to resend
    some (
        send s' to (
          decide_msg
            (record { n = s.leader_state.n_leader; seq_num = seq_num; decided_idx = decided_idx })))

  unfoldable pub send_accept_stopsign :
      SequencePaxos F T S → ℕ → StopSign → Bool → Option (SequencePaxos F T S)
  unfolding number send
  send_accept_stopsign s to ss resend = do
    (s', seq_num) ← number s to resend
    some (
        send s' to
          (accept_stop_sign (record { n = s.leader_state.n_leader; seq_num = seq_num; ss = ss })))

  -- The decision to each follower of a list.
  unfoldable pub send_decides :
      SequencePaxos F T S → List ℕ → ℕ → Bool → Option (SequencePaxos F T S)
  unfolding send_decide
  send_decides s [] decided_idx resend = some s
  send_decides s (to ∷ followers) decided_idx resend =
      send_decide s to decided_idx resend >>= λ s'. send_decides s' followers decided_idx resend

  -- The stop sign to each follower of a list.
  unfoldable pub send_stopsigns :
      SequencePaxos F T S → List ℕ → StopSign → Option (SequencePaxos F T S)
  unfolding send_accept_stopsign
  send_stopsigns s [] ss = some s
  send_stopsigns s (to ∷ followers) ss =
      send_accept_stopsign s to ss false >>= λ s'. send_stopsigns s' followers ss

  -- Entries for one follower: in its cached message, or in a new one.
  abbrev pub acceptdecide_to :
      SequencePaxos F T S
      → List T
      → List AcceptedEntryMeta
      → ℕ
      → Option (ℕ × AcceptDecide T)
      → Option (SequencePaxos F T S)
  acceptdecide_to s entries entry_meta to (some (i, a)) = some (record s {
    outgoing = put_msg s.outgoing i (
        accept_decide (record a {
          entries = a.entries ++ entries;
          entry_meta = a.entry_meta ++ entry_meta;
          decided_idx = s.internal_storage.cache.decided_idx;
          log_prefix_hash = s.accepted_prefix_hash;
        }));
  })
  acceptdecide_to s entries entry_meta to none = do
    ls ← set_latest_accept_meta s.leader_state to (some (length s.outgoing))
    (ls', seq_num) ← next_seq_num ls to
    some (
        send (record s { leader_state = ls' }) to
          (accept_decide (record {
            n = s.leader_state.n_leader;
            seq_num = seq_num;
            decided_idx = s.internal_storage.cache.decided_idx;
            entries = entries;
            entry_meta = entry_meta;
            log_prefix_hash = s.accepted_prefix_hash;
          })))

  -- The loop of `send_acceptdecide` over the followers.
  unfoldable pub acceptdecide_each :
      SequencePaxos F T S → List T → List AcceptedEntryMeta → List ℕ → Option (SequencePaxos F T S)
  unfolding get_latest_accdec_message next_seq_num set_latest_accept_meta send
  acceptdecide_each s entries entry_meta [] = some s
  acceptdecide_each s entries entry_meta (to ∷ followers) =
      get_latest_accdec_message s to >>= λ cached.
      acceptdecide_to s entries entry_meta to cached >>= λ s'.
      acceptdecide_each s' entries entry_meta followers

  unfoldable pub send_acceptdecide :
      SequencePaxos F T S → AcceptedMetaData T → Option (SequencePaxos F T S)
  unfolding take_pending_accept_meta acceptdecide_each get_promised_followers
  send_acceptdecide s accepted = do
    (ls, entry_meta) ← take_pending_accept_meta s.leader_state (length accepted.entries)
    acceptdecide_each (record s { leader_state = ls }) accepted.entries entry_meta
        (get_promised_followers ls)

module _ {ℓ} {F : Type 0} {T S : Type ℓ} (ops : SnapshotOps T S) where
  -- Panics if `to` has not promised.
  unfoldable pub send_accsync : SequencePaxos F T S → ℕ → Option (SequencePaxos F T S)
  unfolding get_promise_meta get_decided_idx create_log_sync increment_seq_num_session next_seq_num
      send valid_entries_idx
  send_accsync s to = do
    meta ← get_promise_meta s.leader_state to
    decided ← get_decided_idx s.leader_state meta.pid
    decided_idx ← decided
    log_sync ←
        create_log_sync ops s
          (valid_entries_idx s.leader_state.n_leader s.leader_state.max_promise_meta meta
            decided_idx)
          decided_idx
    ls ← increment_seq_num_session s.leader_state to
    (ls', seq_num) ← next_seq_num ls to
    some (
        send (record s { leader_state = ls' }) to
          (accept_sync (record {
            n = s.leader_state.n_leader;
            seq_num = seq_num;
            decided_idx = s.internal_storage.cache.decided_idx;
            log_sync = log_sync;
            log_prefix_hash = s.accepted_prefix_hash;
          })))

  -- The loop over the followers at the end of `handle_majority_promises`.
  unfoldable pub send_accsyncs : SequencePaxos F T S → List ℕ → Option (SequencePaxos F T S)
  unfolding send_accsync
  send_accsyncs s [] = some s
  send_accsyncs s (to ∷ followers) = send_accsync s to >>= λ s'. send_accsyncs s' followers
