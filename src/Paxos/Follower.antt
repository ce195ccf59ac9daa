-- ===== src/Paxos/Follower.antt =====
-- The follower: lib/omnipaxos/src/sequence_paxos/follower.rs. A handler that panics is `none`.
pub mod FastPath
pub mod Replies
use ca_op.Prelude.{
  ltb, leb, if◌then◌else◌, length, ℕ, min, Bool, ◌&&◌, ◌||◌, Option, none, some, [],
}
use ca_op.Prelude.Panic.{◌>>=◌}
use ca_op.Ballot.{Ballot, lt_ballot, eq_ballot}
use ca_op.Clocks.{default_seq_num}
use ca_op.Messages.{Role, follower, prepare, accept, recover, none_phase}
use ca_op.Messages
use ca_op.Messages.Paxos.{
  default_hash, Prepare, Promise, AcceptSync, AcceptDecide, Decide, AcceptStopSign, prepare_req,
  accepted,
}
use ca_op.Messages.Paxos
use ca_op.Storage.{SnapshotOps, LogSync, StopSign}
use ca_op.Storage.Internal
use ca_op.Storage.Internal.{InternalStorage, append_entries_and_get_accepted_idx}
use ca_op.Storage.Internal.Sync.{sync_log}
use ca_op.Paxos.{
  SequencePaxos, eq_phase, eq_state, expect, send, send_all, check_valid_ballot, create_log_sync,
}
use ca_op.Paxos.Follower.FastPath.{cleanup_fast_path_metadata, rebuild_unsynced_tail}
use ca_op.Paxos.Follower.Replies.{reply_accepted, reply_if, guard}

-- The index of the flush that came last.
abbrev pub last_flush : Option ℕ → Option ℕ → Option ℕ
last_flush first none = first
last_flush first (some idx) = some idx

module _ {ℓ} {F : Type 0} {T S : Type ℓ} where
  -- The log update of a promise: what the leader lacks, if this node is more up to date.
  unfoldable pub promised_sync :
      SnapshotOps T S → SequencePaxos F T S → Prepare → Option (Option (LogSync T S))
  unfolding create_log_sync lt_ballot eq_ballot
  promised_sync ops s prep =
      let na = s.internal_storage.cache.accepted_round in
      let accepted_idx = s.internal_storage.cache.accepted_idx in
      if lt_ballot prep.n_accepted na
      then (create_log_sync ops s prep.decided_idx prep.decided_idx >>= λ sync. some (some sync))
      else (if eq_ballot na prep.n_accepted && ltb prep.accepted_idx accepted_idx
          then (create_log_sync ops s prep.accepted_idx prep.decided_idx >>= λ sync.
              some (some sync))
          else some none)

  -- Flushed, promised and in the prepare phase: the first half of `handle_prepare`.
  unfoldable pub promise_to : SequencePaxos F T S → Ballot → SequencePaxos F T S
  unfolding Internal.flush_batch Internal.set_promise
  promise_to s n = record s {
    internal_storage = Internal.set_promise (Internal.flush_batch s.internal_storage).0 n;
    state = (Role.follower, prepare);
    current_seq_num = default_seq_num;
  }

  -- The promise message and its cached copy: the second half.
  unfoldable pub send_promise :
      SequencePaxos F T S → Prepare → ℕ → Option (LogSync T S) → SequencePaxos F T S
  unfolding send
  send_promise s prep from log_sync =
      let prom : Promise T S = record {
        n = prep.n;
        n_accepted = s.internal_storage.cache.accepted_round;
        decided_idx = s.internal_storage.cache.decided_idx;
        accepted_idx = s.internal_storage.cache.accepted_idx;
        log_sync = log_sync;
        log_unsync = some s.unsynced_log;
        log_prefix_hash = s.accepted_prefix_hash;
      } in
      send (record s { cached_promise_message = some prom }) from (Paxos.promise prom)

  -- Whether a prepare is answered with a promise.
  unfoldable pub accepts_prepare : SequencePaxos F T S → Ballot → Bool
  unfolding lt_ballot eq_ballot
  accepts_prepare s n =
      lt_ballot s.internal_storage.cache.promise n
      || (eq_ballot s.internal_storage.cache.promise n && eq_phase s.state.1 recover)

  unfoldable pub handle_prepare :
      SnapshotOps T S → SequencePaxos F T S → Prepare → ℕ → Option (SequencePaxos F T S)
  unfolding accepts_prepare promise_to promised_sync send_promise
  handle_prepare ops s prep from =
      if accepts_prepare s prep.n
      then (promised_sync ops (promise_to s prep.n) prep >>= λ log_sync.
          some (send_promise (promise_to s prep.n) prep from log_sync))
      else some s

  -- The state of a follower whose log is in sync, with the `Accepted` message for it.
  unfoldable pub synced :
      SequencePaxos F T S → AcceptSync T S → ℕ → InternalStorage T S → ℕ → SequencePaxos F T S
  unfolding send
  synced s accsync from storage new_accepted_idx =
      send
        (record s {
          cached_promise_message = none;
          internal_storage = storage;
          accepted_prefix_hash = accsync.log_prefix_hash;
          state = (Role.follower, accept);
          current_seq_num = accsync.seq_num;
          latest_accepted_meta = some (accsync.n, length s.outgoing);
          unsynced_log = [];
          unsynced_hash = default_hash;
        })
        from (accepted (record { n = accsync.n; accepted_idx = new_accepted_idx }))

  unfoldable pub handle_acceptsync :
      SnapshotOps T S → SequencePaxos F T S → AcceptSync T S → ℕ → Option (SequencePaxos F T S)
  unfolding check_valid_ballot sync_log synced
  handle_acceptsync ops s accsync from =
      let (s', is_valid) = check_valid_ballot s accsync.n in
      if is_valid && eq_state s'.state (Role.follower, prepare)
      then (expect
            (sync_log ops s'.internal_storage accsync.n accsync.decided_idx (some accsync.log_sync))
          >>= λ (storage, new_accepted_idx). some (synced s' accsync from storage new_accepted_idx))
      else some s'

  -- Flushes the batch if the decided index is beyond what is accepted; then the result is the new
  -- accepted index.
  unfoldable pub update_decided_idx_and_get_accepted_idx :
      SequencePaxos F T S → ℕ → SequencePaxos F T S × Option ℕ
  unfolding Internal.flush_batch Internal.set_decided_idx
  update_decided_idx_and_get_accepted_idx s new_decided_idx =
      if leb new_decided_idx s.internal_storage.cache.decided_idx
      then (s, none)
      else (if ltb s.internal_storage.cache.accepted_idx new_decided_idx
          then (
            record s {
              internal_storage =
                  Internal.set_decided_idx (Internal.flush_batch s.internal_storage).0
                    (min new_decided_idx (Internal.flush_batch s.internal_storage).1);
            },
            some (Internal.flush_batch s.internal_storage).1,
          )
          else (
            record s {
              internal_storage = Internal.set_decided_idx s.internal_storage new_decided_idx;
            },
            none,
          ))

  -- The entries of an `AcceptDecide` that is expected.
  unfoldable pub accept_entries :
      SequencePaxos F T S → AcceptDecide T → Option (SequencePaxos F T S)
  unfolding cleanup_fast_path_metadata append_entries_and_get_accepted_idx
      update_decided_idx_and_get_accepted_idx rebuild_unsynced_tail
  accept_entries s acc_dec =
      let (s₁, preserved_tail) = cleanup_fast_path_metadata s acc_dec.entry_meta in
      let (storage, first) =
        append_entries_and_get_accepted_idx s₁.internal_storage acc_dec.entries in
      let (s₂, second) =
        update_decided_idx_and_get_accepted_idx
          (record s₁ { internal_storage = storage; accepted_prefix_hash = acc_dec.log_prefix_hash })
          acc_dec.decided_idx in
      reply_if (rebuild_unsynced_tail s₂ s₂.internal_storage.cache.accepted_idx preserved_tail)
        acc_dec.n (last_flush first second)

  unfoldable pub handle_acceptdecide :
      SequencePaxos F T S → AcceptDecide T → Option (SequencePaxos F T S)
  unfolding guard accept_entries
  handle_acceptdecide s acc_dec =
      let (s', runs) =
        guard s acc_dec.n acc_dec.seq_num (λ state. eq_state state (Role.follower, accept)) in
      if runs then accept_entries s' acc_dec else some s'

  unfoldable pub handle_accept_stopsign :
      SequencePaxos F T S → AcceptStopSign → Option (SequencePaxos F T S)
  unfolding guard Internal.flush_batch Internal.set_stopsign reply_accepted
  handle_accept_stopsign s acc_ss =
      let (s', runs) =
        guard s acc_ss.n acc_ss.seq_num (λ state. eq_state state (Role.follower, accept)) in
      let (storage, new_accepted_idx) =
        Internal.set_stopsign (Internal.flush_batch s'.internal_storage).0 (some acc_ss.ss) in
      if runs
      then reply_accepted (record s' { internal_storage = storage }) acc_ss.n new_accepted_idx
      else some s'

  unfoldable pub handle_decide : SequencePaxos F T S → Decide → Option (SequencePaxos F T S)
  unfolding guard update_decided_idx_and_get_accepted_idx
  handle_decide s dec =
      let (s', runs) = guard s dec.n dec.seq_num (λ state. eq_phase state.1 accept) in
      let (s'', new_accepted_idx) = update_decided_idx_and_get_accepted_idx s' dec.decided_idx in
      if runs then reply_if s'' dec.n new_accepted_idx else some s'

  unfoldable pub send_preparereq_to_all_peers : SequencePaxos F T S → SequencePaxos F T S
  unfolding send_all
  send_preparereq_to_all_peers s =
      send_all s s.peers (prepare_req (record { n = s.internal_storage.cache.promise }))

  unfoldable pub resend_messages_follower : SequencePaxos F T S → SequencePaxos F T S
  unfolding send send_preparereq_to_all_peers
  resend_messages_follower s = elim s.state.1 [
    | prepare ↦ elim s.cached_promise_message [
      | some prom ↦ send s prom.n.pid (Paxos.promise prom)
      | none ↦ send_preparereq_to_all_peers (record s { state = (Role.follower, recover) })
    ]
    | recover ↦ send_preparereq_to_all_peers s
    | accept ↦ s
    | none_phase ↦ s
  ]

  unfoldable pub flush_batch_follower : SequencePaxos F T S → Option (SequencePaxos F T S)
  unfolding Internal.flush_batch reply_accepted
  flush_batch_follower s =
      let (storage, new_accepted_idx) = Internal.flush_batch s.internal_storage in
      let s' = record s { internal_storage = storage } in
      if ltb s.internal_storage.cache.accepted_idx new_accepted_idx
      then reply_accepted s' s'.internal_storage.cache.promise new_accepted_idx
      else some s'
