-- ===== src/Paxos/Leader/Takeover.antt =====
-- How a new leader takes over the log: `handle_majority_promises` of
-- lib/omnipaxos/src/sequence_paxos/leader.rs. `none` is a panic. `clock k` is the reading of the
-- clock that the handler makes as number `k`.
use ca_op.Prelude.{if◌then◌else◌, length, ℕ, ◌+◌, Option, none, some, List, [], ◌∷◌}
use ca_op.Prelude.Panic.{◌>>=◌}
use ca_op.Messages.{Role, accept}
use ca_op.Messages.Paxos.{entry_id_key, EntryId, UnsyncedLog, ClockTimestamp, DomPropose}
use ca_op.Quorum.Intersection.{recover_threshold}
use ca_op.Storage.{SnapshotOps}
use ca_op.Storage.Internal.{append_entries_without_batching, append_stopsign}
use ca_op.Storage.Internal.Sync.{sync_log}
use ca_op.LeaderState.{take_max_promise_sync, get_max_decided_idx, get_promised_followers}
use ca_op.LeaderState.Accept.{set_accepted_idx}
use ca_op.Dom.{Dom, create_dom_propose, remove_from_buffers}
use ca_op.Dom.Owd.{PercentileOps}
use ca_op.Paxos.{SequencePaxos, expect}
use ca_op.Paxos.Proposals.{accepted_reconfiguration, send_dom_propose}
use ca_op.Paxos.Leader.Send.{send_accsyncs}
use ca_op.Paxos.Leader.Recover.{Recovery, retain_unsynced, run_recovery}

module _ {ℓ} {F : Type 0} {T : Type ℓ} where
  -- The proposals for what is left of the unsynced log, with new deadlines.
  unfoldable pub new_proposals :
      Dom F T → (ℕ → ClockTimestamp) → ℕ → UnsyncedLog T → List (DomPropose T)
  unfolding create_dom_propose
  new_proposals d clock k [] = []
  new_proposals d clock k ((i, e) ∷ log) =
      create_dom_propose d (clock k) e.entry e.entry_id ∷ new_proposals d clock (k + 1) log

  unfoldable pub remove_entries : Dom F T → List EntryId → Dom F T
  unfolding remove_from_buffers
  remove_entries d [] = d
  remove_entries d (id ∷ ids) = remove_entries (remove_from_buffers d id).0 ids

module _ {ℓ} {F : Type 0} {T S : Type ℓ} where
  -- The replica after the loop: the hash, the unsynced log and the buffers follow the new log.
  unfoldable pub recovered : SequencePaxos F T S → Recovery T S → SequencePaxos F T S
  unfolding retain_unsynced remove_entries
  recovered s r = record s {
    internal_storage = r.storage;
    leader_state = r.leader_state;
    accepted_prefix_hash = r.expected_prev_hash;
    unsynced_log = retain_unsynced r.new_accepted_idx r.recovered_entry_ids s.unsynced_log;
    dom = remove_entries s.dom r.recovered_entry_ids;
  }

  -- The buffered proposals, appended to the log, and the new accepted index.
  unfoldable pub append_buffered : SequencePaxos F T S → ℕ → SequencePaxos F T S × ℕ
  unfolding append_entries_without_batching
  append_buffered s accepted_idx = elim s.buffered_proposals [
    | [] ↦ (s, accepted_idx)
    | e ∷ es ↦ (
      record s {
        buffered_proposals = [];
        internal_storage = (append_entries_without_batching s.internal_storage (e ∷ es)).0;
      },
      (append_entries_without_batching s.internal_storage (e ∷ es)).1,
    )
  ]

  -- The buffered stop sign, appended to the log, and the new accepted index.
  unfoldable pub append_buffered_stopsign : SequencePaxos F T S → ℕ → SequencePaxos F T S × ℕ
  unfolding append_stopsign
  append_buffered_stopsign s accepted_idx = elim s.buffered_stopsign [
    | none ↦ (s, accepted_idx)
    | some ss ↦ (
      record s {
        buffered_stopsign = none;
        internal_storage = (append_stopsign s.internal_storage ss).0;
      },
      (append_stopsign s.internal_storage ss).0.cache.accepted_idx,
    )
  ]

  unfoldable pub take_buffered : SequencePaxos F T S → ℕ → SequencePaxos F T S × ℕ
  unfolding accepted_reconfiguration append_buffered append_buffered_stopsign
  take_buffered s accepted_idx =
      if accepted_reconfiguration s
      then (s, accepted_idx)
      else (let (s', accepted_idx') = append_buffered s accepted_idx in
          append_buffered_stopsign s' accepted_idx')

module _ {ℓ} {F : Type 0} {T S : Type ℓ} (percentiles : PercentileOps F) where
  -- Each proposal is sent with two readings of the clock, from number `k` on.
  unfoldable pub send_proposals :
      SequencePaxos F T S
      → (ℕ → ClockTimestamp)
      → ℕ
      → List (DomPropose T)
      → Option (SequencePaxos F T S)
  unfolding send_dom_propose
  send_proposals s clock k [] = some s
  send_proposals s clock k (prop ∷ props) =
      send_dom_propose percentiles s prop (clock k) (clock (k + 1)) >>= λ s'.
      send_proposals s' clock (k + 2) props

module _ {ℓ} {F : Type 0} {T S : Type ℓ} (ops : SnapshotOps T S)
    (percentiles : PercentileOps F) where
  -- The log update of the highest promise, and the recovery of the entries behind it.
  unfoldable pub sync_and_recover : SequencePaxos F T S → Option (SequencePaxos F T S × ℕ)
  unfolding take_max_promise_sync get_max_decided_idx sync_log run_recovery recovered
      recover_threshold
  sync_and_recover s =
      let (ls, max_promise_sync) = take_max_promise_sync s.leader_state in
      expect (sync_log ops s.internal_storage ls.n_leader (get_max_decided_idx ls) max_promise_sync)
      >>= λ (storage, accepted_idx).
          let r = run_recovery (recover_threshold (length s.peers + 1)) s.unsynced_log (record {
            storage = storage;
            leader_state = ls;
            expected_prev_hash = ls.max_promise_accepted_hash;
            recovered_entry_ids = [];
            new_accepted_idx = accepted_idx;
          }) in
          some (recovered s r, r.new_accepted_idx)

  -- The entry into the accept phase, with an `AcceptSync` for each follower.
  unfoldable pub start_accepting : SequencePaxos F T S → ℕ → Option (SequencePaxos F T S)
  unfolding set_accepted_idx send_accsyncs get_promised_followers
  start_accepting s accepted_idx = set_accepted_idx s.leader_state s.pid accepted_idx >>= λ ls.
      send_accsyncs ops (record s { leader_state = ls; state = (Role.leader, accept) })
        (get_promised_followers ls)

  unfoldable pub handle_majority_promises :
      SequencePaxos F T S → (ℕ → ClockTimestamp) → Option (SequencePaxos F T S)
  unfolding sync_and_recover new_proposals send_proposals take_buffered start_accepting
  handle_majority_promises s clock = sync_and_recover s >>= λ (s₁, accepted_idx).
      let props = new_proposals s₁.dom clock 0 s₁.unsynced_log in
      send_proposals percentiles s₁ clock (length s₁.unsynced_log) props >>= λ s₂.
      let (s₃, accepted_idx') = take_buffered s₂ accepted_idx in start_accepting s₃ accepted_idx'
