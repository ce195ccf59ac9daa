-- ===== src/Paxos/Release.antt =====
-- What a replica does with the proposals that come out of the early buffer: `release_requests` and
-- `handle_dom_release` of lib/omnipaxos/src/sequence_paxos/mod.rs. The hash of a request, made by
-- the standard library's hasher, is a parameter. `none` is a panic.
use ca_op.Prelude.{if◌then◌else◌, length, ◌+◌, false, Option, some, List, [], ◌∷◌}
use ca_op.Prelude.Assoc
use ca_op.Prelude.Assoc.{nat_eq}
use ca_op.Prelude.Int.{ℤ}
use ca_op.Prelude.Panic.{◌>>=◌}
use ca_op.Messages.{Role, Phase, accept}
use ca_op.Messages.Paxos.{DomHash, extend_hash, EntryId, ClockTimestamp, DomPropose, fast_accepted}
use ca_op.LeaderState.Accept.{
  get_accepted_idx, has_recovered_remote_entry_id, push_pending_accept_meta,
}
use ca_op.LeaderState.Fast.{set_accepted_map}
use ca_op.Dom.{release_ready}
use ca_op.Paxos.{SequencePaxos, eq_phase, send, get_promise, get_current_leader}
use ca_op.Paxos.Leader.Decide.{accept_entry_leader}

module _ {ℓ} {F : Type 0} {T S : Type ℓ} (hash_of : EntryId → ℤ → DomHash) where
  -- The leader's release: the entry goes to the log, and the leader votes for it.
  unfoldable pub release_leader : SequencePaxos F T S → DomPropose T → Option (SequencePaxos F T S)
  unfolding extend_hash push_pending_accept_meta get_accepted_idx set_accepted_map
      accept_entry_leader
  release_leader s prop =
      let entry_hash = hash_of prop.entry_id prop.deadline in
      let ls =
        push_pending_accept_meta s.leader_state
          (record { entry_id = prop.entry_id; deadline = prop.deadline }) in
      get_accepted_idx ls s.pid >>= λ accepted_idx.
      accept_entry_leader
        (record s {
          accepted_prefix_hash = extend_hash s.accepted_prefix_hash entry_hash;
          leader_state =
              set_accepted_map ls (accepted_idx + 1) entry_hash s.accepted_prefix_hash s.pid false;
        })
        prop.entry

  -- The follower's release: the entry goes to the unsynced log, and the leader gets a vote.
  unfoldable pub release_follower : SequencePaxos F T S → DomPropose T → SequencePaxos F T S
  unfolding extend_hash Assoc.insert send
  release_follower s prop =
      let idx = s.internal_storage.cache.accepted_idx + length s.unsynced_log + 1 in
      let entry_hash = hash_of prop.entry_id prop.deadline in
      let prefix_hash = extend_hash s.unsynced_hash s.accepted_prefix_hash in
      let s' = send s (get_current_leader s) (
        fast_accepted (record {
          n = get_promise s;
          idx = idx;
          entry_hash = entry_hash;
          prefix_hash = prefix_hash;
        })) in
      record s' {
        unsynced_log =
            Assoc.insert idx
              (record {
                entry = prop.entry;
                entry_id = prop.entry_id;
                deadline = prop.deadline;
                entry_hash = entry_hash;
                prefix_hash = prefix_hash;
              })
              s.unsynced_log;
        unsynced_hash = extend_hash s.unsynced_hash entry_hash;
      }

  -- The release of a proposal, by the state.
  abbrev pub release_by :
      SequencePaxos F T S → DomPropose T → Role × Phase → Option (SequencePaxos F T S)
  release_by s prop (Role.leader, accept) = release_leader s prop
  release_by s prop (Role.follower, accept) =
      some (if s.enable_fast_path then release_follower s prop else s)
  release_by s prop _ = some s

  unfoldable pub handle_dom_release :
      SequencePaxos F T S → DomPropose T → Option (SequencePaxos F T S)
  unfolding has_recovered_remote_entry_id release_leader release_follower
  handle_dom_release s prop =
      if has_recovered_remote_entry_id s.leader_state prop.entry_id
      then some s
      else release_by s prop s.state

  unfoldable pub release_each :
      SequencePaxos F T S → List (DomPropose T) → Option (SequencePaxos F T S)
  unfolding handle_dom_release
  release_each s [] = some s
  release_each s (prop ∷ proposals) = handle_dom_release s prop >>= λ s'. release_each s' proposals

  unfoldable pub release_requests :
      SequencePaxos F T S → ClockTimestamp → Option (SequencePaxos F T S)
  unfolding release_ready release_each
  release_requests s now =
      if eq_phase s.state.1 accept
      then (let (d, proposals) = release_ready s.dom now in
          release_each (record s { dom = d }) proposals)
      else some s
