-- ===== src/Paxos/Leader/Decide.antt =====
-- How a leader accepts and decides: `accept_entry_leader`, `try_fast_decide_idx`,
-- `handle_fast_accepted`, `handle_accepted` and their kin of
-- lib/omnipaxos/src/sequence_paxos/leader.rs. `none` is a panic.
use ca_op.Prelude.{
  ltb, leb, if◌then◌else◌, length, sub_usize, ℕ, zero, suc, ◌+◌, Bool, true, false, ◌&&◌, Option,
  none, some, List, [], ◌∷◌,
}
use ca_op.Prelude.Assoc.{nat_eq, contains, union}
use ca_op.Prelude.Panic.{◌>>=◌}
use ca_op.Ballot.{eq_ballot}
use ca_op.Messages.{Role, accept}
use ca_op.Messages.Paxos.{AcceptDecide, Accepted, FastAccepted, accept_decide}
use ca_op.Quorum.Intersection.{fast_quorum}
use ca_op.Storage.{StopSign}
use ca_op.Storage.Internal
use ca_op.Storage.Internal.{
  InternalStorage, AcceptedMetaData, append_entry_with_batching, append_stopsign,
  flush_batch_and_get_entries,
}
use ca_op.LeaderState.{AcceptedMapEntry, get_promised_followers}
use ca_op.LeaderState.Accept.{set_accepted_idx, is_chosen}
use ca_op.LeaderState.Fast.{voters, set_accepted_map, get_accepted_map, prune_accepted_map}
use ca_op.Paxos.{SequencePaxos, eq_state}
use ca_op.Paxos.Leader.Send.{
  put_msg, get_latest_accdec_message, send_decide, send_decides, send_stopsigns, send_acceptdecide,
}

-- The nodes that voted for the entry of the leader: on the fast path, or with an `Accepted`.
unfoldable pub combined_voters : AcceptedMapEntry → List ℕ
unfolding union voters
combined_voters a = union (voters (a.prefix_hash, a.entry_hash) a.fast) a.slow

-- Whether the leader voted, and a fast quorum of nodes with it.
unfoldable pub has_fast_quorum : AcceptedMapEntry → ℕ → ℕ → Bool
unfolding combined_voters contains fast_quorum
has_fast_quorum a pid num_nodes =
    contains pid a.slow && leb (fast_quorum num_nodes) (length (combined_voters a))

module _ {ℓ} {F : Type 0} {T S : Type ℓ} where
  abbrev pub is_accepting : SequencePaxos F T S → Bool
  is_accepting s = eq_state s.state (Role.leader, accept)

  -- The decided index, with the votes up to it pruned.
  unfoldable pub decide_at : SequencePaxos F T S → ℕ → SequencePaxos F T S
  unfolding Internal.set_decided_idx prune_accepted_map
  decide_at s idx = record s {
    internal_storage = Internal.set_decided_idx s.internal_storage idx;
    leader_state = prune_accepted_map s.leader_state idx;
  }

  -- The guards of `try_fast_decide_idx` up to the lookup of the votes.
  unfoldable pub may_fast_decide : SequencePaxos F T S → ℕ → Bool
  may_fast_decide s idx =
      s.enable_fast_path
      && is_accepting s
      && ltb s.internal_storage.cache.decided_idx idx
      && leb idx s.internal_storage.cache.accepted_idx

  -- Whether the votes for an index decide it.
  abbrev pub voted_at : SequencePaxos F T S → Option AcceptedMapEntry → Bool
  voted_at s none = false
  voted_at s (some a) = has_fast_quorum a s.pid (length s.peers + 1)

  unfoldable pub try_fast_decide_idx : SequencePaxos F T S → ℕ → Option (SequencePaxos F T S × Bool)
  unfolding may_fast_decide get_accepted_map has_fast_quorum decide_at get_promised_followers
      send_decides
  try_fast_decide_idx s idx =
      if may_fast_decide s idx && voted_at s (get_accepted_map s.leader_state idx)
      then (send_decides (decide_at s idx) (get_promised_followers (decide_at s idx).leader_state)
            idx false
          >>= λ s'. some (s', true))
      else some (s, false)

  unfoldable pub handle_fast_accepted :
      SequencePaxos F T S → FastAccepted → ℕ → Option (SequencePaxos F T S)
  unfolding set_accepted_map try_fast_decide_idx eq_ballot
  handle_fast_accepted s fast_acc from =
      if s.enable_fast_path && eq_ballot s.leader_state.n_leader fast_acc.n && is_accepting s
      then (try_fast_decide_idx
            (record s {
              leader_state =
                  set_accepted_map s.leader_state fast_acc.idx fast_acc.entry_hash
                    fast_acc.prefix_hash from true;
            })
            fast_acc.idx
          >>= λ r. some r.0)
      else some s

  -- The loop over `n` indices from `idx` on.
  unfoldable pub try_fast_decide_each : ℕ → SequencePaxos F T S → ℕ → Option (SequencePaxos F T S)
  unfolding try_fast_decide_idx
  try_fast_decide_each zero s idx = some s
  try_fast_decide_each (suc n) s idx =
      try_fast_decide_idx s idx >>= λ r. try_fast_decide_each n r.0 (idx + 1)

  -- `if let Some(metadata) = accepted_metadata { .. }` of `accept_entry_leader`.
  abbrev pub after_append :
      SequencePaxos F T S → Option (AcceptedMetaData T) → Option (SequencePaxos F T S)
  after_append s none = some s
  after_append s (some metadata) = do
    ls ← set_accepted_idx s.leader_state s.pid metadata.accepted_idx
    s' ← send_acceptdecide (record s { leader_state = ls }) metadata
    try_fast_decide_each (length metadata.entries) s'
        (sub_usize (metadata.accepted_idx + 1) (length metadata.entries))

  unfoldable pub accept_entry_leader : SequencePaxos F T S → T → Option (SequencePaxos F T S)
  unfolding append_entry_with_batching set_accepted_idx send_acceptdecide try_fast_decide_each
  accept_entry_leader s entry =
      let (storage, accepted_metadata) = append_entry_with_batching s.internal_storage entry in
      after_append (record s { internal_storage = storage }) accepted_metadata

  -- `if let Some(metadata) = accepted_metadata { self.send_acceptdecide(metadata); }`
  abbrev pub send_if :
      SequencePaxos F T S → Option (AcceptedMetaData T) → Option (SequencePaxos F T S)
  send_if s none = some s
  send_if s (some metadata) = send_acceptdecide s metadata

  unfoldable pub accept_stopsign_leader :
      SequencePaxos F T S → StopSign → Option (SequencePaxos F T S)
  unfolding append_stopsign send_acceptdecide set_accepted_idx get_promised_followers send_stopsigns
  accept_stopsign_leader s ss =
      let (storage, accepted_metadata) = append_stopsign s.internal_storage ss in
      send_if (record s { internal_storage = storage }) accepted_metadata >>= λ s'.
      set_accepted_idx s'.leader_state s'.pid s'.internal_storage.cache.accepted_idx >>= λ ls.
      send_stopsigns (record s' { leader_state = ls }) (get_promised_followers ls) ss

  -- `if let Some(metadata) = accepted_metadata { .. }` of `flush_batch_leader`.
  abbrev pub after_flush :
      SequencePaxos F T S → Option (AcceptedMetaData T) → Option (SequencePaxos F T S)
  after_flush s none = some s
  after_flush s (some metadata) = do
    ls ← set_accepted_idx s.leader_state s.pid metadata.accepted_idx
    send_acceptdecide (record s { leader_state = ls }) metadata

  unfoldable pub flush_batch_leader : SequencePaxos F T S → Option (SequencePaxos F T S)
  unfolding flush_batch_and_get_entries set_accepted_idx send_acceptdecide
  flush_batch_leader s =
      let (storage, accepted_metadata) = flush_batch_and_get_entries s.internal_storage in
      after_flush (record s { internal_storage = storage }) accepted_metadata

  -- A decision for a follower: in its cached message, or in a message of its own.
  abbrev pub decide_to :
      SequencePaxos F T S → ℕ → ℕ → Option (ℕ × AcceptDecide T) → Option (SequencePaxos F T S)
  decide_to s to decided_idx (some (i, a)) = some (record s {
    outgoing = put_msg s.outgoing i (accept_decide (record a { decided_idx = decided_idx }));
  })
  decide_to s to decided_idx none = send_decide s to decided_idx false

  -- The loop of `handle_accepted` over the followers.
  unfoldable pub decide_each : SequencePaxos F T S → List ℕ → ℕ → Option (SequencePaxos F T S)
  unfolding get_latest_accdec_message send_decide
  decide_each s [] decided_idx = some s
  decide_each s (to ∷ followers) decided_idx = get_latest_accdec_message s to >>= λ cached.
      decide_to s to decided_idx cached >>= λ s'. decide_each s' followers decided_idx

  -- The leader knows that the index is accepted, and decides it if it is chosen.
  unfoldable pub decide_if_chosen : SequencePaxos F T S → ℕ → Option (SequencePaxos F T S)
  unfolding is_chosen decide_at get_promised_followers decide_each
  decide_if_chosen s idx =
      if ltb s.internal_storage.cache.decided_idx idx && is_chosen s.leader_state idx
      then decide_each (decide_at s idx) (get_promised_followers (decide_at s idx).leader_state) idx
      else some s

  unfoldable pub handle_accepted : SequencePaxos F T S → Accepted → ℕ → Option (SequencePaxos F T S)
  unfolding set_accepted_idx decide_if_chosen eq_ballot
  handle_accepted s acc from =
      if eq_ballot acc.n s.leader_state.n_leader && is_accepting s
      then (set_accepted_idx s.leader_state from acc.accepted_idx >>= λ ls.
          decide_if_chosen (record s { leader_state = ls }) acc.accepted_idx)
      else some s
