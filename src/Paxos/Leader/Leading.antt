-- ===== src/Paxos/Leader/Leading.antt =====
-- How an election is taken: when a node leads, and what it starts with.
use ca_op.Prelude.{
  set, replicate, All, ℕ, zero, suc, ◌-◌, ◌≡◌, ◌⊎◌, false, none, List, [], ◌∷◌, ◌++◌,
}
use ca_op.Ballot.{Ballot}
use ca_op.Clocks.{default_seq_num}
use ca_op.Quorum.{Quorum}
use ca_op.Messages
use ca_op.Messages.{Role, prepare}
use ca_op.Messages.Paxos.{default_hash, UnsyncedLog, Promise, PaxosMsg, prepare_msg, PaxosMessage}
use ca_op.Storage.Internal
use ca_op.LeaderState
use ca_op.LeaderState.{default_meta, gt_meta, not_promised, promised, LeaderState, meta_of}
use ca_op.Paxos.{SequencePaxos}
use ca_op.Paxos.Decisions.{IsCached}
use ca_op.Paxos.Leader.{own_promise}
use ca_op.Paxos.Leader.SlowDecision.{IsLeading}

pub IsCached-replicate : (n len : ℕ) → All (λ o. IsCached o len) (replicate n none)
IsCached-replicate zero len = tt
IsCached-replicate (suc n) len = (tt, IsCached-replicate n len)

module _ {ℓ} {T S : Type ℓ} where
  -- The messages of `send_all`.
  abbrev pub to_each : ℕ → List ℕ → PaxosMsg T S → List (PaxosMessage T S)
  to_each pid [] msg = []
  to_each pid (to ∷ peers) msg = record { from = pid; to = to; msg = msg } ∷ to_each pid peers msg

  -- A fresh leader state with the leader's own promise noted: nothing is left of an earlier round.
  abbrev pub IsFresh :
      Ballot → ℕ → ℕ → Quorum → Promise T S → UnsyncedLog T → LeaderState T S → Type ℓ
  IsFresh n max_pid pid q prom log ls =
      (ls.n_leader ≡ n)
      × (ls.max_pid ≡ max_pid)
      × (ls.promises_meta
          ≡ set (replicate max_pid not_promised) (pid - 1) (promised (meta_of prom pid)))
      × (ls.follower_seq_nums ≡ replicate max_pid default_seq_num)
      × (ls.accepted_indexes ≡ replicate max_pid 0)
      × (ls.latest_accept_meta ≡ replicate max_pid none)
      × (ls.quorum ≡ q)
      × (ls.accepted_map ≡ [])
      × (ls.recovered_remote_entry_ids ≡ [])
      × (ls.pending_accept_meta ≡ [])
      × (ls.unsynced_log_store ≡ set (replicate max_pid []) (pid - 1) log)
      × (ls.max_promise_sync ≡ none)
      × (((ls.max_promise_meta ≡ meta_of prom pid)
            × (ls.max_promise_accepted_hash ≡ prom.log_prefix_hash))
          ⊎ ((gt_meta (meta_of prom pid) default_meta ≡ false)
              × (ls.max_promise_meta ≡ default_meta)
              × (ls.max_promise_accepted_hash ≡ default_hash)))

module _ {ℓ} {F : Type 0} {T S : Type ℓ} where
  -- The node leads the round of the ballot: it has promised the ballot with its batch flushed, is in
  -- the prepare phase with a fresh leader state, and asks every peer.
  abbrev pub Leads : SequencePaxos F T S → Ballot → SequencePaxos F T S → Type ℓ
  Leads s n s' =
      (s'.state ≡ (Messages.Role.leader, prepare))
      × (s'.internal_storage ≡ Internal.set_promise (Internal.flush_batch s.internal_storage).0 n)
      × IsFresh n s.leader_state.max_pid s.pid s.leader_state.quorum (own_promise s' n)
          s.unsynced_log s'.leader_state
      × IsLeading s'
      × (s'.outgoing
          ≡ s.outgoing
            ++ to_each s.pid s.peers (
                prepare_msg (record {
                  n = n;
                  decided_idx = s'.internal_storage.cache.decided_idx;
                  n_accepted = s'.internal_storage.cache.accepted_round;
                  accepted_idx = s'.internal_storage.cache.accepted_idx;
                })))
