-- ===== src/Paxos/Start.antt =====
-- The start of a replica: `SequencePaxosConfig` and `SequencePaxos::with` of
-- lib/omnipaxos/src/sequence_paxos/mod.rs.
use ca_op.Prelude.{length, ℕ, ◌+◌, max, Bool, Option, none, some, List, [], ◌∷◌}
use ca_op.Prelude.Panic.{◌>>=◌}
use ca_op.Ballot.{Ballot, default_ballot}
use ca_op.Clocks.{default_seq_num}
use ca_op.Quorum.{FlexibleQuorum, quorum_with}
use ca_op.Messages.{Role, Phase, recover, none_phase}
use ca_op.Messages.Paxos.{default_hash, prepare_req, PaxosMessage}
use ca_op.Storage.Memory.{MemoryStorage}
use ca_op.Storage.Internal
use ca_op.Storage.Internal.{with_storage}
use ca_op.LeaderState.{leader_state_with}
use ca_op.Dom.{new_dom}
use ca_op.Dom.Owd.{OwdEstimatorConfig}
use ca_op.Paxos.{SequencePaxos}

-- Without the buffer size, which is a capacity, and the logger.
pub record SequencePaxosConfig (F : Type 0) : Type 0 where
  pub pid : ℕ
  pub peers : List ℕ
  pub batch_size : ℕ
  pub flexible_quorum : Option FlexibleQuorum
  pub owd_config : OwdEstimatorConfig F
  pub enable_fast_path : Bool

-- `peers.iter().max()`
unfoldable pub max_peer : List ℕ → Option ℕ
max_peer [] = none
max_peer (p ∷ ps) = elim (max_peer ps) [ none ↦ some p | some top ↦ some (max p top) ]

module _ {ℓ} {T S : Type ℓ} where
  -- A `PrepareReq` for each peer.
  unfoldable pub prepare_reqs : ℕ → Ballot → List ℕ → List (PaxosMessage T S)
  prepare_reqs pid b [] = []
  prepare_reqs pid b (peer ∷ peers) =
      record { from = pid; to = peer; msg = prepare_req (record { n = b }) }
      ∷ prepare_reqs pid b peers

  -- The phase, the messages and the leader that a replica starts with: with a promise in the
  -- storage it has failed before, and recovers.
  unfoldable pub start_state :
      ℕ → List ℕ → Option Ballot → (Role × Phase) × List (PaxosMessage T S) × Ballot
  unfolding prepare_reqs
  start_state pid peers (some b) = ((Role.follower, recover), prepare_reqs pid b peers, b)
  start_state pid peers none = ((Role.follower, none_phase), [], default_ballot)

module _ {ℓ} {F : Type 0} {T S : Type ℓ} where
  -- The replica, with what `start_state` says.
  unfoldable pub start_with :
      SequencePaxosConfig F
      → MemoryStorage T S
      → ℕ
      → (Role × Phase) × List (PaxosMessage T S) × Ballot
      → SequencePaxos F T S
  unfolding with_storage Internal.set_promise leader_state_with quorum_with
  start_with config storage max_pid (state, outgoing, leader) = record {
    dom = new_dom config.owd_config config.pid;
    internal_storage = Internal.set_promise (with_storage storage config.batch_size) leader;
    pid = config.pid;
    peers = config.peers;
    state = state;
    buffered_proposals = [];
    buffered_stopsign = none;
    outgoing = outgoing;
    leader_state =
        leader_state_with leader max_pid
          (quorum_with config.flexible_quorum (length config.peers + 1));
    latest_accepted_meta = none;
    current_seq_num = default_seq_num;
    cached_promise_message = none;
    unsynced_log = [];
    accepted_prefix_hash = default_hash;
    unsynced_hash = default_hash;
    enable_fast_path = config.enable_fast_path;
  }

  -- `SequencePaxos::with`, which panics if there is no peer.
  unfoldable pub paxos_with :
      SequencePaxosConfig F → MemoryStorage T S → Option (SequencePaxos F T S)
  unfolding max_peer start_state start_with
  paxos_with config storage = max_peer config.peers >>= λ max_peer_pid. some (
      start_with config storage (max max_peer_pid config.pid)
        (start_state config.pid config.peers storage.n_prom))
