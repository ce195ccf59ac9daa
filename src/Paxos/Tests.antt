-- ===== src/Paxos/Tests.antt =====
-- Runs of a follower (lib/omnipaxos/src/sequence_paxos/follower.rs) on small inputs.
use ca_op.Prelude.{length, ℕ, ◌≡◌, refl, ◌⊎◌, true, none, some, List, [], ◌∷◌, ◌++◌, arith}
use ca_op.Prelude.Int.{pos}
use ca_op.Prelude.Panic.{◌>>=◌}
use ca_op.Ballot.{Ballot, default_ballot}
use ca_op.Clocks.{SequenceNumber}
use ca_op.Quorum.{majority}
use ca_op.Messages
use ca_op.Messages.{Role, follower, accept}
use ca_op.Messages.Paxos.{default_hash, Prepare, Promise, Decide}
use ca_op.Storage.{SnapshotOps}
use ca_op.LeaderState.{leader_state_with}
use ca_op.Dom.{new_dom}
use ca_op.Dom.Owd.{moving_average}
use ca_op.Paxos.{SequencePaxos}
use ca_op.Paxos.Follower.{handle_prepare, handle_decide}
use ca_op.Paxos.Follower.Replies.{reply_accepted}
use ca_op.Paxos.Decisions.{DecidesOrRefuses, handle_decide-Decides}
use ca_op.Paxos.Prepares.{NotDue, Promises, handle_prepare-Promises}
use ca_op.Paxos.Sessions.{accepted_of, receive}

-- Snapshots are the lists of entries.
abbrev lists : SnapshotOps ℕ (List ℕ)
lists = record { create = λ es. es; merge = λ s d. s ++ d; use_snapshots = true }

abbrev round_of : ℕ → ℕ → Ballot
round_of n pid = record { config_id = 1; n = n; priority = 0; pid = pid }

-- Node 2 follows node 1: two entries are accepted, one of them decided, and one is in the batch.
abbrev follows_one : SequencePaxos ℕ ℕ (List ℕ)
follows_one = record {
  dom =
      new_dom
        (record {
          window_size = 2;
          max_owd = pos 100;
          uncertainty_beta = pos 3;
          strategy = moving_average;
        })
        2;
  internal_storage = record {
    storage = record {
      log = 10 ∷ 11 ∷ [];
      n_prom = some (round_of 1 1);
      acc_round = some (round_of 1 1);
      ld = 1;
      trimmed_idx = 0;
      compacted_idx = 0;
      snapshot = none;
      stopsign = none;
    };
    cache = record {
      batch_size = 3;
      batched_entries = 12 ∷ [];
      promise = round_of 1 1;
      accepted_round = round_of 1 1;
      decided_idx = 1;
      accepted_idx = 2;
      compacted_idx = 0;
      stopsign = none;
    };
  };
  pid = 2;
  peers = 1 ∷ 3 ∷ [];
  state = (Messages.Role.follower, accept);
  buffered_proposals = [];
  buffered_stopsign = none;
  outgoing = [];
  leader_state = leader_state_with (round_of 1 1) 3 (majority 2);
  latest_accepted_meta = none;
  current_seq_num = record { session = 1; counter = 4 };
  cached_promise_message = none;
  unsynced_log = [];
  accepted_prefix_hash = default_hash;
  unsynced_hash = default_hash;
  enable_fast_path = true;
}

abbrev next_decide : Decide
next_decide = record {
  n = round_of 1 1;
  seq_num = record { session = 1; counter = 5 };
  decided_idx = 4;
}

-- The batch is flushed, and the decided index stops at the three entries that are accepted.
decides :
    (handle_decide follows_one next_decide >>= λ s. some s.internal_storage.cache.decided_idx)
    ≡ some 3
unfolding handle_decide reply_accepted
decides = refl

handle_decide-Decides_example :
    (s : SequencePaxos ℕ ℕ (List ℕ)) × (handle_decide follows_one next_decide ≡ some s)
    × DecidesOrRefuses follows_one next_decide s
handle_decide-Decides_example = handle_decide-Decides follows_one next_decide tt (omega arith)

abbrev higher_prepare : Prepare
higher_prepare = record {
  n = round_of 2 3;
  decided_idx = 0;
  n_accepted = default_ballot;
  accepted_idx = 0;
}

handle_prepare-Promises_example :
    (s : SequencePaxos ℕ ℕ (List ℕ)) × (handle_prepare lists follows_one higher_prepare 3 ≡ some s)
    × (((prom : Promise ℕ (List ℕ)) × Promises lists follows_one higher_prepare 3 s prom)
        ⊎ (NotDue follows_one (round_of 2 3) × (s ≡ follows_one)))
handle_prepare-Promises_example = handle_prepare-Promises lists follows_one higher_prepare 3

abbrev in_session : ℕ → ℕ → SequenceNumber × ℕ
in_session session counter = (record { session = session; counter = counter }, 1)

-- The next number, a repetition, a loss, an older session, and the number after the next one.
abbrev numbers : List (SequenceNumber × ℕ)
numbers = in_session 1 5 ∷ in_session 1 5 ∷ in_session 1 8 ∷ in_session 0 9 ∷ in_session 1 6 ∷ []

accepts_two : length (accepted_of (receive follows_one numbers).1) ≡ 2
unfolding receive
accepts_two = refl
