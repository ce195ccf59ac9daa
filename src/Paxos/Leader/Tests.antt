-- ===== src/Paxos/Leader/Tests.antt =====
-- Instances of the theorems on the leader of lib/omnipaxos/src/sequence_paxos/leader.rs: node 1 leads
-- three nodes.
use ca_op.Prelude.{
  ◌==◌, if◌then◌else◌, length, All, ℕ, ◌+◌, ◌≡◌, refl, sym, ap, subst, ◌∙◌, ◌⊎◌, Bool, true, not,
  none, some, List, [], ◌∷◌, ◌++◌, map, arith,
}
use ca_op.Prelude.Int.{pos}
use ca_op.Prelude.Panic.{◌>>=◌}
use ca_op.Prelude.Assoc
use ca_op.Prelude.Assoc.{nat_eq, contains}
use ca_op.Ballot.{Ballot}
use ca_op.Clocks.{default_seq_num}
use ca_op.Quorum.{majority, quorum_with, is_prepare_quorum}
use ca_op.Quorum.Intersection.{fast_quorum, recover_threshold}
use ca_op.Config.{ClusterConfig, validate}
use ca_op.Messages
use ca_op.Messages.{Role, accept}
use ca_op.Messages.Paxos.{
  entry_id_key, hash_pair_key, DomHash, default_hash, hash_eq, hash_pair_eq, EntryId,
  UnsyncedLogEntry, UnsyncedLog, Accepted, DomPropose,
}
use ca_op.Storage.Internal
use ca_op.LeaderState.{default_meta, PromiseState, promised, AcceptedMapEntry}
use ca_op.LeaderState.Fast.{matched, get_accepted_map}
use ca_op.Dom.{new_dom}
use ca_op.Dom.Owd.{moving_average, PercentileOps}
use ca_op.Paxos.{SequencePaxos}
use ca_op.Paxos.Proposals.{pending_reconfig_entry, append_with_id}
use ca_op.Paxos.Release.{release_leader}
use ca_op.Paxos.Replica.{reconfigured, pending_reconfig_config, reconfigure}
use ca_op.Paxos.Leader.{handle_forwarded_stopsign}
use ca_op.Paxos.Leader.Decide.{try_fast_decide_idx, handle_accepted}
use ca_op.Paxos.Leader.Recover.{Recovery, Winner, next_winner, run_recovery}
use ca_op.Paxos.Leader.Recover.Rounds.{store}
use ca_op.Paxos.Leader.Recover.Winners.{AreVoted, AreOnce, chain, run_recovery-AreVoted}
use ca_op.LeaderState.Votes.{IsHeld}
use ca_op.Paxos.Leader.Recover.Survives.{next_winner-survives}
use ca_op.Paxos.Leader.FastDecision.{FastDecides, try_fast_decide_idx-FastDecides}
use ca_op.Paxos.Leader.Candidate.{after_votes, try_fast_decide_idx-other_entry}
use ca_op.Paxos.Leader.SlowDecision.{IsLeading, IsCurrent, DecidesChosen, handle_accepted-Decides}
use ca_op.Paxos.Leader.Releasing.{Appends, release_leader-Appends}
use ca_op.Paxos.Leader.Stopping.{Stops, reconfigure-refuses}

abbrev round_of : ℕ → ℕ → Ballot
round_of n pid = record { config_id = 1; n = n; priority = 0; pid = pid }

abbrev hash_at : ℕ → DomHash
hash_at n = record { hash = n }

abbrev meta_at : ℕ → PromiseState
meta_at pid =
    promised (record { n_accepted = round_of 1 1; accepted_idx = 1; decided_idx = 1; pid = pid })

abbrev votes_at_two : AcceptedMapEntry
votes_at_two = record {
  entry_hash = hash_at 9;
  prefix_hash = hash_at 6;
  fast = ((hash_at 6, hash_at 9), 2 ∷ 3 ∷ []) ∷ [];
  slow = 1 ∷ [];
}

-- Two entries are accepted and one of them is decided; the other one has the votes of all nodes.
abbrev leads_three : SequencePaxos ℕ ℕ (List ℕ)
leads_three = record {
  dom =
      new_dom
        (record {
          window_size = 2;
          max_owd = pos 100;
          uncertainty_beta = pos 3;
          strategy = moving_average;
        })
        1;
  internal_storage = record {
    storage = record {
      log = 10 ∷ 11 ∷ [];
      n_prom = some (round_of 2 1);
      acc_round = some (round_of 2 1);
      ld = 1;
      trimmed_idx = 0;
      compacted_idx = 0;
      snapshot = none;
      stopsign = none;
    };
    cache = record {
      batch_size = 1;
      batched_entries = [];
      promise = round_of 2 1;
      accepted_round = round_of 2 1;
      decided_idx = 1;
      accepted_idx = 2;
      compacted_idx = 0;
      stopsign = none;
    };
  };
  pid = 1;
  peers = 2 ∷ 3 ∷ [];
  state = (Messages.Role.leader, accept);
  buffered_proposals = [];
  buffered_stopsign = none;
  outgoing = [];
  leader_state = record {
    n_leader = round_of 2 1;
    promises_meta = meta_at 1 ∷ meta_at 2 ∷ meta_at 3 ∷ [];
    follower_seq_nums = default_seq_num ∷ default_seq_num ∷ default_seq_num ∷ [];
    accepted_indexes = 2 ∷ 1 ∷ 1 ∷ [];
    max_promise_meta = default_meta;
    max_promise_sync = none;
    max_promise_accepted_hash = default_hash;
    latest_accept_meta = none ∷ none ∷ none ∷ [];
    max_pid = 3;
    quorum = majority 2;
    accepted_map = (2, votes_at_two) ∷ [];
    unsynced_log_store = [] ∷ [] ∷ [] ∷ [];
    recovered_remote_entry_ids = [];
    pending_accept_meta = [];
  };
  latest_accepted_meta = none;
  current_seq_num = default_seq_num;
  cached_promise_message = none;
  unsynced_log = [];
  accepted_prefix_hash = hash_at 15;
  unsynced_hash = default_hash;
  enable_fast_path = true;
}

abbrev three_shaped : IsLeading leads_three
three_shaped = ((refl, refl, refl, refl), (tt, (tt, (tt, tt))))

-- The index with three votes is decided.
decides_fast :
    (try_fast_decide_idx leads_three 2 >>= λ r. some r.0.internal_storage.cache.decided_idx)
    ≡ some 2
unfolding try_fast_decide_idx contains Assoc.get fast_quorum hash_pair_eq
decides_fast = refl

try_fast_decide_idx-FastDecides_example :
    (r : SequencePaxos ℕ ℕ (List ℕ) × Bool) × (try_fast_decide_idx leads_three 2 ≡ some r)
    × FastDecides leads_three 2 r
try_fast_decide_idx-FastDecides_example =
    try_fast_decide_idx-FastDecides leads_three 2 three_shaped.0

abbrev no_votes : SequencePaxos ℕ ℕ (List ℕ)
no_votes = record leads_three {
  leader_state = record (leads_three.leader_state) { accepted_map = [] };
}

-- The followers have voted for entry 8, and the leader decides entry 9.
try_fast_decide_idx-other_entry_example :
    (s' : SequencePaxos ℕ ℕ (List ℕ)) × (try_fast_decide_idx
        (after_votes no_votes 2 (hash_at 8, hash_at 6) (hash_at 9, hash_at 6) (2 ∷ 3 ∷ []))
        2
      ≡ some (s', true))
    × (s'.internal_storage ≡ Internal.set_decided_idx no_votes.internal_storage 2)
unfolding contains get_accepted_map Assoc.get fast_quorum
try_fast_decide_idx-other_entry_example =
    try_fast_decide_idx-other_entry no_votes 2 (hash_at 8, hash_at 6) (hash_at 9, hash_at 6) 2
      (3 ∷ []) three_shaped.0 refl refl (omega arith) (omega arith) refl (refl, (refl, tt)) refl
      (omega arith)

abbrev accepted_two : Accepted
accepted_two = record { n = round_of 2 1; accepted_idx = 2 }

handle_accepted-Decides_example :
    (s' : SequencePaxos ℕ ℕ (List ℕ)) × (handle_accepted leads_three accepted_two 2 ≡ some s')
    × (((¬ IsCurrent leads_three accepted_two) × (s' ≡ leads_three))
        ⊎ (IsCurrent leads_three accepted_two
            × DecidesChosen leads_three 2 2 s'
            × (s'.leader_state.accepted_indexes ≡ 2 ∷ 2 ∷ 1 ∷ [])))
handle_accepted-Decides_example =
    handle_accepted-Decides leads_three accepted_two 2 three_shaped (omega arith) (omega arith)

abbrev proposal : DomPropose ℕ
proposal = record {
  entry_id = record { client_id = 7; command_id = 1 };
  sender = 2;
  sent_time = (pos 1, pos 0);
  deadline = pos 20;
  entry = 50;
}

release_leader-Appends_example :
    (s' : SequencePaxos ℕ ℕ (List ℕ)) × (release_leader (λ id t. hash_at 4) leads_three proposal
      ≡ some s')
    × Appends leads_three.internal_storage 50 s'
release_leader-Appends_example =
    release_leader-Appends (λ id t. hash_at 4) leads_three proposal three_shaped (omega arith)
      (omega arith) (omega arith)

abbrev next_cluster : ClusterConfig
next_cluster = record { configuration_id = 2; nodes = 1 ∷ 2 ∷ []; flexible_quorum = none }

abbrev no_percentiles : PercentileOps ℕ
no_percentiles = record { in_range = λ p. true; index = λ n p. 0 }

reconfigure-refuses_example :
    (s' : SequencePaxos ℕ ℕ (List ℕ)) × (reconfigure leads_three next_cluster none
      ≡ some (reconfigured s'))
    × Stops leads_three (record { next_config = next_cluster; metadata = none }) s'
    × (append_with_id no_percentiles s' 50 proposal.entry_id
          (pos 1, pos 0)
          (pos 1, pos 0)
          (pos 1, pos 0)
        ≡ some (pending_reconfig_entry 50))
    × (reconfigure s' next_cluster none ≡ some (pending_reconfig_config next_cluster none))
    × (handle_forwarded_stopsign s' (record { next_config = next_cluster; metadata = none })
        ≡ some s')
reconfigure-refuses_example =
    reconfigure-refuses no_percentiles leads_three next_cluster next_cluster none none 50
      proposal.entry_id (record { next_config = next_cluster; metadata = none }) (pos 1, pos 0)
      (pos 1, pos 0) (pos 1, pos 0) refl refl three_shaped (omega arith) (omega arith) (omega arith)

-- Nodes 2 and 3 have promised; both have entry 60 at index 3, after the hash of the log.
abbrev unsynced_entry : UnsyncedLogEntry ℕ
unsynced_entry = record {
  entry = 60;
  entry_id = record { client_id = 7; command_id = 2 };
  deadline = pos 11;
  entry_hash = hash_at 9;
  prefix_hash = hash_at 15;
}

abbrev log_of : ℕ → UnsyncedLog ℕ
log_of x = if x == 1 then [] else (3, unsynced_entry) ∷ []

abbrev to_recover : Recovery ℕ (List ℕ)
to_recover = record {
  storage = leads_three.internal_storage;
  leader_state = record (leads_three.leader_state) {
    unsynced_log_store = map log_of (1 ∷ 2 ∷ 3 ∷ []);
  };
  expected_prev_hash = hash_at 15;
  recovered_entry_ids = [];
  new_accepted_idx = 2;
}

recovers : (run_recovery 2 [] to_recover).storage.storage.log ≡ 10 ∷ 11 ∷ 60 ∷ []
unfolding run_recovery contains hash_eq
recovers = refl

run_recovery-AreVoted_example :
    let r' = run_recovery 2 [] to_recover in
    (ws : List (Winner ℕ)) × (r'.storage.storage.log ≡ (10 ∷ 11 ∷ []) ++ map (λ w. w.2) ws)
    × (r'.new_accepted_idx ≡ 2 + length ws)
    × (r'.expected_prev_hash ≡ chain (hash_at 15) ws)
    × AreVoted 2 (store to_recover) 3 (hash_at 15) ws
    × AreOnce [] ws
    × (next_winner 2 r' ≡ none)
run_recovery-AreVoted_example = run_recovery-AreVoted 2 [] to_recover refl

abbrev this_cluster : ClusterConfig
this_cluster = record { configuration_id = 1; nodes = 1 ∷ 2 ∷ 3 ∷ []; flexible_quorum = none }

All-at {κ κ'} :
    {A : Type κ} (P : A → Type κ') (xs before later : List A) (x : A)
    → xs ≡ before ++ x ∷ later
    → All P xs
    → P x
All-at P xs [] later x e a = (subst (All P) e a).0
All-at P xs (y ∷ before) later x e a =
    All-at P (before ++ x ∷ later) before later x refl (subst (All P) e a).1

-- An entry at index 3 is that one.
abbrev IsUnsynced : UnsyncedLog ℕ → Type 0
IsUnsynced log =
    (u : UnsyncedLogEntry ℕ)
    → Assoc.get 3 log ≡ some u
    → (u.entry_id ≡ unsynced_entry.entry_id) × (u.entry ≡ 60)

log_of-IsUnsynced : All IsUnsynced (store to_recover)
unfolding Assoc.get
log_of-IsUnsynced = ((λ u e. absurd (ground (arith, e))), (λ u e. same u e, (λ u e. same u e, tt)))
  where
    same :
        (u : UnsyncedLogEntry ℕ)
        → some unsynced_entry ≡ some u
        → (u.entry_id ≡ unsynced_entry.entry_id) × (u.entry ≡ 60)
    same u e =
        let found : unsynced_entry ≡ u =
          ap (λ o. elim o [ none ↦ unsynced_entry | some x ↦ x ]) e in
        (ap (λ v. v.entry_id) (sym found), ap (λ v. v.entry) (sym found))

only_entry :
    (id : EntryId) (e : ℕ)
    → IsHeld 3 (hash_at 15) (hash_at 9) id e (store to_recover)
    → (id ≡ unsynced_entry.entry_id) × (e ≡ 60)
only_entry id e (log, before, later, split, (u, at, _, _, named, held)) =
    let (same_id, same) =
      All-at IsUnsynced (store to_recover) before later log split log_of-IsUnsynced u at in
    (sym named ∙ same_id, sym held ∙ same)

next_winner-survives_example : next_winner (recover_threshold 3) to_recover ≡ (
    if contains unsynced_entry.entry_id []
    then none
    else some (hash_at 9, unsynced_entry.entry_id, 60))
unfolding validate fast_quorum is_prepare_quorum quorum_with matched Assoc.get hash_eq
next_winner-survives_example =
    next_winner-survives this_cluster (λ x. true) (λ x. not (x == 1)) log_of to_recover (hash_at 9)
      unsynced_entry.entry_id 60 refl (omega arith) refl refl
      (
        (λ v. refl),
        (
          (λ v. (unsynced_entry, refl, refl, refl, refl, refl)),
          ((λ v. (unsynced_entry, refl, refl, refl, refl, refl)), tt),
        ),
      )
      only_entry
