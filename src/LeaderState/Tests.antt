-- ===== src/LeaderState/Tests.antt =====
-- Instances of the theorems: a leader among three nodes.
use ca_op.Prelude.{
  count, All, ℕ, ◌≡◌, refl, Bool, true, false, none, some, List, [], ◌∷◌, ◌++◌, arith,
}
use ca_op.Prelude.Int.{pos}
use ca_op.Prelude.Panic.{◌>>=◌}
use ca_op.Ballot.{Ballot, lt_ballot, eq_ballot}
use ca_op.Quorum.{majority, is_prepare_quorum}
use ca_op.Clocks.{default_seq_num}
use ca_op.Messages.Paxos.{DomHash, default_hash, hash_eq, UnsyncedLogEntry, Promise}
use ca_op.LeaderState.{
  default_meta, gt_meta, not_promised, LeaderState, meta_of, note_max, set_promise,
}
use ca_op.LeaderState.Fast.{get_matched_unsynced_entries}
use ca_op.LeaderState.MetaOrder.{IsAtMost}
use ca_op.LeaderState.Promises.{collect, ChosenFrom, collect-chooses_max}
use ca_op.LeaderState.Answers.{
  Answer, promises, refuses, pids_from, latest, take_answers, set_promise-counts,
}
use ca_op.LeaderState.Votes.{tallied, votes_at, AreHeld, get_matched_unsynced_entries-count}

abbrev ballot_of : ℕ → ℕ → Ballot
ballot_of n pid = record { config_id = 1; n = n; priority = 0; pid = pid }

abbrev elected : LeaderState ℕ ℕ
elected = record {
  n_leader = ballot_of 2 1;
  promises_meta = not_promised ∷ not_promised ∷ not_promised ∷ [];
  follower_seq_nums = default_seq_num ∷ record { session = 1; counter = 3 } ∷ default_seq_num ∷ [];
  accepted_indexes = 4 ∷ 3 ∷ 1 ∷ [];
  max_promise_meta = default_meta;
  max_promise_sync = none;
  max_promise_accepted_hash = default_hash;
  latest_accept_meta = none ∷ none ∷ none ∷ [];
  max_pid = 3;
  quorum = majority 2;
  accepted_map = [];
  unsynced_log_store = [] ∷ [] ∷ [] ∷ [];
  recovered_remote_entry_ids = [];
  pending_accept_meta = [];
}

abbrev promise_at : ℕ → ℕ → Promise ℕ ℕ
promise_at n idx = record {
  n = ballot_of 2 1;
  n_accepted = ballot_of n 3;
  decided_idx = 0;
  accepted_idx = idx;
  log_sync = none;
  log_unsync = none;
  log_prefix_hash = record { hash = idx };
}

-- Node 2 promises and then refuses; with the promises of 3 and 1 there is a quorum of two.
abbrev three_answers : List (Answer ℕ ℕ)
three_answers = promises (promise_at 1 4) 2 ∷ refuses 2 ∷ promises (promise_at 1 6) 3 ∷ []

abbrev last_answer : ℕ → Bool
last_answer = latest (λ pid. false) (three_answers ++ promises (promise_at 1 4) 1 ∷ [])

counts_two : count last_answer (pids_from 1 3) ≡ 2
counts_two = refl

set_promise-counts_example :
    (s' : LeaderState ℕ ℕ) × (s'' : LeaderState ℕ ℕ) × (take_answers elected three_answers
      ≡ some s')
    × (set_promise s' (promise_at 1 4) 1 true
        ≡ some (s'', is_prepare_quorum (majority 2) (count last_answer (pids_from 1 3))))
set_promise-counts_example =
    set_promise-counts 3 elected three_answers (promise_at 1 4) 1 refl
      ((omega arith, omega arith), ((omega arith, omega arith), ((omega arith, omega arith), tt)))
      (omega arith, omega arith)

-- The second promise has the longer log of the same round.
abbrev two_promises : List (Promise ℕ ℕ × ℕ)
two_promises = (promise_at 1 4, 2) ∷ (promise_at 1 6, 3) ∷ []

chooses :
    (collect elected two_promises >>= λ s. some s.max_promise_accepted_hash)
    ≡ some (record { hash = 6 })
unfolding collect set_promise note_max gt_meta eq_ballot lt_ballot
chooses = refl

collect-chooses_max_example :
    (s' : LeaderState ℕ ℕ) × (collect elected two_promises ≡ some s')
    × All (λ r. IsAtMost (meta_of r.0 r.1) s'.max_promise_meta) two_promises
    × IsAtMost elected.max_promise_meta s'.max_promise_meta
    × ChosenFrom elected s' two_promises
collect-chooses_max_example =
    collect-chooses_max elected two_promises
      ((omega arith, omega arith), ((omega arith, omega arith), tt))

abbrev hash_of : ℕ → DomHash
hash_of n = record { hash = n }

abbrev unsynced : ℕ → UnsyncedLogEntry ℕ
unsynced h = record {
  entry = 50;
  entry_id = record { client_id = 7; command_id = 1 };
  deadline = pos 11;
  entry_hash = hash_of h;
  prefix_hash = hash_of 6;
}

abbrev stored : LeaderState ℕ ℕ
stored = record elected {
  unsynced_log_store =
      ((5, unsynced 9) ∷ [])
      ∷ ((4, unsynced 8) ∷ (5, unsynced 9) ∷ [])
      ∷ ((5, unsynced 8) ∷ [])
      ∷ [];
}

counts_votes : tallied (hash_of 9) (get_matched_unsynced_entries stored 5 (hash_of 6)) ≡ 2
unfolding tallied get_matched_unsynced_entries hash_eq
counts_votes = refl

get_matched_unsynced_entries-count_example :
    (tallied (hash_of 9) (get_matched_unsynced_entries stored 5 (hash_of 6))
      ≡ count (votes_at 5 (hash_of 6) (hash_of 9)) stored.unsynced_log_store)
    × AreHeld 5
        (hash_of 6)
        stored.unsynced_log_store
        (get_matched_unsynced_entries stored 5 (hash_of 6))
get_matched_unsynced_entries-count_example =
    get_matched_unsynced_entries-count stored 5 (hash_of 6) (hash_of 9)
