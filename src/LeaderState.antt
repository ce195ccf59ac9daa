-- ===== src/LeaderState.antt =====
-- `PromiseMetaData`, `AcceptedMapEntry` and `LeaderState` of lib/omnipaxos/src/util.rs. A vector is
-- read and written at `pid - 1`, which panics out of bounds.
pub mod Accept
pub mod Fast
pub mod MetaOrder
pub mod Promises
pub mod Answers
pub mod Indexes
pub mod Votes
mod Tests
use ca_op.Prelude.{
  ltb, ◌==◌, if◌then◌else◌, length, get_elem?, set, replicate, count, inc_u64, sub_usize, ℕ, ◌+◌,
  min, max, Bool, true, false, not, ◌&&◌, ◌||◌, Option, none, some, List, [], ◌∷◌,
}
use ca_op.Prelude.Panic.{◌>>=◌}
use ca_op.Ballot.{Ballot, default_ballot, lt_ballot, eq_ballot}
use ca_op.Quorum.{Quorum, is_prepare_quorum}
use ca_op.Storage.{LogSync}
use ca_op.Clocks.{SequenceNumber, default_seq_num}
use ca_op.Messages.Paxos.{DomHash, default_hash, EntryId, UnsyncedLog, Promise, AcceptedEntryMeta}

pub record PromiseMetaData : Type 0 where
  pub n_accepted : Ballot
  pub accepted_idx : ℕ
  pub decided_idx : ℕ
  pub pid : ℕ

-- `PromiseMetaData::default()`
abbrev pub default_meta : PromiseMetaData
default_meta = record { n_accepted = default_ballot; accepted_idx = 0; decided_idx = 0; pid = 0 }

-- `a > b` by `PartialOrd`.
unfoldable pub gt_meta : PromiseMetaData → PromiseMetaData → Bool
gt_meta a b =
    if eq_ballot a.n_accepted b.n_accepted && (a.accepted_idx == b.accepted_idx) && (a.pid == b.pid)
    then false
    else lt_ballot b.n_accepted a.n_accepted
      || (eq_ballot a.n_accepted b.n_accepted && ltb b.accepted_idx a.accepted_idx)

pub data PromiseState : Type 0 where
  not_promised : PromiseState
  promised : PromiseMetaData → PromiseState
  promised_higher : PromiseState

pub record AcceptedMapEntry : Type 0 where
  pub entry_hash : DomHash
  pub prefix_hash : DomHash
  pub fast : List ((DomHash × DomHash) × List ℕ)
  pub slow : List ℕ

pub record LeaderState {ℓ} (T S : Type ℓ) : Type ℓ where
  pub n_leader : Ballot
  pub promises_meta : List PromiseState
  pub follower_seq_nums : List SequenceNumber
  pub accepted_indexes : List ℕ
  pub max_promise_meta : PromiseMetaData
  pub max_promise_sync : Option (LogSync T S)
  pub max_promise_accepted_hash : DomHash
  pub latest_accept_meta : List (Option (Ballot × ℕ))
  pub max_pid : ℕ
  pub quorum : Quorum
  pub accepted_map : List (ℕ × AcceptedMapEntry)
  pub unsynced_log_store : List (UnsyncedLog T)
  pub recovered_remote_entry_ids : List EntryId
  pub pending_accept_meta : List AcceptedEntryMeta

unfoldable pub pid_to_idx : ℕ → ℕ
pid_to_idx pid = sub_usize pid 1

module _ {ℓ} {A : Type ℓ} where
  -- `v[pid_to_idx(pid)]`
  unfoldable pub at_pid : List A → ℕ → Option A
  unfolding pid_to_idx
  at_pid v pid = get_elem? v (pid_to_idx pid)

  -- `v[pid_to_idx(pid)] = a`
  unfoldable pub set_at_pid : List A → ℕ → A → Option (List A)
  unfolding pid_to_idx
  set_at_pid v pid a =
      if ltb (pid_to_idx pid) (length v) then some (set v (pid_to_idx pid) a) else none

abbrev pub is_promised : PromiseState → Bool
is_promised not_promised = false
is_promised (promised m) = true
is_promised promised_higher = false

abbrev pub is_not_promised : PromiseState → Bool
is_not_promised not_promised = true
is_not_promised (promised m) = false
is_not_promised promised_higher = false

-- The followers of the list of promises that starts at index `i`, without the leader's index.
unfoldable pub promised_from : ℕ → ℕ → List PromiseState → List ℕ
promised_from leader_idx i [] = []
promised_from leader_idx i (p ∷ ps) =
    if is_promised p && not (i == leader_idx)
    then (i + 1) ∷ promised_from leader_idx (i + 1) ps
    else promised_from leader_idx (i + 1) ps

-- `filter_map` to the decided indices, and `max`.
unfoldable pub max_decided_from : ℕ → List PromiseState → ℕ
max_decided_from acc [] = acc
max_decided_from acc (promised m ∷ ps) = max_decided_from (max acc m.decided_idx) ps
max_decided_from acc (not_promised ∷ ps) = max_decided_from acc ps
max_decided_from acc (promised_higher ∷ ps) = max_decided_from acc ps

unfoldable pub min_from : ℕ → List ℕ → ℕ
min_from acc [] = acc
min_from acc (x ∷ xs) = min_from (min acc x) xs

abbrev pub meta_in : PromiseState → Option PromiseMetaData
meta_in not_promised = none
meta_in (promised m) = some m
meta_in promised_higher = none

abbrev pub min_of : List ℕ → Option ℕ
min_of [] = none
min_of (x ∷ xs) = some (min_from x xs)

module _ {ℓ} {T S : Type ℓ} where
  -- `LeaderState::with`
  unfoldable pub leader_state_with : Ballot → ℕ → Quorum → LeaderState T S
  leader_state_with n_leader max_pid quorum = record {
    n_leader = n_leader;
    promises_meta = replicate max_pid not_promised;
    follower_seq_nums = replicate max_pid default_seq_num;
    accepted_indexes = replicate max_pid 0;
    max_promise_meta = default_meta;
    max_promise_sync = none;
    max_promise_accepted_hash = default_hash;
    latest_accept_meta = replicate max_pid none;
    max_pid = max_pid;
    quorum = quorum;
    accepted_map = [];
    unsynced_log_store = replicate max_pid [];
    recovered_remote_entry_ids = [];
    pending_accept_meta = [];
  }

  unfoldable pub increment_seq_num_session : LeaderState T S → ℕ → Option (LeaderState T S)
  unfolding at_pid set_at_pid
  increment_seq_num_session s pid = do
    n ← at_pid s.follower_seq_nums pid
    ns ← set_at_pid s.follower_seq_nums pid (record { session = inc_u64 n.session; counter = 0 })
    some (record s { follower_seq_nums = ns })

  unfoldable pub next_seq_num : LeaderState T S → ℕ → Option (LeaderState T S × SequenceNumber)
  unfolding at_pid set_at_pid
  next_seq_num s pid = do
    n ← at_pid s.follower_seq_nums pid
    let n' = record n { counter = inc_u64 n.counter }
    ns ← set_at_pid s.follower_seq_nums pid n'
    some (record s { follower_seq_nums = ns }, n')

  unfoldable pub get_seq_num : LeaderState T S → ℕ → Option SequenceNumber
  unfolding at_pid
  get_seq_num s pid = at_pid s.follower_seq_nums pid

  -- The store ignores a pid out of bounds.
  unfoldable pub set_unsynced_log : LeaderState T S → ℕ → UnsyncedLog T → LeaderState T S
  unfolding pid_to_idx
  set_unsynced_log s pid unsynced_log = record s {
    unsynced_log_store = set s.unsynced_log_store (pid_to_idx pid) unsynced_log;
  }

  abbrev pub meta_of : Promise T S → ℕ → PromiseMetaData
  meta_of prom from = record {
    n_accepted = prom.n_accepted;
    accepted_idx = prom.accepted_idx;
    decided_idx = prom.decided_idx;
    pid = from;
  }

  -- The largest promise so far, with its log update and hash.
  unfoldable pub note_max : LeaderState T S → Promise T S → ℕ → Bool → LeaderState T S
  note_max s prom from check_max_prom =
      if check_max_prom && gt_meta (meta_of prom from) s.max_promise_meta
      then record s {
        max_promise_meta = meta_of prom from;
        max_promise_sync = prom.log_sync;
        max_promise_accepted_hash = prom.log_prefix_hash;
      }
      else s

  abbrev pub note_unsynced : LeaderState T S → ℕ → Option (UnsyncedLog T) → LeaderState T S
  note_unsynced s from none = s
  note_unsynced s from (some unsynced_log) = set_unsynced_log s from unsynced_log

  unfoldable pub set_promise :
      LeaderState T S → Promise T S → ℕ → Bool → Option (LeaderState T S × Bool)
  unfolding set_at_pid set_unsynced_log
  set_promise s prom from check_max_prom = do
    let s' = note_max s prom from check_max_prom
    ps ← set_at_pid s'.promises_meta from (promised (meta_of prom from))
    let s'' = note_unsynced (record s' { promises_meta = ps }) from prom.log_unsync
    some (s'', is_prepare_quorum s''.quorum (count is_promised s''.promises_meta))

  unfoldable pub reset_promise : LeaderState T S → ℕ → Option (LeaderState T S)
  unfolding set_at_pid
  reset_promise s pid = do
    ps ← set_at_pid s.promises_meta pid not_promised
    some (record s { promises_meta = ps })

  unfoldable pub lost_promise : LeaderState T S → ℕ → Option (LeaderState T S)
  unfolding set_at_pid
  lost_promise s pid = do
    ps ← set_at_pid s.promises_meta pid promised_higher
    some (record s { promises_meta = ps })

  unfoldable pub take_max_promise_sync : LeaderState T S → LeaderState T S × Option (LogSync T S)
  take_max_promise_sync s = (record s { max_promise_sync = none }, s.max_promise_sync)

  unfoldable pub get_max_decided_idx : LeaderState T S → ℕ
  unfolding max_decided_from
  get_max_decided_idx s = max_decided_from 0 s.promises_meta

  unfoldable pub get_promise_meta : LeaderState T S → ℕ → Option PromiseMetaData
  unfolding at_pid
  get_promise_meta s pid = do p ← at_pid s.promises_meta pid; meta_in p

  unfoldable pub get_min_all_accepted_idx : LeaderState T S → Option ℕ
  get_min_all_accepted_idx s = min_of s.accepted_indexes

  unfoldable pub reset_latest_accept_meta : LeaderState T S → LeaderState T S
  reset_latest_accept_meta s = record s { latest_accept_meta = replicate s.max_pid none }

  unfoldable pub get_promised_followers : LeaderState T S → List ℕ
  unfolding promised_from pid_to_idx
  get_promised_followers s = promised_from (pid_to_idx s.n_leader.pid) 0 s.promises_meta

  unfoldable pub get_preparable_peers : LeaderState T S → List ℕ → Option (List ℕ)
  unfolding at_pid
  get_preparable_peers s [] = some []
  get_preparable_peers s (pid ∷ peers) = do
    p ← at_pid s.promises_meta pid
    rest ← get_preparable_peers s peers
    some (if is_not_promised p then pid ∷ rest else rest)
