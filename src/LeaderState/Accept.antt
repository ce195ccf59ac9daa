-- ===== src/LeaderState/Accept.antt =====
-- The accept phase in `LeaderState` (lib/omnipaxos/src/util.rs): accepted indices, cached messages
-- and the metadata of entries that wait to be sent.
use ca_op.Prelude.{leb, length, take, drop, count, ℕ, Bool, Option, none, some, List, [], ◌∷◌, ◌++◌}
use ca_op.Prelude.Assoc.{contains, insert_set}
use ca_op.Prelude.Panic.{◌>>◌, ◌>>=◌, assert}
use ca_op.Ballot.{Ballot}
use ca_op.Quorum.{is_accept_quorum}
use ca_op.Messages.Paxos.{entry_id_key, EntryId, AcceptedEntryMeta}
use ca_op.LeaderState.{LeaderState, at_pid, set_at_pid, meta_in}

-- `idx.map(|x| (self.n_leader, x))`
abbrev pub accept_meta : Ballot → Option ℕ → Option (Ballot × ℕ)
accept_meta n none = none
accept_meta n (some x) = some (n, x)

module _ {ℓ} {T S : Type ℓ} where
  unfoldable pub set_latest_accept_meta : LeaderState T S → ℕ → Option ℕ → Option (LeaderState T S)
  unfolding set_at_pid
  set_latest_accept_meta s pid idx = do
    ms ← set_at_pid s.latest_accept_meta pid (accept_meta s.n_leader idx)
    some (record s { latest_accept_meta = ms })

  unfoldable pub set_accepted_idx : LeaderState T S → ℕ → ℕ → Option (LeaderState T S)
  unfolding set_at_pid
  set_accepted_idx s pid idx = do
    is ← set_at_pid s.accepted_indexes pid idx
    some (record s { accepted_indexes = is })

  unfoldable pub get_latest_accept_meta : LeaderState T S → ℕ → Option (Option (Ballot × ℕ))
  unfolding at_pid
  get_latest_accept_meta s pid = at_pid s.latest_accept_meta pid

  unfoldable pub get_decided_idx : LeaderState T S → ℕ → Option (Option ℕ)
  unfolding at_pid
  get_decided_idx s pid = do
    p ← at_pid s.promises_meta pid
    some (meta_in p >>= λ m. some m.decided_idx)

  unfoldable pub get_accepted_idx : LeaderState T S → ℕ → Option ℕ
  unfolding at_pid
  get_accepted_idx s pid = at_pid s.accepted_indexes pid

  unfoldable pub is_chosen : LeaderState T S → ℕ → Bool
  is_chosen s idx = is_accept_quorum s.quorum (count (λ la. leb idx la) s.accepted_indexes)

  unfoldable pub insert_recovered_remote_entry_id : LeaderState T S → EntryId → LeaderState T S
  insert_recovered_remote_entry_id s entry_id = record s {
    recovered_remote_entry_ids = insert_set entry_id s.recovered_remote_entry_ids;
  }

  unfoldable pub has_recovered_remote_entry_id : LeaderState T S → EntryId → Bool
  has_recovered_remote_entry_id s entry_id = contains entry_id s.recovered_remote_entry_ids

  unfoldable pub push_pending_accept_meta : LeaderState T S → AcceptedEntryMeta → LeaderState T S
  push_pending_accept_meta s meta = record s {
    pending_accept_meta = s.pending_accept_meta ++ meta ∷ [];
  }

  -- Panics if fewer than `n` are there.
  unfoldable pub take_pending_accept_meta :
      LeaderState T S → ℕ → Option (LeaderState T S × List AcceptedEntryMeta)
  take_pending_accept_meta s n = do
    assert (leb n (length s.pending_accept_meta))
    some (
      record s { pending_accept_meta = drop n s.pending_accept_meta },
      take n s.pending_accept_meta,
    )
