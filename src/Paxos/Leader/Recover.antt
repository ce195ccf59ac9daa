-- ===== src/Paxos/Leader/Recover.antt =====
-- The recovery of entries from the unsynced logs of the promises: the loop of
-- `handle_majority_promises` of lib/omnipaxos/src/sequence_paxos/leader.rs.
pub mod Rounds
pub mod Winners
pub mod Complete
pub mod Survives
use ca_op.Prelude.{
  ltb, leb, if◌then◌else◌, length, keep, ℕ, zero, suc, ◌+◌, Bool, false, not, ◌&&◌, ◌||◌, Option,
  none, some, List, [], ◌∷◌,
}
use ca_op.Prelude.Assoc.{contains, insert_set}
use ca_op.Messages.Paxos.{entry_id_key, DomHash, extend_hash, EntryId, entry_id_eq, UnsyncedLog}
use ca_op.Storage.Internal.{InternalStorage, append_entries_without_batching}
use ca_op.LeaderState.{LeaderState}
use ca_op.LeaderState.Accept.{insert_recovered_remote_entry_id}
use ca_op.LeaderState.Fast.{Tally, get_matched_unsynced_entries}

-- The state of the loop `'recover`: what it changes of the replica, and its variables.
pub record Recovery {ℓ} (T S : Type ℓ) : Type ℓ where
  pub storage : InternalStorage T S
  pub leader_state : LeaderState T S
  pub expected_prev_hash : DomHash
  pub recovered_entry_ids : List EntryId
  pub new_accepted_idx : ℕ

-- An entry that may be recovered: its hash, its id and the entry itself.
abbrev pub Winner {ℓ} : Type ℓ → Type ℓ
Winner T = DomHash × EntryId × T

module _ {ℓ} {T : Type ℓ} where
  -- The candidates with enough votes.
  unfoldable pub winners : ℕ → Tally T → List (Winner T)
  winners threshold [] = []
  winners threshold ((h, (cnt, id, e)) ∷ counts) =
      if leb threshold cnt then (h, id, e) ∷ winners threshold counts else winners threshold counts

  -- No winner, or a collision of two, ends the recovery.
  abbrev pub sole : List (Winner T) → Option (Winner T)
  sole [] = none
  sole (w ∷ []) = some w
  sole (w ∷ w' ∷ ws) = none

  -- A request that was recovered before ends it as well.
  abbrev pub unless_recovered : List EntryId → Option (Winner T) → Option (Winner T)
  unless_recovered ids none = none
  unless_recovered ids (some (h, id, e)) = if contains id ids then none else some (h, id, e)

  -- Whether the own unsynced log has a request.
  unfoldable pub has_entry_id : UnsyncedLog T → EntryId → Bool
  unfolding entry_id_eq
  has_entry_id [] id = false
  has_entry_id ((i, e) ∷ log) id = entry_id_eq e.entry_id id || has_entry_id log id

  -- `self.unsynced_log.retain(..)`
  unfoldable pub retain_unsynced : ℕ → List EntryId → UnsyncedLog T → UnsyncedLog T
  unfolding contains
  retain_unsynced accepted_idx ids log =
      keep (λ (i, e). ltb accepted_idx i && not (contains e.entry_id ids)) log

  -- All entries of the unsynced logs that the leader has collected.
  unfoldable pub entries_in : List (UnsyncedLog T) → ℕ
  entries_in [] = 0
  entries_in (log ∷ logs) = length log + entries_in logs

module _ {ℓ} {T S : Type ℓ} where
  -- The next entry of the recovery, if there is one.
  unfoldable pub next_winner : ℕ → Recovery T S → Option (Winner T)
  unfolding winners get_matched_unsynced_entries contains
  next_winner threshold r = unless_recovered r.recovered_entry_ids (
      sole (
        winners threshold (
          get_matched_unsynced_entries r.leader_state (r.new_accepted_idx + 1)
            r.expected_prev_hash)))

  -- The rest of a round, with the winner at hand; `own` is the leader's unsynced log.
  unfoldable pub recover_entry : UnsyncedLog T → Recovery T S → Winner T → Recovery T S
  unfolding has_entry_id insert_recovered_remote_entry_id insert_set append_entries_without_batching
      extend_hash
  recover_entry own r (h, id, e) =
      let (storage, accepted_idx) = append_entries_without_batching r.storage (e ∷ []) in
      record {
        storage = storage;
        leader_state =
            if has_entry_id own id
            then r.leader_state
            else insert_recovered_remote_entry_id r.leader_state id;
        expected_prev_hash = extend_hash r.expected_prev_hash h;
        recovered_entry_ids = insert_set id r.recovered_entry_ids;
        new_accepted_idx = accepted_idx;
      }

  -- The loop `'recover`, with fuel.
  unfoldable pub recover_loop : ℕ → ℕ → UnsyncedLog T → Recovery T S → Recovery T S
  unfolding next_winner recover_entry
  recover_loop zero threshold own r = r
  recover_loop (suc fuel) threshold own r = elim (next_winner threshold r) [
    | none ↦ r
    | some w ↦ recover_loop fuel threshold own (recover_entry own r w)
  ]

  -- Each round takes an index of its own from the logs, so their entries are enough fuel.
  unfoldable pub run_recovery : ℕ → UnsyncedLog T → Recovery T S → Recovery T S
  unfolding recover_loop entries_in
  run_recovery threshold own r =
      recover_loop (entries_in r.leader_state.unsynced_log_store) threshold own r
