-- ===== src/OmniPaxos/Requests.antt =====
-- The requests of the user of a server: reads, proposals and compaction
-- (lib/omnipaxos/src/omni_paxos.rs). `none` is a panic.
use ca_op.Prelude.{ℕ, ◌+◌, Bool, Option, none, some, List, [], ◌∷◌}
use ca_op.Prelude.Panic.{◌>>=◌}
use ca_op.Config.{ClusterConfig, ConfigError, Validated, valid, invalid, validate}
use ca_op.Messages.Paxos.{EntryId, ClockTimestamp}
use ca_op.Storage.{SnapshotOps}
use ca_op.Storage.Internal.Read
use ca_op.Storage.Internal.Read.{LogEntry, Bound, included, excluded, Outcome, returned, panicked}
use ca_op.Dom.Owd.{PercentileOps}
use ca_op.Paxos
use ca_op.Paxos.{SequencePaxos}
use ca_op.Paxos.Proposals
use ca_op.Paxos.Proposals.{Proposed, proposed, pending_reconfig_entry}
use ca_op.Paxos.Compact
use ca_op.Paxos.Compact.{Compacted, compacted, refused}
use ca_op.Paxos.Replica
use ca_op.Paxos.Replica.{Reconfigured, reconfigured, pending_reconfig_config}
use ca_op.OmniPaxos.{OmniPaxos, with_paxos}

-- The result of `reconfigure`: an invalid configuration is refused as well.
pub data Reconfiguration {ℓ} (A : Type ℓ) : Type ℓ where
  proposed_by : Reconfigured A → Reconfiguration A
  config_error : ConfigError → ClusterConfig → Option (List ℕ) → Reconfiguration A

-- The last entry of a read, by `pop`. A read that panics is `none`.
abbrev pub pop_entry {ℓ} : {A : Type ℓ} → Outcome (List A) → Option (Option A)
pop_entry (returned none) = some none
pop_entry (returned (some [])) = some none
pop_entry (returned (some (x ∷ []))) = some (some x)
pop_entry (returned (some (x ∷ y ∷ xs))) = pop_entry (returned (some (y ∷ xs)))
pop_entry panicked = none

module _ {ℓ} {F : Type 0} {T S : Type ℓ} where
  unfoldable pub read : OmniPaxos F T S → ℕ → Option (Option (LogEntry T S))
  unfolding Read.read
  read s idx =
      pop_entry (Read.read s.seq_paxos.internal_storage (included idx) (excluded (idx + 1)))

  unfoldable pub read_entries : OmniPaxos F T S → Bound → Bound → Outcome (List (LogEntry T S))
  unfolding Read.read
  read_entries s start_bound end_bound =
      Read.read s.seq_paxos.internal_storage start_bound end_bound

  unfoldable pub read_decided_suffix : OmniPaxos F T S → ℕ → Outcome (List (LogEntry T S))
  unfolding Read.read_decided_suffix
  read_decided_suffix s from_idx = Read.read_decided_suffix s.seq_paxos.internal_storage from_idx

  unfoldable pub reconnected : OmniPaxos F T S → ℕ → OmniPaxos F T S
  unfolding Paxos.reconnected
  reconnected s pid = with_paxos s (Paxos.reconnected s.seq_paxos pid)

  -- A result of the replica, as one of the server.
  abbrev pub reconfigured_in :
      OmniPaxos F T S → Reconfigured (SequencePaxos F T S) → Reconfigured (OmniPaxos F T S)
  reconfigured_in s (reconfigured seq_paxos) = reconfigured (with_paxos s seq_paxos)
  reconfigured_in s (pending_reconfig_config c metadata) = pending_reconfig_config c metadata

  abbrev pub compacted_in :
      OmniPaxos F T S → Compacted (SequencePaxos F T S) → Compacted (OmniPaxos F T S)
  compacted_in s (compacted seq_paxos) = compacted (with_paxos s seq_paxos)
  compacted_in s (refused e) = refused e

  abbrev pub proposed_in :
      OmniPaxos F T S → Proposed (SequencePaxos F T S) T → Proposed (OmniPaxos F T S) T
  proposed_in s (proposed seq_paxos) = proposed (with_paxos s seq_paxos)
  proposed_in s (pending_reconfig_entry x) = pending_reconfig_entry x

  -- The result of the validation, and the proposal to the replica.
  abbrev pub reconfigure_if :
      OmniPaxos F T S
      → ClusterConfig
      → Option (List ℕ)
      → Validated
      → Option (Reconfiguration (OmniPaxos F T S))
  reconfigure_if s new_configuration metadata (invalid e) =
      some (config_error e new_configuration metadata)
  reconfigure_if s new_configuration metadata valid =
      Replica.reconfigure s.seq_paxos new_configuration metadata >>= λ r.
      some (proposed_by (reconfigured_in s r))

  unfoldable pub reconfigure :
      OmniPaxos F T S → ClusterConfig → Option (List ℕ) → Option (Reconfiguration (OmniPaxos F T S))
  unfolding validate Replica.reconfigure
  reconfigure s new_configuration metadata =
      reconfigure_if s new_configuration metadata (validate new_configuration)

  unfoldable pub trim : OmniPaxos F T S → Option ℕ → Option (Compacted (OmniPaxos F T S))
  unfolding Compact.trim
  trim s trim_index = Compact.trim s.seq_paxos trim_index >>= λ r. some (compacted_in s r)

module _ {ℓ} {F : Type 0} {T S : Type ℓ} (ops : SnapshotOps T S) where
  unfoldable pub snapshot : OmniPaxos F T S → Option ℕ → Bool → Compacted (OmniPaxos F T S)
  unfolding Compact.snapshot
  snapshot s compact_idx local_only =
      compacted_in s (Compact.snapshot ops s.seq_paxos compact_idx local_only)

module _ {ℓ} {F : Type 0} {T S : Type ℓ} (percentiles : PercentileOps F)
    (clock : ℕ → ClockTimestamp) where
  unfoldable pub append_with_id :
      OmniPaxos F T S → T → EntryId → Option (Proposed (OmniPaxos F T S) T)
  unfolding Proposals.append_with_id
  append_with_id s x entry_id =
      Proposals.append_with_id percentiles s.seq_paxos x entry_id (clock 0) (clock 1) (clock 2)
      >>= λ r. some (proposed_in s r)
