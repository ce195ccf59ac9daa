-- ===== src/Messages/Paxos.antt =====
-- The messages of Sequence Paxos: `sequence_paxos` of lib/omnipaxos/src/messages.rs, with
-- `DOMHash` and `UnsyncedLogEntry` of lib/omnipaxos/src/util.rs. Times are `i64` numbers.
use Prim.Native.Nat.{bit_xor}
use ca_op.Prelude.{◌==◌, ℕ, ◌≡◌, ◌↔◌, Bool, true, ◌&&◌, Option, List, arith}
use ca_op.Prelude.Int.{ℤ}
use ca_op.Prelude.Assoc.{Eq}
use ca_op.Ballot.{Ballot}
use ca_op.Storage.{StopSign, LogSync}
use ca_op.Clocks.{SequenceNumber}

-- `DOMHash`; its equality is that of the hash values.
pub record DomHash : Type 0 where
  pub hash : ℕ

abbrev pub default_hash : DomHash
default_hash = record { hash = 0 }

unfoldable pub extend_hash : DomHash → DomHash → DomHash
extend_hash self other = record { hash = bit_xor self.hash other.hash }

unfoldable pub remove_hash : DomHash → DomHash → DomHash
unfolding extend_hash
remove_hash self other = extend_hash self other

unfoldable pub hash_eq : DomHash → DomHash → Bool
hash_eq a b = a.hash == b.hash

pub hash_eq_iff : (a b : DomHash) → (hash_eq a b ≡ true) ↔ (a ≡ b)
unfolding hash_eq
hash_eq_iff a b = ground arith

instance abbrev pub hash_key : Eq DomHash
hash_key = record { beq = hash_eq; beq_iff = hash_eq_iff }

-- A key of the votes of an entry: the hash of its prefix and its own.
unfoldable pub hash_pair_eq : DomHash × DomHash → DomHash × DomHash → Bool
unfolding hash_eq
hash_pair_eq (a, b) (c, d) = hash_eq a c && hash_eq b d

pub hash_pair_eq_iff : (p q : DomHash × DomHash) → (hash_pair_eq p q ≡ true) ↔ (p ≡ q)
unfolding hash_pair_eq
hash_pair_eq_iff p q = ground arith

instance abbrev pub hash_pair_key : Eq (DomHash × DomHash)
hash_pair_key = record { beq = hash_pair_eq; beq_iff = hash_pair_eq_iff }

pub record EntryId : Type 0 where
  pub client_id : ℕ
  pub command_id : ℕ

unfoldable pub entry_id_eq : EntryId → EntryId → Bool
entry_id_eq a b = (a.client_id == b.client_id) && (a.command_id == b.command_id)

pub entry_id_eq_iff : (a b : EntryId) → (entry_id_eq a b ≡ true) ↔ (a ≡ b)
unfolding entry_id_eq
entry_id_eq_iff a b = ground arith

instance abbrev pub entry_id_key : Eq EntryId
entry_id_key = record { beq = entry_id_eq; beq_iff = entry_id_eq_iff }

pub record UnsyncedLogEntry {ℓ} (T : Type ℓ) : Type ℓ where
  pub entry : T
  pub entry_id : EntryId
  pub deadline : ℤ
  pub entry_hash : DomHash
  pub prefix_hash : DomHash

pub record PrepareReq : Type 0 where
  pub n : Ballot

pub record Prepare : Type 0 where
  pub n : Ballot
  pub decided_idx : ℕ
  pub n_accepted : Ballot
  pub accepted_idx : ℕ

-- The unsynced log is a map from log indices.
abbrev pub UnsyncedLog {ℓ} : Type ℓ → Type ℓ
UnsyncedLog T = List (ℕ × UnsyncedLogEntry T)

pub record Promise {ℓ} (T S : Type ℓ) : Type ℓ where
  pub n : Ballot
  pub n_accepted : Ballot
  pub decided_idx : ℕ
  pub accepted_idx : ℕ
  pub log_sync : Option (LogSync T S)
  pub log_unsync : Option (UnsyncedLog T)
  pub log_prefix_hash : DomHash

pub record AcceptSync {ℓ} (T S : Type ℓ) : Type ℓ where
  pub n : Ballot
  pub seq_num : SequenceNumber
  pub decided_idx : ℕ
  pub log_sync : LogSync T S
  pub log_prefix_hash : DomHash

pub record AcceptedEntryMeta : Type 0 where
  pub entry_id : EntryId
  pub deadline : ℤ

pub record AcceptDecide {ℓ} (T : Type ℓ) : Type ℓ where
  pub n : Ballot
  pub seq_num : SequenceNumber
  pub decided_idx : ℕ
  pub entries : List T
  pub entry_meta : List AcceptedEntryMeta
  pub log_prefix_hash : DomHash

pub record Accepted : Type 0 where
  pub n : Ballot
  pub accepted_idx : ℕ

pub record FastAccepted : Type 0 where
  pub n : Ballot
  pub idx : ℕ
  pub entry_hash : DomHash
  pub prefix_hash : DomHash

pub record Decide : Type 0 where
  pub n : Ballot
  pub seq_num : SequenceNumber
  pub decided_idx : ℕ

pub record AcceptStopSign : Type 0 where
  pub n : Ballot
  pub seq_num : SequenceNumber
  pub ss : StopSign

pub record NotAccepted : Type 0 where
  pub n : Ballot

-- A time stamp and its uncertainty.
abbrev pub ClockTimestamp : Type 0
ClockTimestamp = ℤ × ℤ

pub record DomPropose {ℓ} (T : Type ℓ) : Type ℓ where
  pub entry_id : EntryId
  pub sender : ℕ
  pub sent_time : ClockTimestamp
  pub deadline : ℤ
  pub entry : T

pub record DomAck : Type 0 where
  pub sender : ℕ
  pub estimated_owd : ℤ

pub data Compaction : Type 0 where
  trim_to : ℕ → Compaction
  snapshot_to : Option ℕ → Compaction

pub data PaxosMsg {ℓ} (T S : Type ℓ) : Type ℓ where
  prepare_req : PrepareReq → PaxosMsg T S
  prepare_msg : Prepare → PaxosMsg T S
  promise : Promise T S → PaxosMsg T S
  accept_sync : AcceptSync T S → PaxosMsg T S
  accept_decide : AcceptDecide T → PaxosMsg T S
  accepted : Accepted → PaxosMsg T S
  fast_accepted : FastAccepted → PaxosMsg T S
  not_accepted : NotAccepted → PaxosMsg T S
  decide_msg : Decide → PaxosMsg T S
  compaction : Compaction → PaxosMsg T S
  accept_stop_sign : AcceptStopSign → PaxosMsg T S
  forward_stop_sign : StopSign → PaxosMsg T S
  dom_propose : DomPropose T → PaxosMsg T S
  dom_ack : DomAck → PaxosMsg T S

pub record PaxosMessage {ℓ} (T S : Type ℓ) : Type ℓ where
  pub from : ℕ
  pub to : ℕ
  pub msg : PaxosMsg T S
