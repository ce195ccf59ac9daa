-- ===== src/Messages.antt =====
-- The heartbeat messages of lib/omnipaxos/src/messages.rs, and the role and phase of a replica
-- (lib/omnipaxos/src/sequence_paxos/mod.rs), which the election reads.
pub mod Paxos
use ca_op.Prelude.{ℕ, Bool}
use ca_op.Ballot.{Ballot}

pub data Role : Type 0 where
  follower leader : Role

pub data Phase : Type 0 where
  prepare accept recover none_phase : Phase

pub record HeartbeatRequest : Type 0 where
  pub round : ℕ

pub record HeartbeatReply : Type 0 where
  pub round : ℕ
  pub ballot : Ballot
  pub leader : Ballot
  pub happy : Bool

pub data HeartbeatMsg : Type 0 where
  request : HeartbeatRequest → HeartbeatMsg
  reply : HeartbeatReply → HeartbeatMsg

pub record BleMessage : Type 0 where
  pub from : ℕ
  pub to : ℕ
  pub msg : HeartbeatMsg
