-- ===== src/Quorum.antt =====
-- `FlexibleQuorum` and `Quorum` of lib/omnipaxos/src/util.rs.
pub mod Intersection
use ca_op.Prelude.{leb, ℕ, ◌+◌, ◌/◌, Bool, Option, none, some}

pub record FlexibleQuorum : Type 0 where
  pub read_quorum_size : ℕ
  pub write_quorum_size : ℕ

pub data Quorum : Type 0 where
  majority : ℕ → Quorum
  flexible : FlexibleQuorum → Quorum

-- `Quorum::with`
unfoldable pub quorum_with : Option FlexibleQuorum → ℕ → Quorum
quorum_with (some q) num_nodes = flexible q
quorum_with none num_nodes = majority (num_nodes / 2 + 1)

unfoldable pub is_prepare_quorum : Quorum → ℕ → Bool
is_prepare_quorum (majority m) num_nodes = leb m num_nodes
is_prepare_quorum (flexible q) num_nodes = leb q.read_quorum_size num_nodes

unfoldable pub is_accept_quorum : Quorum → ℕ → Bool
is_accept_quorum (majority m) num_nodes = leb m num_nodes
is_accept_quorum (flexible q) num_nodes = leb q.write_quorum_size num_nodes
