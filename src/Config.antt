-- ===== src/Config.antt =====
-- `ClusterConfig` and its validation (lib/omnipaxos/src/omni_paxos.rs), with the errors that all
-- validations return.
pub mod Safety
mod Tests
use ca_op.Prelude.{
  ltb, leb, ◌==◌, length, add_usize, ℕ, Bool, true, false, not, ◌&&◌, Option, none, some, List,
}
use ca_op.Quorum.{FlexibleQuorum}

pub record ClusterConfig : Type 0 where
  pub configuration_id : ℕ
  pub nodes : List ℕ
  pub flexible_quorum : Option FlexibleQuorum

-- `ConfigError::InvalidConfig`, by the check that failed.
pub data ConfigError : Type 0 where
  too_few_nodes zero_configuration_id quorums_do_not_overlap : ConfigError
  read_quorum_out_of_range write_quorum_out_of_range : ConfigError
  read_quorum_below_write_quorum : ConfigError
  zero_pid zero_buffer_size zero_batch_size : ConfigError
  zero_election_tick_timeout zero_resend_message_tick_timeout : ConfigError
  zero_release_requests_poll_timeout : ConfigError
  zero_window_size negative_max_owd negative_uncertainty_beta : ConfigError
  percentile_out_of_range : ConfigError
  own_pid_missing : ConfigError

pub data Validated : Type 0 where
  valid : Validated
  invalid : ConfigError → Validated

-- `valid_config!` followed by the checks that come after it.
abbrev pub valid_config : Bool → ConfigError → Validated → Validated
valid_config true e rest = rest
valid_config false e rest = invalid e

-- `?` on a validation, with the checks that come after it.
abbrev pub and_then : Validated → Validated → Validated
and_then valid rest = rest
and_then (invalid e) rest = invalid e

unfoldable pub validate_quorum : Option FlexibleQuorum → ℕ → Validated
validate_quorum none num_nodes = valid
validate_quorum (some q) num_nodes =
    valid_config (ltb num_nodes (add_usize q.read_quorum_size q.write_quorum_size))
      quorums_do_not_overlap
      (valid_config (leb 2 q.read_quorum_size && leb q.read_quorum_size num_nodes)
        read_quorum_out_of_range
        (valid_config (leb 2 q.write_quorum_size && leb q.write_quorum_size num_nodes)
          write_quorum_out_of_range
          (valid_config (leb q.write_quorum_size q.read_quorum_size) read_quorum_below_write_quorum
            valid)))

unfoldable pub validate : ClusterConfig → Validated
unfolding validate_quorum
validate c = valid_config (ltb 1 (length c.nodes)) too_few_nodes (
    valid_config (not (c.configuration_id == 0)) zero_configuration_id
      (validate_quorum c.flexible_quorum (length c.nodes)))
