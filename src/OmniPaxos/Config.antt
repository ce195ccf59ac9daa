-- ===== src/OmniPaxos/Config.antt =====
-- The configuration of a server, and of the server together with its cluster
-- (lib/omnipaxos/src/omni_paxos.rs), with what the components take from it.
use ca_op.Prelude.{◌==◌, keep, ℕ, Bool, true, not, List}
use ca_op.Prelude.Assoc.{nat_eq, contains}
use ca_op.Config.{
  ClusterConfig, zero_pid, zero_buffer_size, zero_batch_size, zero_election_tick_timeout,
  zero_resend_message_tick_timeout, zero_release_requests_poll_timeout, own_pid_missing, Validated,
  valid, valid_config, and_then, validate,
}
use ca_op.Dom.Owd.{PercentileOps, OwdEstimatorConfig}
use ca_op.Dom.Owd.Validation.{validate_owd}
use ca_op.Election.{BleConfig}
use ca_op.Paxos.Start.{SequencePaxosConfig}

-- Without the logger.
pub record ServerConfig (F : Type 0) : Type 0 where
  pub pid : ℕ
  pub election_tick_timeout : ℕ
  pub resend_message_tick_timeout : ℕ
  pub buffer_size : ℕ
  pub batch_size : ℕ
  pub flush_batch_tick_timeout : ℕ
  pub release_requests_poll_timeout : ℕ
  pub leader_priority : ℕ
  pub owd_config : OwdEstimatorConfig F
  pub enable_fast_path : Bool

pub record OmniPaxosConfig (F : Type 0) : Type 0 where
  pub cluster_config : ClusterConfig
  pub server_config : ServerConfig F

-- `ServerConfig::default()`, for the default configuration of the estimator.
abbrev pub default_server_config : {F : Type 0} → OwdEstimatorConfig F → ServerConfig F
default_server_config owd = record {
  pid = 0;
  election_tick_timeout = 1;
  resend_message_tick_timeout = 100;
  buffer_size = 100000;
  batch_size = 1;
  flush_batch_tick_timeout = 200;
  release_requests_poll_timeout = 1;
  leader_priority = 0;
  owd_config = owd;
  enable_fast_path = true;
}

module _ {F : Type 0} (ops : PercentileOps F) where
  unfoldable pub validate_server : ServerConfig F → Validated
  unfolding validate_owd
  validate_server c = valid_config (not (c.pid == 0)) zero_pid (
      valid_config (not (c.buffer_size == 0)) zero_buffer_size (
        valid_config (not (c.batch_size == 0)) zero_batch_size (
          valid_config (not (c.election_tick_timeout == 0)) zero_election_tick_timeout (
            valid_config (not (c.resend_message_tick_timeout == 0)) zero_resend_message_tick_timeout
              (valid_config (not (c.release_requests_poll_timeout == 0))
                zero_release_requests_poll_timeout
                (and_then (validate_owd ops c.owd_config) valid))))))

  unfoldable pub validate_config : OmniPaxosConfig F → Validated
  unfolding validate validate_server contains
  validate_config c = and_then (validate c.cluster_config) (
      and_then (validate_server c.server_config)
        (valid_config (contains c.server_config.pid c.cluster_config.nodes) own_pid_missing valid))

module _ {F : Type 0} where
  -- The nodes other than this one.
  unfoldable pub peers_of : OmniPaxosConfig F → List ℕ
  peers_of c = keep (λ x. not (x == c.server_config.pid)) c.cluster_config.nodes

  -- `BLEConfig::from`
  unfoldable pub ble_config : OmniPaxosConfig F → BleConfig
  unfolding peers_of
  ble_config c = record {
    configuration_id = c.cluster_config.configuration_id;
    pid = c.server_config.pid;
    peers = peers_of c;
    priority = c.server_config.leader_priority;
    flexible_quorum = c.cluster_config.flexible_quorum;
  }

  -- `SequencePaxosConfig::from`
  unfoldable pub paxos_config : OmniPaxosConfig F → SequencePaxosConfig F
  unfolding peers_of
  paxos_config c = record {
    pid = c.server_config.pid;
    peers = peers_of c;
    batch_size = c.server_config.batch_size;
    flexible_quorum = c.cluster_config.flexible_quorum;
    owd_config = c.server_config.owd_config;
    enable_fast_path = c.server_config.enable_fast_path;
  }
