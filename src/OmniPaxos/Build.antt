-- ===== src/OmniPaxos/Build.antt =====
-- How a server is built from a configuration and the storage: `OmniPaxosConfig::build` of
-- lib/omnipaxos/src/omni_paxos.rs.
use ca_op.Prelude.{Option, some}
use ca_op.Prelude.Panic.{◌>>=◌}
use ca_op.Clocks.{clock_with}
use ca_op.Config.{ClusterConfig, ConfigError, Validated, valid, invalid}
use ca_op.Storage.Memory.{MemoryStorage}
use ca_op.Election.{ble_with}
use ca_op.Dom.Owd.{PercentileOps}
use ca_op.Paxos.Start.{paxos_with}
use ca_op.OmniPaxos.{OmniPaxos}
use ca_op.OmniPaxos.Config.{
  ServerConfig, OmniPaxosConfig, validate_config, ble_config, paxos_config,
}

pub data Built {ℓ} (A : Type ℓ) : Type ℓ where
  built : A → Built A
  invalid_config : ConfigError → Built A

module _ {ℓ} {F : Type 0} {T S : Type ℓ} where
  -- The server of a configuration that is valid.
  unfoldable pub build_valid : OmniPaxosConfig F → MemoryStorage T S → Option (OmniPaxos F T S)
  unfolding ble_with ble_config clock_with paxos_with paxos_config
  build_valid c storage = paxos_with (paxos_config c) storage >>= λ seq_paxos. some (record {
    seq_paxos = seq_paxos;
    ble = ble_with (ble_config c) storage.n_prom;
    election_clock = clock_with c.server_config.election_tick_timeout;
    resend_message_clock = clock_with c.server_config.resend_message_tick_timeout;
    flush_batch_clock = clock_with c.server_config.flush_batch_tick_timeout;
    release_requests_clock = clock_with c.server_config.release_requests_poll_timeout;
  })

  -- `self.validate()?` and what comes after it.
  abbrev pub build_if :
      OmniPaxosConfig F → MemoryStorage T S → Validated → Option (Built (OmniPaxos F T S))
  build_if c storage (invalid e) = some (invalid_config e)
  build_if c storage valid = build_valid c storage >>= λ s. some (built s)

module _ {ℓ} {F : Type 0} {T S : Type ℓ} (percentiles : PercentileOps F) where
  unfoldable pub build : OmniPaxosConfig F → MemoryStorage T S → Option (Built (OmniPaxos F T S))
  unfolding validate_config build_valid
  build c storage = build_if c storage (validate_config percentiles c)

  -- `ClusterConfig::build_for_server`
  unfoldable pub build_for_server :
      ClusterConfig → ServerConfig F → MemoryStorage T S → Option (Built (OmniPaxos F T S))
  unfolding build
  build_for_server cluster server storage =
      build (record { cluster_config = cluster; server_config = server }) storage
