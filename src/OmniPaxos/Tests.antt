-- ===== src/OmniPaxos/Tests.antt =====
-- Instances of the theorem on building a server (lib/omnipaxos/src/omni_paxos.rs).
use ca_op.Prelude.{ℕ, ◌≡◌, refl, ◌⊎◌, true, none, some, List, [], ◌∷◌}
use ca_op.Prelude.Int.{pos}
use ca_op.Config.{ConfigError, valid, invalid}
use ca_op.Storage.Memory.{MemoryStorage, empty_storage}
use ca_op.Dom.Owd.{fixed, PercentileOps}
use ca_op.OmniPaxos.{OmniPaxos}
use ca_op.OmniPaxos.Config.{OmniPaxosConfig, default_server_config, validate_config, peers_of}
use ca_op.OmniPaxos.Build.{built, invalid_config, build}
use ca_op.OmniPaxos.Startup.{IsStarted, build-cases}

abbrev percentiles : PercentileOps ℕ
percentiles = record { in_range = λ p. true; index = λ n p. 0 }

-- Server 1 of a cluster of these nodes.
abbrev config_of : List ℕ → OmniPaxosConfig ℕ
config_of nodes = record {
  cluster_config = record { configuration_id = 1; nodes = nodes; flexible_quorum = none };
  server_config =
      record (default_server_config (record {
        window_size = 50;
        max_owd = pos 100000;
        uncertainty_beta = pos 3;
        strategy = fixed;
      })) { pid = 1 };
}

abbrev empty : MemoryStorage ℕ (List ℕ)
empty = empty_storage

-- A list that names the same node twice passes the validation, and panics.
twice_valid : validate_config percentiles (config_of (1 ∷ 1 ∷ [])) ≡ valid
unfolding validate_config
twice_valid = refl

twice_panics : build percentiles (config_of (1 ∷ 1 ∷ [])) empty ≡ none
unfolding build
twice_panics = refl

build-cases_example :
    ((e : ConfigError) × (validate_config percentiles (config_of (1 ∷ 2 ∷ 3 ∷ [])) ≡ invalid e)
      × (build percentiles (config_of (1 ∷ 2 ∷ 3 ∷ [])) empty ≡ some (invalid_config e)))
    ⊎ ((validate_config percentiles (config_of (1 ∷ 2 ∷ 3 ∷ [])) ≡ valid)
        × (peers_of (config_of (1 ∷ 2 ∷ 3 ∷ [])) ≡ [])
        × (build percentiles (config_of (1 ∷ 2 ∷ 3 ∷ [])) empty ≡ none))
    ⊎ ((validate_config percentiles (config_of (1 ∷ 2 ∷ 3 ∷ [])) ≡ valid)
        × ((s : OmniPaxos ℕ ℕ (List ℕ)) × (build percentiles (config_of (1 ∷ 2 ∷ 3 ∷ [])) empty
              ≡ some (built s))
            × IsStarted (config_of (1 ∷ 2 ∷ 3 ∷ [])) empty s))
build-cases_example = build-cases percentiles (config_of (1 ∷ 2 ∷ 3 ∷ [])) empty
