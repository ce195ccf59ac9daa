-- ===== src/Dom/Owd/Validation.antt =====
-- The validation of `OwdEstimatorConfig` (lib/omnipaxos/src/dom/owd_estimator.rs).
use ca_op.Prelude.{ltb, ℕ, not}
use ca_op.Prelude.Int.{ℤ, pos, ltb_ℤ}
use ca_op.Config.{
  ConfigError, zero_window_size, negative_max_owd, negative_uncertainty_beta,
  percentile_out_of_range, Validated, valid, invalid, valid_config,
}
use ca_op.Dom.Owd.{
  EstimatorStrategy, percentile, moving_average, fixed, PercentileOps, OwdEstimatorConfig,
}

-- `OwdEstimatorConfig::new` returns the configuration, or the error of its validation.
pub data NewOwdConfig (F : Type 0) : Type 0 where
  created : OwdEstimatorConfig F → NewOwdConfig F
  not_created : ConfigError → NewOwdConfig F

module _ {F : Type 0} (ops : PercentileOps F) where
  -- The check of the strategy.
  unfoldable pub validate_strategy : EstimatorStrategy F → Validated
  validate_strategy (percentile p) = valid_config (ops.in_range p) percentile_out_of_range valid
  validate_strategy moving_average = valid
  validate_strategy fixed = valid

  unfoldable pub validate_owd : OwdEstimatorConfig F → Validated
  unfolding validate_strategy
  validate_owd c = valid_config (ltb 0 c.window_size) zero_window_size (
      valid_config (not (ltb_ℤ c.max_owd (pos 0))) negative_max_owd (
        valid_config (not (ltb_ℤ c.uncertainty_beta (pos 0))) negative_uncertainty_beta
          (validate_strategy c.strategy)))

  abbrev pub created_if : OwdEstimatorConfig F → Validated → NewOwdConfig F
  created_if c valid = created c
  created_if c (invalid e) = not_created e

  unfoldable pub new_owd_config : ℕ → ℤ → ℤ → EstimatorStrategy F → NewOwdConfig F
  unfolding validate_owd
  new_owd_config window_size max_owd uncertainty_beta strategy =
      let c : OwdEstimatorConfig F = record {
        window_size = window_size;
        max_owd = max_owd;
        uncertainty_beta = uncertainty_beta;
        strategy = strategy;
      } in
      created_if c (validate_owd c)
