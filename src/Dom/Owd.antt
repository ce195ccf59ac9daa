-- ===== src/Dom/Owd.antt =====
-- The estimates of one-way delays of lib/omnipaxos/src/dom/owd_estimator.rs. The index of a
-- percentile is computed in floating point, and is a parameter.
pub mod Bounds
pub mod Validation
use ca_op.Prelude.{
  ◌==◌, if◌then◌else◌, get_or_else, length, get_elem?, drop, ℕ, suc, ◌-◌, ◌/◌, ◌^◌, ◌<◌, Bool, not,
  ◌||◌, Option, none, some, List, [], ◌∷◌, ◌++◌, map,
}
use ca_op.Prelude.Int.{ℤ, pos, negsuc, ◌+ℤ◌, ◌-ℤ◌, ◌*ℤ◌, ltb_ℤ}
use ca_op.Prelude.Assoc
use ca_op.Prelude.Assoc.{nat_eq}
use ca_op.Prelude.Panic.{◌>>=◌}

-- `max` of `i64`.
abbrev pub max_ℤ : ℤ → ℤ → ℤ
max_ℤ a b = if ltb_ℤ a b then b else a

-- A result of `saturating_add` or `saturating_mul` of `i64`.
unfoldable pub saturate : ℤ → ℤ
saturate a =
    if ltb_ℤ (pos (2 ^ 63 - 1)) a
    then pos (2 ^ 63 - 1)
    else (if ltb_ℤ a (negsuc (2 ^ 63 - 1)) then negsuc (2 ^ 63 - 1) else a)

-- `/` of `i64` by a positive number, towards zero.
unfoldable pub div_ℤ : ℤ → ℕ → ℤ
div_ℤ (pos a) n = pos (a / n)
div_ℤ (negsuc a) n = pos 0 -ℤ pos (suc a / n)

-- `EstimatorStrategy`, over the type `F` of percentiles.
pub data EstimatorStrategy (F : Type 0) : Type 0 where
  percentile : F → EstimatorStrategy F
  moving_average : EstimatorStrategy F
  fixed : EstimatorStrategy F

-- The operations on percentiles: `(0.0..=1.0).contains(&p)`, and the rounded index into a sorted
-- list of `n` delays for `p` clamped to that range.
pub record PercentileOps (F : Type 0) : Type 0 where
  pub in_range : F → Bool
  pub index : ℕ → F → ℕ

-- The rounded index is one of the list.
abbrev pub IsIndex : {F : Type 0} → PercentileOps F → Type 0
IsIndex {F} ops = (n : ℕ) (p : F) → ops.index (suc n) p < suc n

pub record OwdEstimatorConfig (F : Type 0) : Type 0 where
  pub window_size : ℕ
  pub max_owd : ℤ
  pub uncertainty_beta : ℤ
  pub strategy : EstimatorStrategy F

pub record OwdSample : Type 0 where
  pub measured_owd : ℤ
  pub sender_uncertainty : ℤ
  pub receiver_uncertainty : ℤ

-- `OwdSample::new`
unfoldable pub new_sample : ℤ → ℤ → ℤ → ℤ → OwdSample
new_sample sent_time received_time sender_uncertainty receiver_uncertainty = record {
  measured_owd = max_ℤ (received_time -ℤ sent_time) (pos 0);
  sender_uncertainty = max_ℤ sender_uncertainty (pos 0);
  receiver_uncertainty = max_ℤ receiver_uncertainty (pos 0);
}

unfoldable pub uncertainty_sum : OwdSample → ℤ
uncertainty_sum s = s.sender_uncertainty +ℤ s.receiver_uncertainty

-- `VecDeque::back`
abbrev pub back {ℓ} : {A : Type ℓ} → List A → Option A
back [] = none
back (x ∷ []) = some x
back (x ∷ y ∷ xs) = back (y ∷ xs)

-- `sort_unstable`
unfoldable pub insert_sorted : ℤ → List ℤ → List ℤ
insert_sorted a [] = a ∷ []
insert_sorted a (x ∷ xs) = if ltb_ℤ x a then x ∷ insert_sorted a xs else a ∷ x ∷ xs

unfoldable pub sort : List ℤ → List ℤ
unfolding insert_sorted
sort [] = []
sort (x ∷ xs) = insert_sorted x (sort xs)

abbrev pub sum : List ℤ → ℤ
sum [] = pos 0
sum (x ∷ xs) = x +ℤ sum xs

abbrev pub delays : List OwdSample → List ℤ
delays samples = map (λ s. s.measured_owd) samples

-- Panics on an empty window.
unfoldable pub moving_average_delay : List OwdSample → Option ℤ
unfolding div_ℤ
moving_average_delay [] = none
moving_average_delay (s ∷ samples) =
    some (div_ℤ (sum (delays (s ∷ samples))) (length (s ∷ samples)))

-- The sliding window after a sample.
unfoldable pub slide : ℕ → List OwdSample → OwdSample → List OwdSample
slide window_size samples sample =
    (if length samples == window_size then drop 1 samples else samples) ++ sample ∷ []

-- The margin for the uncertainty of the latest sample, and the bounds.
unfoldable pub bounded_estimate : ℤ → ℤ → ℤ → OwdSample → ℤ
unfolding saturate uncertainty_sum
bounded_estimate base_estimate beta max_owd latest =
    let estimate = saturate (base_estimate +ℤ saturate (beta *ℤ uncertainty_sum latest)) in
    if not (ltb_ℤ (pos 0) estimate) || ltb_ℤ max_owd estimate then max_owd else estimate

pub record OwdEstimator (F : Type 0) : Type 0 where
  pub config : OwdEstimatorConfig F
  pub samples : List (ℕ × List OwdSample)
  pub estimates : List (ℕ × ℤ)

module _ {F : Type 0} where
  -- `OwdEstimator::with_config`
  abbrev pub with_config : OwdEstimatorConfig F → OwdEstimator F
  with_config config = record { config = config; samples = []; estimates = [] }

  unfoldable pub estimate_for : OwdEstimator F → ℕ → ℤ
  unfolding Assoc.get
  estimate_for e id = get_or_else (Assoc.get id e.estimates) e.config.max_owd

module _ {F : Type 0} (ops : PercentileOps F) where
  unfoldable pub percentile_delay : List OwdSample → F → Option ℤ
  unfolding sort
  percentile_delay samples p =
      get_elem? (sort (delays samples)) (ops.index (length (delays samples)) p)

  unfoldable pub estimate_from_window : List OwdSample → EstimatorStrategy F → ℤ → ℤ → Option ℤ
  unfolding percentile_delay moving_average_delay bounded_estimate
  estimate_from_window samples (percentile p) beta max_owd = do
    base_estimate ← percentile_delay samples p
    latest ← back samples
    some (bounded_estimate base_estimate beta max_owd latest)
  estimate_from_window samples moving_average beta max_owd = do
    base_estimate ← moving_average_delay samples
    latest ← back samples
    some (bounded_estimate base_estimate beta max_owd latest)
  estimate_from_window samples fixed beta max_owd = some max_owd

  unfoldable pub update : OwdEstimator F → ℕ → OwdSample → Option (OwdEstimator F)
  unfolding slide estimate_from_window Assoc.insert Assoc.get
  update e id sample = do
    let window = slide e.config.window_size (get_or_else (Assoc.get id e.samples) []) sample
    estimate ←
        estimate_from_window window e.config.strategy e.config.uncertainty_beta e.config.max_owd
    some (record e {
      samples = Assoc.insert id window e.samples;
      estimates = Assoc.insert id estimate e.estimates;
    })

pub record OutgoingOwdTracker : Type 0 where
  pub estimates : List (ℕ × ℤ)
  pub default_owd : ℤ

-- `OutgoingOwdTracker::update`
unfoldable pub track : OutgoingOwdTracker → ℕ → ℤ → OutgoingOwdTracker
unfolding Assoc.insert
track t receiver estimated_owd = record t {
  estimates = Assoc.insert receiver (max_ℤ estimated_owd (pos 0)) t.estimates;
}

-- `OutgoingOwdTracker::get`
unfoldable pub tracked : OutgoingOwdTracker → ℕ → ℤ
unfolding Assoc.get
tracked t receiver = get_or_else (Assoc.get receiver t.estimates) t.default_owd

-- The maximum of the values of the map.
abbrev pub max_value : List (ℕ × ℤ) → Option ℤ
max_value [] = none
max_value ((r, owd) ∷ m) = elim (max_value m) [ none ↦ some owd | some top ↦ some (max_ℤ owd top) ]

unfoldable pub get_max_owd : OutgoingOwdTracker → ℤ
get_max_owd t = get_or_else (max_value t.estimates) t.default_owd
