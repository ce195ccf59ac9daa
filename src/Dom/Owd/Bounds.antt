-- ===== src/Dom/Owd/Bounds.antt =====
-- Bounds of the estimates of one-way delays (lib/omnipaxos/src/dom/owd_estimator.rs).
use ca_op.Prelude.{
  ◌==◌, if◌then◌else◌, Bool-cases, get_or_else, length, drop, length-append, length-drop, drop-drop,
  drop-append_le, get_elem?_lt, ℕ, suc, ◌+◌, ◌-◌, ◌<◌, ◌≡◌, refl, sym, ap, subst, ◌∙◌, ◌⊎◌, inl,
  inr, not, ◌||◌, some, List, [], ◌∷◌, ◌++◌, arith,
}
use ca_op.Prelude.Int.{ℤ, pos, ◌+ℤ◌, ◌*ℤ◌, ◌≤ℤ◌, ltb_ℤ}
use ca_op.Prelude.Assoc
use ca_op.Prelude.Assoc.{nat_eq, get-insert, get-insert_self}
use ca_op.Prelude.Panic.{◌>>=◌}
use ca_op.Dom.Owd.{
  saturate, EstimatorStrategy, percentile, moving_average, fixed, PercentileOps, IsIndex, OwdSample,
  uncertainty_sum, back, insert_sorted, sort, delays, moving_average_delay, slide, bounded_estimate,
  OwdEstimator, estimate_for, percentile_delay, estimate_from_window, update,
}

-- An estimate that a deadline can be built on.
abbrev pub IsEstimate : ℤ → ℤ → Type 0
IsEstimate max_owd a = (a ≤ℤ max_owd) × ((pos 1 ≤ℤ a) ⊎ (a ≡ max_owd))

bounded_estimate-IsEstimate :
    (base beta max_owd : ℤ) (latest : OwdSample)
    → IsEstimate max_owd (bounded_estimate base beta max_owd latest)
unfolding bounded_estimate
bounded_estimate-IsEstimate base beta max_owd latest =
    go (saturate (base +ℤ saturate (beta *ℤ uncertainty_sum latest)))
  where
    go :
        (a : ℤ)
        → IsEstimate max_owd (if not (ltb_ℤ (pos 0) a) || ltb_ℤ max_owd a then max_owd else a)
    go a = elim (Bool-cases (not (ltb_ℤ (pos 0) a) || ltb_ℤ max_owd a)) [
      | inl out ↦ rw out (omega arith, inr refl)
      | inr inside ↦ rw inside (ground arith, inl (ground arith))
    ]

length-insert_sorted : (a : ℤ) (xs : List ℤ) → length (insert_sorted a xs) ≡ suc (length xs)
unfolding insert_sorted
length-insert_sorted a [] = refl
length-insert_sorted a (x ∷ xs) = ground (arith, length-insert_sorted a xs)

length-sort : (xs : List ℤ) → length (sort xs) ≡ length xs
unfolding sort
length-sort [] = refl
length-sort (x ∷ xs) = length-insert_sorted x (sort xs) ∙ ap suc (length-sort xs)

length-delays : (xs : List OwdSample) → length (delays xs) ≡ length xs
length-delays [] = refl
length-delays (x ∷ xs) = ap suc (length-delays xs)

back-snoc : (xs : List OwdSample) (s : OwdSample) → back (xs ++ s ∷ []) ≡ some s
back-snoc [] s = refl
back-snoc (x ∷ []) s = refl
back-snoc (x ∷ y ∷ xs) s = back-snoc (y ∷ xs) s

-- The window holds the last `window_size` samples of those seen so far.
abbrev pub IsWindow : ℕ → List OwdSample → List OwdSample → Type 0
IsWindow window_size seen window = window ≡ drop (length seen - window_size) seen

pub slide-IsWindow :
    (w : ℕ) (seen window : List OwdSample) (s : OwdSample)
    → 0 < w
    → IsWindow w seen window
    → IsWindow w (seen ++ s ∷ []) (slide w window s)
unfolding slide
slide-IsWindow w seen window s positive e = elim (Bool-cases (length window == w)) [
  | inl full ↦ rw full (
      ap (λ l. drop 1 l ++ s ∷ []) e
      ∙ ap (λ l. l ++ s ∷ []) (drop-drop (length seen - w) 1 seen)
      ∙ sym (drop-append_le (length seen - w + 1) seen (s ∷ []) (ground (arith, size)))
      ∙ ap (λ n. drop n (seen ++ s ∷ [])) (ground (arith, size, more)))
  | inr room ↦ rw room (
      ap (λ l. l ++ s ∷ []) e
      ∙ sym (drop-append_le (length seen - w) seen (s ∷ []) (omega arith))
      ∙ ap (λ n. drop n (seen ++ s ∷ [])) (ground (arith, size, more)))
]
  where
    size : length window ≡ length seen - (length seen - w)
    size = ap length e ∙ length-drop (length seen - w) seen

    more : length (seen ++ s ∷ []) ≡ length seen + 1
    more = length-append seen (s ∷ [])

moving_average_delay-some :
    (xs : List OwdSample) → 0 < length xs → (a : ℤ) × (moving_average_delay xs ≡ some a)
unfolding moving_average_delay
moving_average_delay-some [] h = absurd (omega arith)
moving_average_delay-some (x ∷ xs) h = (_, refl)

module _ {F : Type 0} (ops : PercentileOps F) where
  percentile_delay-some :
      (xs : List OwdSample) (p : F)
      → IsIndex ops
      → 0 < length xs
      → (a : ℤ) × (percentile_delay ops xs p ≡ some a)
  unfolding percentile_delay
  percentile_delay-some [] p i h = absurd (omega arith)
  percentile_delay-some (x ∷ xs) p i h =
      get_elem?_lt (sort (delays (x ∷ xs))) (ops.index (suc (length (delays xs))) p)
        (omega (arith, length-sort (delays (x ∷ xs)), i (length (delays xs)) p))

  estimate_from_window-IsEstimate :
      (xs : List OwdSample) (s : OwdSample) (strategy : EstimatorStrategy F) (beta max_owd : ℤ)
      → IsIndex ops
      → (a : ℤ) × (estimate_from_window ops (xs ++ s ∷ []) strategy beta max_owd ≡ some a)
        × IsEstimate max_owd a
  unfolding estimate_from_window
  estimate_from_window-IsEstimate xs s (percentile p) beta max_owd i =
      let (base, e) =
        percentile_delay-some (xs ++ s ∷ []) p i (omega (arith, length-append xs (s ∷ []))) in
      (
        bounded_estimate base beta max_owd s,
        rw (e, back-snoc xs s) refl,
        bounded_estimate-IsEstimate base beta max_owd s,
      )
  estimate_from_window-IsEstimate xs s moving_average beta max_owd i =
      let (base, e) =
        moving_average_delay-some (xs ++ s ∷ []) (omega (arith, length-append xs (s ∷ []))) in
      (
        bounded_estimate base beta max_owd s,
        rw (e, back-snoc xs s) refl,
        bounded_estimate-IsEstimate base beta max_owd s,
      )
  estimate_from_window-IsEstimate xs s fixed beta max_owd i =
      (max_owd, refl, (omega arith, inr refl))

  -- The window that is stored for a sender.
  abbrev pub window_of : OwdEstimator F → ℕ → List OwdSample
  window_of e id = get_or_else (Assoc.get id e.samples) []

  -- A sample is always accepted: the window of the sender then holds the last samples, as many as
  -- the window size of all that were seen, and the estimate for the sender is at most `max_owd`
  -- and, unless it is `max_owd`, positive. The window size is positive, as `validate` demands.
  pub update-IsEstimate :
      (e : OwdEstimator F) (id : ℕ) (seen : List OwdSample) (s : OwdSample)
      → IsIndex ops
      → 0 < e.config.window_size
      → IsWindow e.config.window_size seen (window_of e id)
      → (e' : OwdEstimator F) × (update ops e id s ≡ some e')
        × IsWindow e.config.window_size (seen ++ s ∷ []) (window_of e' id)
        × IsEstimate e.config.max_owd (estimate_for e' id)
  unfolding update estimate_for slide
  update-IsEstimate e id seen s i positive w =
      let size = e.config.window_size in
      let old = window_of e id in
      let kept = if length old == size then drop 1 old else old in
      let window : List OwdSample = kept ++ s ∷ [] in
      let (a, run, good) =
        estimate_from_window-IsEstimate kept s e.config.strategy e.config.uncertainty_beta
          e.config.max_owd i in
      let e' : ℤ → OwdEstimator F = λ estimate. record e {
        samples = Assoc.insert id window e.samples;
        estimates = Assoc.insert id estimate e.estimates;
      } in
      (
        e' a,
        ap (λ o. o >>= λ estimate. some (e' estimate)) run,
        ap (λ o. get_or_else o []) (get-insert_self id window e.samples)
            ∙ slide-IsWindow size seen old s positive w,
        subst (IsEstimate e.config.max_owd)
            (sym (ap (λ o. get_or_else o e.config.max_owd) (get-insert_self id a e.estimates)))
            good,
      )
