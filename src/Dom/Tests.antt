-- ===== src/Dom/Tests.antt =====
-- Runs of the deadline-ordered multicast (lib/omnipaxos/src/dom) on small inputs.
use ca_op.Prelude.{leb, ℕ, ◌+◌, ◌-◌, ◌*◌, ◌/◌, min, ◌≡◌, refl, some, List, [], ◌∷◌, map, arith}
use ca_op.Prelude.Int.{pos, ◌+ℤ◌, ◌*ℤ◌, ◌≤ℤ◌}
use ca_op.Prelude.Assoc
use ca_op.Prelude.Assoc.{nat_eq}
use ca_op.Messages
use ca_op.Messages.{Role}
use ca_op.Messages.Paxos.{entry_id_eq, DomPropose, DomAck}
use ca_op.Dom.{Dom, create_dom_propose, handle_dom_propose}
use ca_op.Dom.Buffer.{key_of, cmp_key, le_key, new_entry, EarlyBuffer, pop_ready, release}
use ca_op.Dom.Buffer.Heap.{IsValid}
use ca_op.Dom.Buffer.Release.{Splits, release-Splits}
use ca_op.Dom.Buffer.Order.{
  Step, arrives, released_at, removed, steps, IsIncreasing, steps-IsIncreasing,
}
use ca_op.Dom.Owd.{
  saturate, percentile, PercentileOps, IsIndex, OwdEstimatorConfig, OwdSample, insert_sorted,
  OwdEstimator, estimate_for, update, tracked,
}
use ca_op.Dom.Owd.Bounds.{IsEstimate, IsWindow, window_of, update-IsEstimate}
use ca_op.Dom.Deadlines.{IsKept, create_dom_propose-covers, handle_dom_propose-keeps}

-- A proposal of client 1 with a command and a deadline.
abbrev proposal : ℕ → ℕ → DomPropose ℕ
proposal command deadline = record {
  entry_id = record { client_id = 1; command_id = command };
  sender = 2;
  sent_time = (pos 5, pos 1);
  deadline = pos deadline;
  entry = 100 + command;
}

-- Two proposals wait, and one was released at 10.
abbrev waiting : EarlyBuffer ℕ
waiting = record {
  heap = new_entry (proposal 3 20) ∷ new_entry (proposal 2 30) ∷ [];
  last_released = some (key_of (proposal 1 10));
}

waiting-IsValid : IsValid waiting
unfolding le_key cmp_key
waiting-IsValid = record {
  ordered = (refl, (refl, tt), (refl, tt, tt));
  after = (refl, (refl, tt));
}

-- The deadline decides, and the command among equal deadlines.
abbrev busy : List (Step ℕ)
busy =
    arrives (proposal 9 20)
    ∷ arrives (proposal 4 25)
    ∷ released_at (pos 22)
    ∷ removed (record { client_id = 1; command_id = 2 })
    ∷ arrives (proposal 5 19)
    ∷ released_at (pos 40)
    ∷ []

released_in_order : map (λ p. p.entry) (steps waiting busy).1 ≡ 103 ∷ 109 ∷ 104 ∷ []
unfolding steps le_key pop_ready entry_id_eq
released_in_order = refl

steps-IsIncreasing_example : IsIncreasing (some (key_of (proposal 1 10))) (steps waiting busy).1
steps-IsIncreasing_example = steps-IsIncreasing waiting busy waiting-IsValid

release-Splits_example : Splits (pos 22) waiting (release waiting (pos 22))
release-Splits_example = release-Splits waiting (pos 22) waiting-IsValid

-- Percentiles in percent, with the index rounded down.
abbrev percents : PercentileOps ℕ
percents = record { in_range = λ p. leb p 100; index = λ n p. min (n - 1) ((n - 1) * p / 100) }

percents-IsIndex : IsIndex percents
percents-IsIndex n p = omega arith

abbrev config : OwdEstimatorConfig ℕ
config = record {
  window_size = 2;
  max_owd = pos 100;
  uncertainty_beta = pos 3;
  strategy = percentile 80;
}

abbrev sample_of : ℕ → OwdSample
sample_of owd = record {
  measured_owd = pos owd;
  sender_uncertainty = pos 1;
  receiver_uncertainty = pos 2;
}

abbrev estimator : OwdEstimator ℕ
estimator = record {
  config = config;
  samples = (2, sample_of 7 ∷ sample_of 9 ∷ []) ∷ [];
  estimates = (2, pos 16) ∷ [];
}

-- The window slides, and the margin of the last sample is added.
estimated :
    update percents estimator 2 (sample_of 4)
    ≡ some (record estimator {
      samples = (2, sample_of 9 ∷ sample_of 4 ∷ []) ∷ [];
      estimates = (2, pos 13) ∷ [];
    })
unfolding update saturate ◌+ℤ◌ ◌*ℤ◌ insert_sorted
estimated = refl

update-IsEstimate_example :
    (e : OwdEstimator ℕ) × (update percents estimator 2 (sample_of 4) ≡ some e)
    × IsWindow 2
        (sample_of 1 ∷ sample_of 7 ∷ sample_of 9 ∷ sample_of 4 ∷ [])
        (window_of percents e 2)
    × IsEstimate (pos 100) (estimate_for e 2)
unfolding Assoc.get
update-IsEstimate_example =
    update-IsEstimate percents estimator 2 (sample_of 1 ∷ sample_of 7 ∷ sample_of 9 ∷ [])
      (sample_of 4) percents-IsIndex (omega arith) refl

abbrev node : Dom ℕ ℕ
node = record {
  pid = 1;
  incoming_owd_estimates = estimator;
  outgoing_owd_estimates = record {
    estimates = (2, pos 8) ∷ (3, pos 12) ∷ [];
    default_owd = pos 100;
  };
  early_buffer = waiting;
}

create_dom_propose-covers_example :
    (tracked node.outgoing_owd_estimates 2 ≡ pos 8)
    × (pos 50 +ℤ pos 8
        ≤ℤ (create_dom_propose node
            (pos 50, pos 1)
            7
            (record { client_id = 1; command_id = 6 })).deadline)
unfolding Assoc.get
create_dom_propose-covers_example =
    create_dom_propose-covers node (pos 50, pos 1) 7 (record { client_id = 1; command_id = 6 }) 2
      (pos 8) refl

-- A proposal with the deadline 9 is late: the leader puts it off to 1010.
handle_dom_propose-keeps_example :
    (d : Dom ℕ ℕ) × (ack : DomAck) × (handle_dom_propose percents node
        (proposal 8 9)
        Messages.Role.leader
        (pos 12, pos 1)
        (pos 13, pos 1)
      ≡ some (d, ack))
    × IsEstimate (pos 100) ack.estimated_owd
    × (kept : DomPropose ℕ) × IsKept waiting (proposal 8 9) kept d.early_buffer
unfolding Assoc.get
handle_dom_propose-keeps_example =
    handle_dom_propose-keeps percents node (proposal 8 9) (pos 12, pos 1) (pos 13, pos 1)
      (sample_of 1 ∷ sample_of 7 ∷ sample_of 9 ∷ []) percents-IsIndex (omega arith) refl
