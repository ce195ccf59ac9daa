-- ===== src/Clocks/Tests.antt =====
-- Instances of the theorems.
use ca_op.Prelude.{◌+◌, ◌*◌, ◌<◌, ◌≡◌, refl, arith}
use ca_op.Clocks.{dropped_preceding, SequenceNumber, check_msg_status, clock_with}
use ca_op.Clocks.Order.{ticks, ticks-period}

abbrev fourth : SequenceNumber
fourth = record { session = 2; counter = 4 }

abbrev sixth : SequenceNumber
sixth = record { session = 2; counter = 6 }

skipped : check_msg_status fourth sixth ≡ dropped_preceding
unfolding check_msg_status
skipped = refl

ticks-period_example :
    ((ticks (clock_with 3) 7).1 * 3 + (ticks (clock_with 3) 7).0.time ≡ 7)
    × ((ticks (clock_with 3) 7).0.time < 3)
unfolding clock_with
ticks-period_example = ticks-period 3 7 0 (omega arith) (omega arith)
