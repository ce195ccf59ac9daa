-- ===== src/Clocks/Order.antt =====
-- The period of a clock.
use ca_op.Prelude.{
  ◌==◌, if◌then◌else◌, Bool-cases, inc_u64, ℕ, zero, suc, ◌+◌, ◌*◌, ◌^◌, ◌<◌, ◌≡◌, inl, inr, arith,
}
use ca_op.Clocks.{LogicalClock, tick_and_check_timeout}

-- Ticks of a clock, and how often it ran out.
unfoldable pub ticks : LogicalClock → ℕ → LogicalClock × ℕ
unfolding tick_and_check_timeout
ticks c zero = (c, 0)
ticks c (suc n) =
    let (c', timed_out) = tick_and_check_timeout c in
    let (c'', k) = ticks c' n in (c'', if timed_out then k + 1 else k)

-- A clock with a timeout runs out at every `timeout`-th tick, and at no other.
pub ticks-period :
    (timeout n t : ℕ)
    → timeout < 2 ^ 64
    → t < timeout
    → ((ticks (record { time = t; timeout = timeout }) n).1 * timeout
          + (ticks (record { time = t; timeout = timeout }) n).0.time
        ≡ t + n)
      × ((ticks (record { time = t; timeout = timeout }) n).0.time < timeout)
unfolding ticks
ticks-period timeout zero t small h = (omega arith, h)
ticks-period timeout (suc n) t small h =
    let up : inc_u64 t ≡ t + 1 = omega arith in
    elim (Bool-cases ((t + 1) == timeout)) [
      | inl out ↦
          let (total, below) = ticks-period timeout n 0 small (omega arith) in
          rw (up, ticks, out) (ground arith, below)
      | inr running ↦
          let (total, below) = ticks-period timeout n (t + 1) small (ground arith) in
          rw (up, ticks, running) (omega (arith, total), below)
    ]
