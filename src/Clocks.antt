-- ===== src/Clocks.antt =====
-- `SequenceNumber`, `MessageStatus` and `LogicalClock` of lib/omnipaxos/src/util.rs.
pub mod Order
mod Tests
use ca_op.Prelude.{ltb, leb, ◌==◌, if◌then◌else◌, inc_u64, ℕ, Bool, true, false, ◌&&◌}

pub data MessageStatus : Type 0 where
  expected : MessageStatus
  dropped_preceding : MessageStatus
  outdated : MessageStatus

pub record SequenceNumber : Type 0 where
  pub session : ℕ
  pub counter : ℕ

abbrev pub default_seq_num : SequenceNumber
default_seq_num = record { session = 0; counter = 0 }

-- The derived order: by session, then by counter.
unfoldable pub le_seq_num : SequenceNumber → SequenceNumber → Bool
le_seq_num a b =
    if ltb a.session b.session then true else (a.session == b.session) && leb a.counter b.counter

unfoldable pub check_msg_status : SequenceNumber → SequenceNumber → MessageStatus
unfolding le_seq_num
check_msg_status self msg_seq_num =
    if (msg_seq_num.session == self.session) && (msg_seq_num.counter == inc_u64 self.counter)
    then expected
    else (if le_seq_num msg_seq_num self then outdated else dropped_preceding)

pub record LogicalClock : Type 0 where
  pub time : ℕ
  pub timeout : ℕ

-- `LogicalClock::with`
unfoldable pub clock_with : ℕ → LogicalClock
clock_with timeout = record { time = 0; timeout = timeout }

unfoldable pub tick_and_check_timeout : LogicalClock → LogicalClock × Bool
tick_and_check_timeout c =
    if inc_u64 c.time == c.timeout
    then (record c { time = 0 }, true)
    else (record c { time = inc_u64 c.time }, false)
