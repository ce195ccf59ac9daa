-- ===== src/Dom.antt =====
-- The deadline-ordered multicast, `Dom` of lib/omnipaxos/src/dom/mod.rs. A reading of the clock, a
-- time and its uncertainty, is an argument of the operation that reads it.
pub mod Buffer
pub mod Owd
pub mod Deadlines
mod Tests
use ca_op.Prelude.{ℕ, Option, none, some, List, []}
use ca_op.Prelude.Int.{ℤ, pos, ◌+ℤ◌, ◌-ℤ◌}
use ca_op.Prelude.Panic.{◌>>=◌}
use ca_op.Messages.{Role, follower}
use ca_op.Messages
use ca_op.Messages.Paxos.{EntryId, ClockTimestamp, DomPropose, DomAck}
use ca_op.Dom.Buffer.{EarlyBuffer, new_buffer, insert, last_released_deadline, remove, release}
use ca_op.Dom.Owd.{
  max_ℤ, PercentileOps, OwdEstimatorConfig, new_sample, OwdEstimator, with_config, estimate_for,
  update, OutgoingOwdTracker, track, get_max_owd,
}

pub record Dom {ℓ} (F : Type 0) (T : Type ℓ) : Type ℓ where
  pub pid : ℕ
  pub incoming_owd_estimates : OwdEstimator F
  pub outgoing_owd_estimates : OutgoingOwdTracker
  pub early_buffer : EarlyBuffer T

-- `.expect("proposal cannot be late")`
abbrev pub expect_inserted {ℓ} :
    {T : Type ℓ} → EarlyBuffer T × Option (DomPropose T) → Option (EarlyBuffer T)
expect_inserted (b, none) = some b
expect_inserted (b, some late) = none

-- The new deadline, after the last one that was released.
abbrev pub later_deadline : Option ℤ → ℤ → ℤ
later_deadline none now_with_uncertainty = now_with_uncertainty
later_deadline (some last) now_with_uncertainty = max_ℤ now_with_uncertainty (last +ℤ pos 1000)

module _ {ℓ} {F : Type 0} {T : Type ℓ} where
  -- `Dom::new`
  abbrev pub new_dom : OwdEstimatorConfig F → ℕ → Dom F T
  new_dom config pid = record {
    pid = pid;
    incoming_owd_estimates = with_config config;
    outgoing_owd_estimates = record { estimates = []; default_owd = config.max_owd };
    early_buffer = new_buffer;
  }

  unfoldable pub get_deadline : Dom F T → ℤ → ℤ
  unfolding get_max_owd
  get_deadline d time = time +ℤ get_max_owd d.outgoing_owd_estimates

  unfoldable pub create_dom_propose : Dom F T → ClockTimestamp → T → EntryId → DomPropose T
  unfolding get_deadline
  create_dom_propose d sent_time entry entry_id = record {
    entry_id = entry_id;
    sender = d.pid;
    sent_time = sent_time;
    deadline = get_deadline d sent_time.0;
    entry = entry;
  }

  unfoldable pub release_ready : Dom F T → ClockTimestamp → Dom F T × List (DomPropose T)
  unfolding release
  release_ready d now =
      let (b, proposals) = release d.early_buffer (now.0 -ℤ now.1) in
      (record d { early_buffer = b }, proposals)

  unfoldable pub extend_deadline : Dom F T → ClockTimestamp → DomPropose T → DomPropose T
  unfolding last_released_deadline
  extend_deadline d now prop = record prop {
    deadline = later_deadline (last_released_deadline d.early_buffer) (now.0 +ℤ now.1);
  }

  -- A late proposal: the leader puts it off and inserts it again; others drop it.
  unfoldable pub put_off : Dom F T → Role → ClockTimestamp → DomPropose T → Option (EarlyBuffer T)
  unfolding insert extend_deadline
  put_off d Role.leader now prop =
      expect_inserted (insert d.early_buffer (extend_deadline d now prop))
  put_off d Role.follower now prop = some d.early_buffer

  -- The `match` on the result of `early_buffer.insert(prop)`.
  abbrev pub after_insert :
      Dom F T
      → Role
      → ClockTimestamp
      → EarlyBuffer T × Option (DomPropose T)
      → Option (EarlyBuffer T)
  after_insert d role now (b, none) = some b
  after_insert d role now (b, some late) = put_off d role now late

  unfoldable pub buffer_proposal :
      Dom F T → Role → ClockTimestamp → DomPropose T → Option (EarlyBuffer T)
  unfolding insert
  buffer_proposal d role now prop = after_insert d role now (insert d.early_buffer prop)

  unfoldable pub handle_dom_ack : Dom F T → DomAck → Dom F T
  unfolding track
  handle_dom_ack d ack = record d {
    outgoing_owd_estimates = track d.outgoing_owd_estimates ack.sender ack.estimated_owd;
  }

  unfoldable pub remove_from_buffers : Dom F T → EntryId → Dom F T × Option (DomPropose T)
  unfolding remove
  remove_from_buffers d entry_id =
      let (b, prop) = remove d.early_buffer entry_id in (record d { early_buffer = b }, prop)

module _ {ℓ} {F : Type 0} {T : Type ℓ} (ops : PercentileOps F) where
  -- `received_time` and `now` are the two readings of the clock.
  unfoldable pub handle_dom_propose :
      Dom F T → DomPropose T → Role → ClockTimestamp → ClockTimestamp → Option (Dom F T × DomAck)
  unfolding new_sample update estimate_for buffer_proposal
  handle_dom_propose d prop role received_time now = do
    let sample = new_sample prop.sent_time.0 received_time.0 prop.sent_time.1 received_time.1
    estimates ← update ops d.incoming_owd_estimates prop.sender sample
    let ack : DomAck = record { sender = d.pid; estimated_owd = estimate_for estimates prop.sender }
    b ← buffer_proposal d role now prop
    some (record d { incoming_owd_estimates = estimates; early_buffer = b }, ack)
