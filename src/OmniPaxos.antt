-- ===== src/OmniPaxos.antt =====
-- A server, `OmniPaxos` of lib/omnipaxos/src/omni_paxos.rs: a replica and its ballot leader
-- election, with the clocks that drive them. `none` is a panic. `clock k` is the reading of the
-- physical clock that an operation makes as number `k`.
pub mod Config
pub mod Build
pub mod Requests
pub mod Startup
mod Tests
use ca_op.Prelude.{
  ◌==◌, if◌then◌else◌, is_some, inc_u32, ℕ, Bool, not, ◌&&◌, Option, none, some, List, [], ◌++◌,
  map,
}
use ca_op.Prelude.Panic.{◌>>=◌}
use ca_op.Prelude.Int.{ℤ}
use ca_op.Ballot.{Ballot}
use ca_op.Clocks.{LogicalClock, tick_and_check_timeout}
use ca_op.Messages.{accept, BleMessage}
use ca_op.Messages.Paxos.{DomHash, EntryId, ClockTimestamp, PaxosMessage}
use ca_op.Storage.{SnapshotOps, StopSign}
use ca_op.Election
use ca_op.Election.{BallotLeaderElection, hb_timeout}
use ca_op.Dom.Owd.{PercentileOps}
use ca_op.Paxos
use ca_op.Paxos.{SequencePaxos, eq_phase}
use ca_op.Paxos.Proposals
use ca_op.Paxos.Leader.{handle_leader}
use ca_op.Paxos.Release.{release_requests}
use ca_op.Paxos.Replica
use ca_op.Paxos.Replica.{take_outgoing_msgs, resend_message_timeout, flush_batch_timeout}

pub record OmniPaxos {ℓ} (F : Type 0) (T S : Type ℓ) : Type ℓ where
  pub seq_paxos : SequencePaxos F T S
  pub ble : BallotLeaderElection
  pub election_clock : LogicalClock
  pub resend_message_clock : LogicalClock
  pub flush_batch_clock : LogicalClock
  pub release_requests_clock : LogicalClock

-- `Message` of lib/omnipaxos/src/messages.rs.
pub data Message {ℓ} (T S : Type ℓ) : Type ℓ where
  sequence_paxos : PaxosMessage T S → Message T S
  ble_message : BleMessage → Message T S

module _ {ℓ} {F : Type 0} {T S : Type ℓ} where
  -- The new state of the replica.
  abbrev pub with_paxos : OmniPaxos F T S → SequencePaxos F T S → OmniPaxos F T S
  with_paxos s seq_paxos = record s { seq_paxos = seq_paxos }

  -- The leader, and whether this node is in the accept phase.
  unfoldable pub get_current_leader : OmniPaxos F T S → Option (ℕ × Bool)
  get_current_leader s =
      let promised_pid = (Paxos.get_promise s.seq_paxos).pid in
      if promised_pid == 0 then none else some (promised_pid, eq_phase s.seq_paxos.state.1 accept)

  unfoldable pub take_outgoing_messages : OmniPaxos F T S → OmniPaxos F T S × List (Message T S)
  unfolding take_outgoing_msgs
  take_outgoing_messages s =
      let (seq_paxos, msgs) = take_outgoing_msgs s.seq_paxos in
      (
        record s { seq_paxos = seq_paxos; ble = record (s.ble) { outgoing = [] } },
        map sequence_paxos msgs ++ map ble_message s.ble.outgoing,
      )

  unfoldable pub is_reconfigured : OmniPaxos F T S → Option StopSign
  unfolding Proposals.is_reconfigured
  is_reconfigured s = Proposals.is_reconfigured s.seq_paxos

  unfoldable pub set_priority : OmniPaxos F T S → ℕ → OmniPaxos F T S
  unfolding Election.set_priority
  set_priority s p = record s { ble = Election.set_priority s.ble p }

  unfoldable pub try_become_leader : OmniPaxos F T S → Option (OmniPaxos F T S)
  unfolding handle_leader
  try_become_leader s =
      handle_leader s.seq_paxos
        (record (s.ble.current_ballot) { n = inc_u32 (Paxos.get_promise s.seq_paxos).n })
      >>= λ seq_paxos. some (with_paxos s seq_paxos)

  -- A leader that the election returns, for the replica.
  abbrev pub elect : OmniPaxos F T S → Option Ballot → Option (OmniPaxos F T S)
  elect s none = some s
  elect s (some new_leader) =
      handle_leader s.seq_paxos new_leader >>= λ seq_paxos. some (with_paxos s seq_paxos)

  unfoldable pub election_timeout : OmniPaxos F T S → Option (OmniPaxos F T S)
  unfolding hb_timeout handle_leader
  election_timeout s =
      let (ble, new_leader) = hb_timeout s.ble s.seq_paxos.state (Paxos.get_promise s.seq_paxos) in
      elect (record s { ble = ble }) new_leader

  -- The three parts of `tick`: a clock, and what it drives.
  unfoldable pub tick_election : OmniPaxos F T S → Option (OmniPaxos F T S)
  unfolding tick_and_check_timeout election_timeout
  tick_election s =
      let (c, timed_out) = tick_and_check_timeout s.election_clock in
      if timed_out
      then election_timeout (record s { election_clock = c })
      else some (record s { election_clock = c })

  unfoldable pub tick_resend : OmniPaxos F T S → Option (OmniPaxos F T S)
  unfolding tick_and_check_timeout resend_message_timeout
  tick_resend s =
      let (c, timed_out) = tick_and_check_timeout s.resend_message_clock in
      if timed_out
      then (resend_message_timeout s.seq_paxos >>= λ seq_paxos.
          some (record s { resend_message_clock = c; seq_paxos = seq_paxos }))
      else some (record s { resend_message_clock = c })

  unfoldable pub tick_flush : OmniPaxos F T S → Option (OmniPaxos F T S)
  unfolding tick_and_check_timeout flush_batch_timeout
  tick_flush s =
      let (c, timed_out) = tick_and_check_timeout s.flush_batch_clock in
      if timed_out
      then (flush_batch_timeout s.seq_paxos >>= λ seq_paxos.
          some (record s { flush_batch_clock = c; seq_paxos = seq_paxos }))
      else some (record s { flush_batch_clock = c })

  unfoldable pub tick : OmniPaxos F T S → Option (OmniPaxos F T S)
  unfolding tick_election tick_resend tick_flush
  tick s = tick_election s >>= λ s₁. tick_resend s₁ >>= λ s₂. tick_flush s₂

module _ {ℓ} {F : Type 0} {T S : Type ℓ} (hash_of : EntryId → ℤ → DomHash) where
  unfoldable pub poll : OmniPaxos F T S → ClockTimestamp → Option (OmniPaxos F T S)
  unfolding tick_and_check_timeout is_reconfigured release_requests
  poll s now =
      let (c, timed_out) = tick_and_check_timeout s.release_requests_clock in
      if timed_out && not (is_some (is_reconfigured s))
      then (release_requests hash_of s.seq_paxos now >>= λ seq_paxos.
          some (record s { release_requests_clock = c; seq_paxos = seq_paxos }))
      else some (record s { release_requests_clock = c })

module _ {ℓ} {F : Type 0} {T S : Type ℓ} (ops : SnapshotOps T S) (percentiles : PercentileOps F)
    (clock : ℕ → ClockTimestamp) where
  unfoldable pub handle_incoming : OmniPaxos F T S → Message T S → Option (OmniPaxos F T S)
  unfolding Replica.handle Election.handle
  handle_incoming s (sequence_paxos p) =
      Replica.handle ops percentiles clock s.seq_paxos p >>= λ seq_paxos.
      some (with_paxos s seq_paxos)
  handle_incoming s (ble_message b) = some (record s { ble = Election.handle s.ble b })
