-- ===== src/Dom/Deadlines.antt =====
-- The deadlines that `Dom` (lib/omnipaxos/src/dom/mod.rs) gives to proposals.
use ca_op.Prelude.{
  ◌==◌, Bool-cases, Option-cases, get_or_else, ℕ, ◌<◌, ◌≡◌, refl, ap, subst, ◌∙◌, inl, inr, true,
  false, none, some, List, [], ◌∷◌, arith,
}
use ca_op.Prelude.Int.{ℤ, pos, ◌+ℤ◌, ◌≤ℤ◌, ltb_ℤ, int_laws}
use ca_op.Prelude.Assoc
use ca_op.Prelude.Assoc.{nat_eq}
use ca_op.Messages.{Role}
use ca_op.Messages.Paxos.{EntryId, ClockTimestamp, DomPropose, DomAck}
use ca_op.Dom.{
  Dom, expect_inserted, get_deadline, create_dom_propose, extend_deadline, put_off, after_insert,
  buffer_proposal, handle_dom_propose,
}
use ca_op.Dom.Buffer.{
  BufferKey, key_of, le_key, new_entry, EarlyBuffer, push, is_late, insert, last_released_deadline,
}
use ca_op.Dom.Buffer.Heap.{le_key_total, le_key_trans, le_key-deadline}
use ca_op.Dom.Owd.{
  max_ℤ, PercentileOps, IsIndex, OwdSample, new_sample, estimate_for, tracked, max_value,
  get_max_owd,
}
use ca_op.Dom.Owd.Bounds.{IsEstimate, IsWindow, window_of, update-IsEstimate}

max_ℤ-le : (a b : ℤ) → (a ≤ℤ max_ℤ a b) × (b ≤ℤ max_ℤ a b)
max_ℤ-le a b = elim (Bool-cases (ltb_ℤ a b)) [
  | inl less ↦ rw less (ground arith, omega arith)
  | inr more ↦ rw more (omega arith, ground arith)
]

max_value-head :
    (m : List (ℕ × ℤ)) (j : ℕ) (v : ℤ)
    → (top : ℤ) × (max_value ((j, v) ∷ m) ≡ some top) × (v ≤ℤ top)
max_value-head m j v = elim (Option-cases (max_value m)) [
  | inl bare ↦ rw bare (v, refl, omega arith)
  | inr (top, found) ↦ rw found (max_ℤ v top, refl, (max_ℤ-le v top).0)
]

max_value-get :
    (m : List (ℕ × ℤ)) (r : ℕ) (owd : ℤ)
    → Assoc.get r m ≡ some owd
    → (top : ℤ) × (max_value m ≡ some top) × (owd ≤ℤ top)
unfolding Assoc.get
max_value-get [] r owd e = ground arith
max_value-get ((j, v) ∷ m) r owd e = elim (Bool-cases (j == r)) [
  | inl same ↦
      let equal : v ≡ owd = ap (λ o. get_or_else o v) (rw same at e) in
      let (top, found, le) = max_value-head m j v in (top, found, subst (λ a. a ≤ℤ top) equal le)
  | inr other ↦
      let (top, found, le) = max_value-get m r owd (rw other at e) in
      rw found (max_ℤ v top, refl, omega (arith, (max_ℤ-le v top).1))
]

later_not_le :
    (last : BufferKey) (n : ℤ) (id : EntryId)
    → le_key (record { deadline = max_ℤ n (last.deadline +ℤ pos 1000); entry_id = id }) last ≡ false
unfolding le_key ◌+ℤ◌
later_not_le last n id = ground arith

module _ {ℓ} {T : Type ℓ} where
  insert_early :
      (b : EarlyBuffer T) (p : DomPropose T)
      → is_late b p ≡ false
      → insert b p ≡ (record b { heap = push (new_entry p) b.heap }, none)
  unfolding insert
  insert_early b p h = rw (insert, h) refl

  insert_late :
      (b : EarlyBuffer T) (p : DomPropose T) → is_late b p ≡ true → insert b p ≡ (b, some p)
  unfolding insert
  insert_late b p h = rw (insert, h) refl

  -- The proposal that the leader keeps: the one that came in, or the same one put off.
  abbrev pub IsKept : EarlyBuffer T → DomPropose T → DomPropose T → EarlyBuffer T → Type ℓ
  IsKept b prop kept b' =
      (kept.entry_id ≡ prop.entry_id)
      × (kept.entry ≡ prop.entry)
      × (prop.deadline ≤ℤ kept.deadline)
      × (b' ≡ record b { heap = push (new_entry kept) b.heap })

  -- A proposal that is not late has a later deadline than one that is.
  late_le_early :
      (b : EarlyBuffer T) (p q : DomPropose T)
      → is_late b p ≡ true
      → is_late b q ≡ false
      → p.deadline ≤ℤ q.deadline
  unfolding is_late
  late_le_early b p q h k = elim (Option-cases b.last_released) [
    | inl e ↦ absurd (ground (arith, rw e at h))
    | inr (last, e) ↦ le_key-deadline (key_of p) (key_of q) (
        le_key_trans (key_of p) last (key_of q) (rw e at h)
          (le_key_total (key_of q) last (rw e at k)))
  ]

module _ {ℓ} {F : Type 0} {T : Type ℓ} where
  -- The deadline of a new proposal leaves every peer whose delay is known at least that delay.
  pub create_dom_propose-covers :
      (d : Dom F T) (sent_time : ClockTimestamp) (x : T) (id : EntryId) (receiver : ℕ) (owd : ℤ)
      → Assoc.get receiver d.outgoing_owd_estimates.estimates ≡ some owd
      → (tracked d.outgoing_owd_estimates receiver ≡ owd)
        × (sent_time.0 +ℤ owd ≤ℤ (create_dom_propose d sent_time x id).deadline)
  unfolding create_dom_propose get_deadline get_max_owd tracked
  create_dom_propose-covers d sent_time x id receiver owd e =
      let (top, found, le) = max_value-get d.outgoing_owd_estimates.estimates receiver owd e in
      (rw e refl, rw found (omega (int_laws, le)))

  extended_is_not_late :
      (d : Dom F T) (now : ClockTimestamp) (prop : DomPropose T)
      → is_late d.early_buffer (extend_deadline d now prop) ≡ false
  unfolding is_late extend_deadline last_released_deadline
  extended_is_not_late d now prop = elim (Option-cases d.early_buffer.last_released) [
    | inl e ↦ rw e refl
    | inr (last, e) ↦ rw e (later_not_le last (now.0 +ℤ now.1) prop.entry_id)
  ]

  extended_id :
      (d : Dom F T) (now : ClockTimestamp) (prop : DomPropose T)
      → (extend_deadline d now prop).entry_id ≡ prop.entry_id
  unfolding extend_deadline
  extended_id d now prop = refl

  extended_entry :
      (d : Dom F T) (now : ClockTimestamp) (prop : DomPropose T)
      → (extend_deadline d now prop).entry ≡ prop.entry
  unfolding extend_deadline
  extended_entry d now prop = refl

  buffer_proposal-leader :
      (d : Dom F T) (now : ClockTimestamp) (prop : DomPropose T)
      → (b' : EarlyBuffer T) × (buffer_proposal d Role.leader now prop ≡ some b')
        × (kept : DomPropose T) × IsKept d.early_buffer prop kept b'
  unfolding buffer_proposal put_off
  buffer_proposal-leader d now prop = elim (Bool-cases (is_late d.early_buffer prop)) [
    | inr early ↦ (
      record (d.early_buffer) { heap = push (new_entry prop) d.early_buffer.heap },
      ap (after_insert d Role.leader now) (insert_early d.early_buffer prop early),
      prop,
      (refl, refl, omega arith, refl),
    )
    | inl late ↦
        let later = extend_deadline d now prop in
        let fits = extended_is_not_late d now prop in
        (
          record (d.early_buffer) { heap = push (new_entry later) d.early_buffer.heap },
          ap (after_insert d Role.leader now) (insert_late d.early_buffer prop late)
              ∙ ap expect_inserted (insert_early d.early_buffer later fits),
          later,
          (
            extended_id d now prop,
            extended_entry d now prop,
            late_le_early d.early_buffer prop later late fits,
            refl,
          ),
        )
  ]

module _ {ℓ} {F : Type 0} {T : Type ℓ} (ops : PercentileOps F) where
  -- The leader handles every proposal without a panic and keeps it: it comes into the early buffer
  -- with its id and entry, and with its deadline or a later one. The answer is an estimate within
  -- the bounds. The window size is positive, and the window of the sender as `update` leaves it.
  pub handle_dom_propose-keeps :
      (d : Dom F T) (prop : DomPropose T) (received_time now : ClockTimestamp)
      (seen : List OwdSample)
      → IsIndex ops
      → 0 < d.incoming_owd_estimates.config.window_size
      → IsWindow d.incoming_owd_estimates.config.window_size seen
          (window_of ops d.incoming_owd_estimates prop.sender)
      → (d' : Dom F T) × (ack : DomAck) × (handle_dom_propose ops d prop Role.leader received_time
            now
          ≡ some (d', ack))
        × IsEstimate d.incoming_owd_estimates.config.max_owd ack.estimated_owd
        × (kept : DomPropose T) × IsKept d.early_buffer prop kept d'.early_buffer
  unfolding handle_dom_propose
  handle_dom_propose-keeps d prop received_time now seen i positive w =
      let sample = new_sample prop.sent_time.0 received_time.0 prop.sent_time.1 received_time.1 in
      let (e, run, w', good) =
        update-IsEstimate ops d.incoming_owd_estimates prop.sender seen sample i positive w in
      let (b, put, kept, is_kept) = buffer_proposal-leader d now prop in
      (
        record d { incoming_owd_estimates = e; early_buffer = b },
        record { sender = d.pid; estimated_owd = estimate_for e prop.sender },
        rw (run, put) refl,
        good,
        kept,
        is_kept,
      )
