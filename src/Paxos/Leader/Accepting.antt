-- ===== src/Paxos/Leader/Accepting.antt =====
-- How a leader accepts: that entries and stop signs reach the log and the followers.
use ca_op.Prelude.{
  ltb, leb, length, get_elem?, set, take, drop, All, length-append, length-set, get_elem?_lt,
  All-set, inc_u64, sub_usize, sub_usize_le, ℕ, ◌+◌, ◌-◌, ◌≤◌, ◌<◌, ◌≡◌, refl, ◌∙◌, true, Option,
  none, some, List, [], ◌∷◌, ◌++◌, arith,
}
use ca_op.Ballot.{Ballot}
use ca_op.Clocks.{SequenceNumber}
use ca_op.Messages.Paxos.{AcceptedEntryMeta, AcceptDecide, PaxosMsg, accept_decide, PaxosMessage}
use ca_op.Storage.Internal.{AcceptedMetaData}
use ca_op.LeaderState.{LeaderState, next_seq_num, get_promised_followers}
use ca_op.LeaderState.Accept.{set_latest_accept_meta, take_pending_accept_meta}
use ca_op.Paxos.{SequencePaxos, send}
use ca_op.Paxos.Decisions.{IsCached}
use ca_op.Paxos.Leader.Send.{put_msg, acceptdecide_to, acceptdecide_each, send_acceptdecide}
use ca_op.Paxos.Leader.SlowDecision.{
  length-put_msg, All-IsCached-le, promised-within, IsLeading, get_latest_accdec_message-returns,
}

module _ {ℓ} {F : Type 0} {T S : Type ℓ} where
  -- Other sequence numbers, cached indices and messages.
  abbrev pub with_accepts :
      SequencePaxos F T S
      → List SequenceNumber
      → List (Option (Ballot × ℕ))
      → List (PaxosMessage T S)
      → SequencePaxos F T S
  with_accepts s ns ms out = record s {
    leader_state = record (s.leader_state) { follower_seq_nums = ns; latest_accept_meta = ms };
    outgoing = out;
  }

  -- The leader stays one, and no message is lost.
  abbrev pub Accepts : SequencePaxos F T S → Option (SequencePaxos F T S) → Type ℓ
  Accepts s o =
      (ns : List SequenceNumber) × (ms : List (Option (Ballot × ℕ))) × (out : List
        (PaxosMessage T S))
      × (o ≡ some (with_accepts s ns ms out))
      × IsLeading (with_accepts s ns ms out)
      × (length s.outgoing ≤ length out)

  -- A new `AcceptDecide` for a follower.
  acceptdecide_new :
      (s : SequencePaxos F T S) (entries : List T) (entry_meta : List AcceptedEntryMeta) (to : ℕ)
      (last : SequenceNumber)
      → sub_usize to 1 ≡ to - 1
      → ltb (to - 1) (length s.leader_state.latest_accept_meta) ≡ true
      → ltb (to - 1) (length s.leader_state.follower_seq_nums) ≡ true
      → get_elem? s.leader_state.follower_seq_nums (to - 1) ≡ some last
      → IsLeading s
      → Accepts s (acceptdecide_to s entries entry_meta to none)
  unfolding set_latest_accept_meta next_seq_num send
  acceptdecide_new s entries entry_meta to last place inside inside' there (shape, c) =
      let k : SequenceNumber = record last { counter = inc_u64 last.counter } in
      let metas = s.leader_state.latest_accept_meta in
      let entry : Option (Ballot × ℕ) = some (s.leader_state.n_leader, length s.outgoing) in
      let msg : PaxosMessage T S = record {
        from = s.pid;
        to = to;
        msg = accept_decide (record {
          n = s.leader_state.n_leader;
          seq_num = k;
          decided_idx = s.internal_storage.cache.decided_idx;
          entries = entries;
          entry_meta = entry_meta;
          log_prefix_hash = s.accepted_prefix_hash;
        });
      } in
      let out = s.outgoing ++ msg ∷ [] in
      let more : length out ≡ length s.outgoing + 1 =
        omega (arith, length-append s.outgoing (msg ∷ [])) in
      (
        set s.leader_state.follower_seq_nums (to - 1) k,
        set metas (to - 1) entry,
        out,
        rw (place, inside, there, inside') refl,
        (
          (
            shape.0,
            length-set s.leader_state.follower_seq_nums (to - 1) k ∙ shape.1,
            shape.2,
            length-set metas (to - 1) entry ∙ shape.3,
          ),
          All-set (λ o. IsCached o (length out)) metas (to - 1) entry (omega arith)
              (All-IsCached-le metas (length s.outgoing) (length out) (omega arith) c),
        ),
        omega arith,
      )

  acceptdecide_to-Accepts :
      (s : SequencePaxos F T S) (entries : List T) (entry_meta : List AcceptedEntryMeta) (to : ℕ)
      (cached : Option (ℕ × AcceptDecide T))
      → IsLeading s
      → 0 < to
      → to ≤ s.leader_state.max_pid
      → Accepts s (acceptdecide_to s entries entry_meta to cached)
  acceptdecide_to-Accepts s entries entry_meta to none (shape, c) low high =
      let (last, there) = get_elem?_lt s.leader_state.follower_seq_nums (to - 1) (omega arith) in
      acceptdecide_new s entries entry_meta to last (sub_usize_le to 1 low) (ground arith)
        (ground arith) there (shape, c)
  acceptdecide_to-Accepts s entries entry_meta to (some (i, a)) (shape, c) low high =
      let msg : PaxosMsg T S = accept_decide (record a {
        entries = a.entries ++ entries;
        entry_meta = a.entry_meta ++ entry_meta;
        decided_idx = s.internal_storage.cache.decided_idx;
        log_prefix_hash = s.accepted_prefix_hash;
      }) in
      let same = length-put_msg s.outgoing i msg in
      (
        s.leader_state.follower_seq_nums,
        s.leader_state.latest_accept_meta,
        put_msg s.outgoing i msg,
        refl,
        (
          shape,
          All-IsCached-le s.leader_state.latest_accept_meta (length s.outgoing)
              (length (put_msg s.outgoing i msg)) (omega arith) c,
        ),
        omega arith,
      )

  acceptdecide_each-Accepts :
      (s : SequencePaxos F T S) (entries : List T) (entry_meta : List AcceptedEntryMeta)
      (followers : List ℕ)
      → IsLeading s
      → All (λ to. (0 < to) × (to ≤ s.leader_state.max_pid)) followers
      → Accepts s (acceptdecide_each s entries entry_meta followers)
  unfolding acceptdecide_each
  acceptdecide_each-Accepts s entries entry_meta [] lead inside = (
    s.leader_state.follower_seq_nums,
    s.leader_state.latest_accept_meta,
    s.outgoing,
    refl,
    lead,
    omega arith,
  )
  acceptdecide_each-Accepts s entries entry_meta (to ∷ followers) lead ((low, high), inside) =
      let (cached, found) =
        get_latest_accdec_message-returns s to (low, omega (arith, lead.0.3)) lead.1 in
      let (ns, ms, out, told, lead', more) =
        acceptdecide_to-Accepts s entries entry_meta to cached lead low high in
      let (ns', ms', out', run, lead'', more') =
        acceptdecide_each-Accepts (with_accepts s ns ms out) entries entry_meta followers lead'
          inside in
      (ns', ms', out', rw (found, told) run, lead'', omega arith)

  -- The metadata of the entries are taken from the queue.
  pub send_acceptdecide-Accepts :
      (s : SequencePaxos F T S) (accepted : AcceptedMetaData T)
      → IsLeading s
      → length accepted.entries ≤ length s.leader_state.pending_accept_meta
      → Accepts
          (record s {
            leader_state = record (s.leader_state) {
              pending_accept_meta =
                  drop (length accepted.entries) s.leader_state.pending_accept_meta;
            };
          })
          (send_acceptdecide s accepted)
  unfolding send_acceptdecide take_pending_accept_meta
  send_acceptdecide-Accepts s accepted lead enough =
      let n = length accepted.entries in
      let inside : leb n (length s.leader_state.pending_accept_meta) ≡ true = ground arith in
      let ls : LeaderState T S = record (s.leader_state) {
        pending_accept_meta = drop n s.leader_state.pending_accept_meta;
      } in
      rw inside (
        acceptdecide_each-Accepts (record s { leader_state = ls }) accepted.entries
          (take n s.leader_state.pending_accept_meta) (get_promised_followers ls) lead
          (promised-within ls lead.0))
