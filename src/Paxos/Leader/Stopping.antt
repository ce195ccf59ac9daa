-- ===== src/Paxos/Leader/Stopping.antt =====
-- How a leader accepts a stop sign, and what is refused after it.
use ca_op.Prelude.{
  ltb, Bool-cases, is_some, length, get_elem?, set, drop, All, length-set, get_elem?_lt, inc_u64,
  sub_usize, sub_usize_le, ℕ, ◌+◌, ◌-◌, ◌≤◌, ◌<◌, ◌≡◌, refl, sym, ap, subst, ◌∙◌, inl, inr, true,
  false, Option, none, some, List, [], ◌∷◌, ◌++◌, map, append-nil, append_assoc, arith,
}
use ca_op.Clocks.{SequenceNumber}
use ca_op.Config.{ClusterConfig}
use ca_op.Messages
use ca_op.Messages.{Role, accept}
use ca_op.Messages.Paxos.{EntryId, ClockTimestamp, accept_stop_sign, PaxosMessage}
use ca_op.Storage.{StopSign}
use ca_op.Storage.Internal
use ca_op.Storage.Internal.{
  InternalStorage, AcceptedMetaData, append_stopsign, flush_if_full_batch,
  append_entries_without_batching,
}
use ca_op.Storage.Cache.{cache_stopsign, is_empty}
use ca_op.Storage.Memory
use ca_op.LeaderState.{LeaderState, next_seq_num, get_promised_followers}
use ca_op.LeaderState.Accept.{set_accepted_idx}
use ca_op.LeaderState.Indexes.{InRange}
use ca_op.Dom.Owd.{PercentileOps}
use ca_op.Paxos.{SequencePaxos, send}
use ca_op.Paxos.Proposals.{pending_reconfig_entry, accepted_reconfiguration, append_with_id}
use ca_op.Paxos.Replica.{reconfigured, pending_reconfig_config, reconfigure}
use ca_op.Paxos.Leader.{place_stopsign, handle_forwarded_stopsign}
use ca_op.Paxos.Leader.Send.{number, send_accept_stopsign, send_stopsigns}
use ca_op.Paxos.Leader.Decide.{accept_stopsign_leader}
use ca_op.Paxos.Leader.Messages.{InRange-length, with_sent, followers-InRange}
use ca_op.Paxos.Leader.SlowDecision.{IsLeading}
use ca_op.Paxos.Leader.Accepting.{with_accepts, send_acceptdecide-Accepts}

is_empty-nil {ℓ} : {T : Type ℓ} (xs : List T) → is_empty xs ≡ true → xs ≡ []
is_empty-nil [] e = refl
is_empty-nil (x ∷ xs) e = absurd (ground (arith, e))

module _ {ℓ} {T S : Type ℓ} where
  append_stopsign_empty :
      (i : InternalStorage T S) (ss : StopSign)
      → is_empty i.cache.batched_entries ≡ true
      → (append_stopsign i ss).1 ≡ none
  unfolding append_stopsign cache_stopsign flush_if_full_batch
  append_stopsign_empty i ss nothing = rw nothing refl

  append_stopsign_full :
      (i : InternalStorage T S) (ss : StopSign)
      → is_empty i.cache.batched_entries ≡ false
      → (m : AcceptedMetaData T) × ((append_stopsign i ss).1 ≡ some m)
        × (m.entries ≡ i.cache.batched_entries)
  unfolding append_stopsign cache_stopsign flush_if_full_batch append_entries_without_batching
  append_stopsign_full i ss entries = (
    record {
      accepted_idx = i.cache.accepted_idx + length i.cache.batched_entries;
      entries = i.cache.batched_entries;
    },
    rw entries refl,
    refl,
  )

module _ {ℓ} {F : Type 0} {T S : Type ℓ} where
  -- The stop sign for a follower.
  send_accept_stopsign-next :
      (s : SequencePaxos F T S) (to : ℕ) (ss : StopSign) (last : SequenceNumber)
      → let k : SequenceNumber = record last { counter = inc_u64 last.counter } in
        sub_usize to 1 ≡ to - 1
        → ltb (to - 1) (length s.leader_state.follower_seq_nums) ≡ true
        → get_elem? s.leader_state.follower_seq_nums (to - 1) ≡ some last
        → send_accept_stopsign s to ss false
          ≡ some (
              with_sent s (set s.leader_state.follower_seq_nums (to - 1) k) (
                record {
                  from = s.pid;
                  to = to;
                  msg =
                      accept_stop_sign
                        (record { n = s.leader_state.n_leader; seq_num = k; ss = ss });
                }
                ∷ []))
  unfolding send_accept_stopsign number next_seq_num send
  send_accept_stopsign-next s to ss last place inside there = rw (place, inside, there) refl

  -- The storage is kept, and every follower of the list gets the stop sign.
  abbrev SendsStopsigns : SequencePaxos F T S → List ℕ → Option (SequencePaxos F T S) → Type ℓ
  SendsStopsigns s followers o =
      (s' : SequencePaxos F T S) × (msgs : List (PaxosMessage T S)) × (o ≡ some s')
      × (s'.internal_storage ≡ s.internal_storage)
      × (s'.outgoing ≡ s.outgoing ++ msgs)
      × (map (λ m. m.to) msgs ≡ followers)

  send_stopsigns-SendsStopsigns :
      (s : SequencePaxos F T S) (followers : List ℕ) (ss : StopSign)
      → All (InRange s.leader_state.follower_seq_nums) followers
      → SendsStopsigns s followers (send_stopsigns s followers ss)
  unfolding send_stopsigns
  send_stopsigns-SendsStopsigns s [] ss a = (s, [], refl, refl, sym (append-nil s.outgoing), refl)
  send_stopsigns-SendsStopsigns s (to ∷ followers) ss (here, a) =
      let seqs = s.leader_state.follower_seq_nums in
      let (last, there) = get_elem?_lt seqs (to - 1) (omega (arith, here)) in
      let k : SequenceNumber = record last { counter = inc_u64 last.counter } in
      let m : PaxosMessage T S = record {
        from = s.pid;
        to = to;
        msg = accept_stop_sign (record { n = s.leader_state.n_leader; seq_num = k; ss = ss });
      } in
      let inside : ltb (to - 1) (length seqs) ≡ true = ground (arith, here) in
      let ns = set seqs (to - 1) k in
      let (s', msgs, run, storage, sent, dests) =
        send_stopsigns-SendsStopsigns (with_sent s ns (m ∷ [])) followers ss
          (InRange-length seqs ns followers (length-set seqs (to - 1) k) a) in
      (
        s',
        m ∷ msgs,
        rw (send_accept_stopsign-next s to ss last (sub_usize_le to 1 here.0) inside there) run,
        storage,
        sent ∙ append_assoc s.outgoing (m ∷ []) msgs,
        ap (λ xs. to ∷ xs) dests,
      )

  -- The replica has accepted the stop sign behind all its entries.
  abbrev pub Stops : SequencePaxos F T S → StopSign → SequencePaxos F T S → Type ℓ
  Stops s ss s' =
      (s'.internal_storage.cache.stopsign ≡ some ss)
      × (s'.internal_storage.storage.stopsign ≡ some ss)
      × (s'.internal_storage.cache.batched_entries ≡ [])
      × (s'.internal_storage.storage.log
          ≡ s.internal_storage.storage.log ++ s.internal_storage.cache.batched_entries)
      × (s'.internal_storage.cache.accepted_idx
          ≡ s.internal_storage.cache.accepted_idx
            + length s.internal_storage.cache.batched_entries
            + 1)

  -- After the entries of the batch: the leader's own index, and the stop sign for the followers.
  finish_stopsign :
      (s : SequencePaxos F T S) (ss : StopSign) (idx : ℕ)
      → IsLeading s
      → 0 < s.pid
      → s.pid ≤ s.leader_state.max_pid
      → (ls : LeaderState T S) × (set_accepted_idx s.leader_state s.pid idx ≡ some ls)
        × SendsStopsigns
            (record s { leader_state = ls })
            (get_promised_followers ls)
            (send_stopsigns (record s { leader_state = ls }) (get_promised_followers ls) ss)
  unfolding set_accepted_idx
  finish_stopsign s ss idx (shape, c) low high =
      let ls : LeaderState T S = record (s.leader_state) {
        accepted_indexes = set s.leader_state.accepted_indexes (s.pid - 1) idx;
      } in
      let inside : ltb (s.pid - 1) (length s.leader_state.accepted_indexes) ≡ true = ground arith in
      (
        ls,
        rw (sub_usize_le s.pid 1 low, inside) refl,
        send_stopsigns-SendsStopsigns (record s { leader_state = ls }) (get_promised_followers ls)
            ss
            (followers-InRange (record s { leader_state = ls })
              (
                shape.0,
                shape.1,
                length-set s.leader_state.accepted_indexes (s.pid - 1) idx ∙ shape.2,
                shape.3,
              )),
      )

  -- The storage after a stop sign.
  stopped_storage :
      (i : InternalStorage T S) (ss : StopSign) (s' : SequencePaxos F T S)
      → s'.internal_storage ≡ (append_stopsign i ss).0
      → (s'.internal_storage.cache.stopsign ≡ some ss)
        × (s'.internal_storage.storage.stopsign ≡ some ss)
        × (s'.internal_storage.cache.batched_entries ≡ [])
        × (s'.internal_storage.storage.log ≡ i.storage.log ++ i.cache.batched_entries)
        × (s'.internal_storage.cache.accepted_idx
            ≡ i.cache.accepted_idx + length i.cache.batched_entries + 1)
  unfolding append_stopsign cache_stopsign flush_if_full_batch append_entries_without_batching
      Memory.append_entries Memory.set_stopsign Internal.place_stopsign
  stopped_storage i ss s' e = elim (Bool-cases (is_empty i.cache.batched_entries)) [
    | inl nothing ↦
        let nil = is_empty-nil i.cache.batched_entries nothing in
        rw (e, nothing, nil) (refl, refl, refl, sym (append-nil i.storage.log), omega arith)
    | inr entries ↦ rw (e, entries) (refl, refl, refl, refl, refl)
  ]

  -- A leader with a place for every pid, and with the metadata of the entries in its batch, accepts a
  -- stop sign without a panic: it comes behind all entries.
  accept_stopsign_leader-Stops :
      (s : SequencePaxos F T S) (ss : StopSign)
      → IsLeading s
      → 0 < s.pid
      → s.pid ≤ s.leader_state.max_pid
      → length s.internal_storage.cache.batched_entries ≤ length s.leader_state.pending_accept_meta
      → (s' : SequencePaxos F T S) × (accept_stopsign_leader s ss ≡ some s') × Stops s ss s'
  unfolding accept_stopsign_leader
  accept_stopsign_leader-Stops s ss leading low high enough =
      let i = s.internal_storage in
      let kept : SequencePaxos F T S = record s { internal_storage = (append_stopsign i ss).0 } in
      let idx = kept.internal_storage.cache.accepted_idx in
      elim (Bool-cases (is_empty i.cache.batched_entries)) [
        | inl nothing ↦
            let (ls, noted, (s', msgs, run, storage, _, _)) =
              finish_stopsign kept ss idx leading low high in
            (
              s',
              rw (append_stopsign_empty i ss nothing, noted) run,
              stopped_storage i ss s' storage,
            )
        | inr entries ↦
            let (m, flushed, all_of) = append_stopsign_full i ss entries in
            let (ns, ms, out, sent, leading', more) = send_acceptdecide-Accepts kept m leading (
              subst (λ es. length es ≤ length s.leader_state.pending_accept_meta) (sym all_of)
                enough) in
            let told : SequencePaxos F T S =
              with_accepts
                (record kept {
                  leader_state = record (kept.leader_state) {
                    pending_accept_meta =
                        drop (length m.entries) s.leader_state.pending_accept_meta;
                  };
                })
                ns ms out in
            let (ls, noted, (s', msgs, run, storage, _, _)) =
              finish_stopsign told ss idx leading' low high in
            (s', rw (flushed, sent, noted) run, stopped_storage i ss s' storage)
      ]

  -- A leader in the accept phase that has not accepted a stop sign, with a place for every pid and
  -- with the metadata of the entries in its batch, accepts a reconfiguration without a panic, behind
  -- all entries. In the state that this leaves it refuses every proposal, which it returns, and every
  -- other reconfiguration, and ignores a forwarded stop sign.
  pub reconfigure-refuses :
      (percentiles : PercentileOps F) (s : SequencePaxos F T S) (c c' : ClusterConfig)
      (metadata metadata' : Option (List ℕ)) (x : T) (entry_id : EntryId) (ss : StopSign)
      (sent_time received_time now : ClockTimestamp)
      → s.state ≡ (Messages.Role.leader, accept)
      → s.internal_storage.cache.stopsign ≡ none
      → IsLeading s
      → 0 < s.pid
      → s.pid ≤ s.leader_state.max_pid
      → length s.internal_storage.cache.batched_entries ≤ length s.leader_state.pending_accept_meta
      → (s' : SequencePaxos F T S) × (reconfigure s c metadata ≡ some (reconfigured s'))
        × Stops s (record { next_config = c; metadata = metadata }) s'
        × (append_with_id percentiles s' x entry_id sent_time received_time now
            ≡ some (pending_reconfig_entry x))
        × (reconfigure s' c' metadata' ≡ some (pending_reconfig_config c' metadata'))
        × (handle_forwarded_stopsign s' ss ≡ some s')
  unfolding reconfigure append_with_id handle_forwarded_stopsign accepted_reconfiguration
  reconfigure-refuses percentiles s c c' metadata metadata' x entry_id ss sent_time received_time
        now leads running leading low high enough =
      let sign : StopSign = record { next_config = c; metadata = metadata } in
      let (s', run, stops) = accept_stopsign_leader-Stops s sign leading low high enough in
      let none_yet : is_some s.internal_storage.cache.stopsign ≡ false = ap is_some running in
      let placed : place_stopsign s sign s.state ≡ some s' =
        ap (λ st. place_stopsign s sign st) leads ∙ run in
      (s', rw (none_yet, placed) refl, stops, rw stops.0 refl, rw stops.0 refl, rw stops.0 refl)
