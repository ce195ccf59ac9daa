-- ===== src/OmniPaxos/Startup.antt =====
-- What a server starts with, or why it does not start.
use ca_op.Prelude.{
  Option-cases, length-replicate, ℕ, ◌≤◌, ◌<◌, max, ◌≡◌, refl, sym, ap, subst, ◌∙◌, ◌⊎◌, inl, inr,
  Option, none, some, List, [], ◌∷◌, arith,
}
use ca_op.Prelude.Assoc.{nat_eq, contains}
use ca_op.Ballot.{Ballot}
use ca_op.Clocks.{clock_with}
use ca_op.Config.{
  ConfigError, own_pid_missing, Validated, valid, invalid, valid_config, and_then, validate,
}
use ca_op.Messages
use ca_op.Messages.{Role, recover, none_phase}
use ca_op.Messages.Paxos.{prepare_req}
use ca_op.Storage.Internal
use ca_op.Storage.Internal.{with_storage}
use ca_op.Storage.Memory.{MemoryStorage}
use ca_op.LeaderState.{leader_state_with}
use ca_op.Dom.Owd.{PercentileOps}
use ca_op.Election.{ble_with, new_hb_round}
use ca_op.Paxos.{SequencePaxos}
use ca_op.Paxos.Start.{max_peer, prepare_reqs, start_state, start_with, paxos_with}
use ca_op.Paxos.Leader.SlowDecision.{IsLeading}
use ca_op.Paxos.Leader.Leading.{to_each, IsCached-replicate}
use ca_op.OmniPaxos.{OmniPaxos}
use ca_op.OmniPaxos.Config.{
  ServerConfig, OmniPaxosConfig, validate_server, validate_config, peers_of, ble_config,
  paxos_config,
}
use ca_op.OmniPaxos.Build.{built, invalid_config, build_valid, build}

max_peer_cons : (p : ℕ) (ps : List ℕ) → (m : ℕ) × (max_peer (p ∷ ps) ≡ some m)
unfolding max_peer
max_peer_cons p ps = elim (Option-cases (max_peer ps)) [
  | inl e ↦ (p, rw e refl)
  | inr (top, e) ↦ (max p top, rw e refl)
]

prepare_reqs-to_each {ℓ} :
    {T S : Type ℓ} (pid : ℕ) (b : Ballot) (peers : List ℕ)
    → prepare_reqs {T = T} {S = S} pid b peers ≡ to_each pid peers (prepare_req (record { n = b }))
unfolding prepare_reqs
prepare_reqs-to_each pid b [] = refl
prepare_reqs-to_each pid b (peer ∷ peers) =
    ap (λ ms. record { from = pid; to = peer; msg = prepare_req (record { n = b }) } ∷ ms)
      (prepare_reqs-to_each pid b peers)

module _ {ℓ} {F : Type 0} {T S : Type ℓ} where
  -- A replica without a promise in its storage waits; one with a promise keeps it, recovers, and
  -- asks every peer for a `Prepare`.
  abbrev pub StartsFrom : Option Ballot → SequencePaxos F T S → Type ℓ
  StartsFrom none s = (s.state ≡ (Messages.Role.follower, none_phase)) × (s.outgoing ≡ [])
  StartsFrom (some b) s =
      (s.state ≡ (Messages.Role.follower, recover))
      × (s.internal_storage.cache.promise ≡ b)
      × (s.outgoing ≡ to_each s.pid s.peers (prepare_req (record { n = b })))

  -- The replica is the one of the configuration, can take part in elections, and has what its
  -- storage had.
  abbrev pub Starts : OmniPaxosConfig F → MemoryStorage T S → SequencePaxos F T S → Type ℓ
  Starts c storage s =
      (s.pid ≡ c.server_config.pid)
      × (s.peers ≡ peers_of c)
      × (s.pid ≤ s.leader_state.max_pid)
      × IsLeading s
      × StartsFrom storage.n_prom s
      × (s.internal_storage.storage.log ≡ storage.log)
      × (s.internal_storage.cache.decided_idx ≡ storage.ld)

  start_with-Starts :
      (c : OmniPaxosConfig F) (storage : MemoryStorage T S) (m : ℕ) (o : Option Ballot)
      → storage.n_prom ≡ o
      → Starts c storage (
          start_with
            (paxos_config c)
            storage
            (max m c.server_config.pid)
            (start_state c.server_config.pid (peers_of c) o))
  unfolding start_with start_state paxos_config leader_state_with Internal.set_promise with_storage
  start_with-Starts c storage m none e =
      let top = max m c.server_config.pid in
      (
        refl,
        refl,
        omega arith,
        (
          (
            length-replicate top _,
            length-replicate top _,
            length-replicate top _,
            length-replicate top _,
          ),
          IsCached-replicate top 0,
        ),
        rw e (refl, refl),
        refl,
        refl,
      )
  start_with-Starts c storage m (some b) e =
      let top = max m c.server_config.pid in
      (
        refl,
        refl,
        omega arith,
        (
          (
            length-replicate top _,
            length-replicate top _,
            length-replicate top _,
            length-replicate top _,
          ),
          IsCached-replicate top _,
        ),
        rw e (refl, refl, prepare_reqs-to_each c.server_config.pid b (peers_of c)),
        refl,
        refl,
      )

  -- The server that is built.
  abbrev pub IsStarted : OmniPaxosConfig F → MemoryStorage T S → OmniPaxos F T S → Type ℓ
  IsStarted c storage s =
      Starts c storage s.seq_paxos
      × (0 < s.seq_paxos.pid)
      × (s.ble.pid ≡ s.seq_paxos.pid)
      × (s.ble.peers ≡ s.seq_paxos.peers)
      × (0 < s.election_clock.timeout)
      × (0 < s.resend_message_clock.timeout)
      × (0 < s.release_requests_clock.timeout)

  -- The server with the replica that has been started.
  server_with : OmniPaxosConfig F → MemoryStorage T S → SequencePaxos F T S → OmniPaxos F T S
  unfolding ble_with ble_config clock_with
  server_with c storage seq_paxos = record {
    seq_paxos = seq_paxos;
    ble = ble_with (ble_config c) storage.n_prom;
    election_clock = clock_with c.server_config.election_tick_timeout;
    resend_message_clock = clock_with c.server_config.resend_message_tick_timeout;
    flush_batch_clock = clock_with c.server_config.flush_batch_tick_timeout;
    release_requests_clock = clock_with c.server_config.release_requests_poll_timeout;
  }

  server_with-IsStarted :
      (c : OmniPaxosConfig F) (storage : MemoryStorage T S) (s : SequencePaxos F T S)
      → (0 < c.server_config.pid)
        × (0 < c.server_config.election_tick_timeout)
        × (0 < c.server_config.resend_message_tick_timeout)
        × (0 < c.server_config.release_requests_poll_timeout)
      → Starts c storage s
      → IsStarted c storage (server_with c storage s)
  unfolding server_with ble_with ble_config clock_with new_hb_round
  server_with-IsStarted c storage s (pid, election, resend, release) starts = (
    starts,
    subst (λ n. 0 < n) (sym starts.0) pid,
    sym starts.0,
    sym starts.1,
    election,
    resend,
    release,
  )

  build_valid-cases :
      (c : OmniPaxosConfig F) (storage : MemoryStorage T S) (peers : List ℕ)
      → peers_of c ≡ peers
      → (0 < c.server_config.pid)
        × (0 < c.server_config.election_tick_timeout)
        × (0 < c.server_config.resend_message_tick_timeout)
        × (0 < c.server_config.release_requests_poll_timeout)
      → ((peers_of c ≡ []) × (build_valid c storage ≡ none))
        ⊎ ((s : OmniPaxos F T S) × (build_valid c storage ≡ some s) × IsStarted c storage s)
  unfolding build_valid paxos_with paxos_config server_with max_peer
  build_valid-cases c storage [] e positive = inl (e, rw e refl)
  build_valid-cases c storage (p ∷ ps) e positive =
      let (m, found) = max_peer_cons p ps in
      let top : max_peer (peers_of c) ≡ some m = ap max_peer e ∙ found in
      let s =
        start_with (paxos_config c) storage (max m c.server_config.pid)
          (start_state c.server_config.pid (peers_of c) storage.n_prom) in
      inr (
        server_with c storage s,
        rw top refl,
        server_with-IsStarted c storage s positive
            (start_with-Starts c storage m storage.n_prom refl),
      )

and_then-valid : (v w : Validated) → and_then v w ≡ valid → (v ≡ valid) × (w ≡ valid)
and_then-valid valid w e = (refl, e)
and_then-valid (invalid x) w e = absurd (ground (arith, e))

Validated-cases : (v : Validated) → ((e : ConfigError) × (v ≡ invalid e)) ⊎ (v ≡ valid)
Validated-cases valid = inr refl
Validated-cases (invalid e) = inl (e, refl)

module _ {F : Type 0} (percentiles : PercentileOps F) where
  valid_server-positive :
      (c : ServerConfig F)
      → validate_server percentiles c ≡ valid
      → (0 < c.pid)
        × (0 < c.election_tick_timeout)
        × (0 < c.resend_message_tick_timeout)
        × (0 < c.release_requests_poll_timeout)
  unfolding validate_server
  valid_server-positive c v = (ground arith, ground arith, ground arith, ground arith)

  valid-positive :
      (c : OmniPaxosConfig F)
      → validate_config percentiles c ≡ valid
      → (0 < c.server_config.pid)
        × (0 < c.server_config.election_tick_timeout)
        × (0 < c.server_config.resend_message_tick_timeout)
        × (0 < c.server_config.release_requests_poll_timeout)
  unfolding validate_config
  valid-positive c v =
      let own =
        valid_config (contains c.server_config.pid c.cluster_config.nodes) own_pid_missing valid in
      let server = validate_server percentiles c.server_config in
      valid_server-positive c.server_config
        (and_then-valid server own
          (and_then-valid (validate c.cluster_config) (and_then server own) v).1).0

module _ {ℓ} {F : Type 0} {T S : Type ℓ} (percentiles : PercentileOps F) where
  -- A configuration that is not valid is refused with the error of the first check that fails. A
  -- valid one starts a server that waits, or that recovers with the promise of its storage, or it
  -- panics, which happens exactly if the list of nodes names no other node.
  pub build-cases :
      (c : OmniPaxosConfig F) (storage : MemoryStorage T S)
      → ((e : ConfigError) × (validate_config percentiles c ≡ invalid e)
          × (build percentiles c storage ≡ some (invalid_config e)))
        ⊎ ((validate_config percentiles c ≡ valid)
            × (peers_of c ≡ [])
            × (build percentiles c storage ≡ none))
        ⊎ ((validate_config percentiles c ≡ valid)
            × ((s : OmniPaxos F T S) × (build percentiles c storage ≡ some (built s))
                × IsStarted c storage s))
  unfolding build
  build-cases c storage = elim (Validated-cases (validate_config percentiles c)) [
    | inl (e, bad) ↦ inl (e, bad, rw bad refl)
    | inr good ↦
        elim (build_valid-cases c storage (peers_of c) refl (valid-positive percentiles c good)) [
          | inl (alone, panics) ↦ inr (inl (good, alone, rw (good, panics) refl))
          | inr (s, runs, starts) ↦ inr (inr (good, (s, rw (good, runs) refl, starts)))
        ]
  ]
