-- ===== src/Paxos/Prepares.antt =====
-- How a follower answers a `Prepare` (lib/omnipaxos/src/sequence_paxos/follower.rs).
use ca_op.Prelude.{
  ltb, leb, Bool-cases, ℕ, ◌≤◌, ◌<◌, ◌≡◌, refl, sym, subst, ◌≢◌, ◌⊎◌, inl, inr, true, false, ◌&&◌,
  Option, none, some, [], ◌∷◌, ◌++◌, arith,
}
use ca_op.Ballot.{Ballot, lt_ballot, eq_ballot, eq_ballot→eq, eq_ballot_refl}
use ca_op.Clocks.{default_seq_num}
use ca_op.Messages.{Role, prepare, recover}
use ca_op.Messages.Paxos
use ca_op.Messages.Paxos.{Prepare, Promise}
use ca_op.Storage.{SnapshotOps, ok, LogSync, SnapshotType}
use ca_op.Storage.Memory
use ca_op.Storage.Internal
use ca_op.Storage.Internal.{InternalStorage, get_decided_idx_without_stopsign}
use ca_op.Storage.Internal.Compact.{create_diff_snapshot, create_snapshot}
use ca_op.Paxos.{SequencePaxos, eq_phase, send, create_log_sync}
use ca_op.Paxos.Follower.{promised_sync, promise_to, send_promise, accepts_prepare, handle_prepare}

module _ {ℓ} {T S : Type ℓ} (ops : SnapshotOps T S) where
  create_snapshot-ok :
      (s : InternalStorage T S) (idx : ℕ)
      → ltb idx s.cache.compacted_idx ≡ false
      → (x : S) × (create_snapshot ops s idx ≡ ok x)
  unfolding create_snapshot
  create_snapshot-ok s idx h = rw (create_snapshot, h) (_, refl)

  create_diff_snapshot-ok :
      (s : InternalStorage T S) (from : ℕ)
      → (r : Option (SnapshotType S) × ℕ) × (create_diff_snapshot ops s from ≡ ok r)
  unfolding create_diff_snapshot
  create_diff_snapshot-ok s from = elim (Bool-cases (leb from s.cache.compacted_idx)) [
    | inr delta ↦ rw (create_diff_snapshot, delta) (_, refl)
    | inl behind ↦
        elim (Bool-cases (ltb s.cache.compacted_idx (get_decided_idx_without_stopsign s))) [
          | inr none_new ↦ rw (create_diff_snapshot, behind, none_new) (_, refl)
          | inl new ↦
              let (x, e) =
                create_snapshot-ok s (get_decided_idx_without_stopsign s) (ground arith) in
              rw (create_diff_snapshot, behind, new, e) (_, refl)
        ]
  ]

module _ {ℓ} {F : Type 0} {T S : Type ℓ} where
  -- The ballot is greater than the promised one, or it is that one and the follower recovers.
  abbrev pub IsDue : SequencePaxos F T S → Ballot → Type 0
  IsDue s n =
      (lt_ballot s.internal_storage.cache.promise n ≡ true)
      ⊎ ((s.internal_storage.cache.promise ≡ n) × (eq_phase s.state.1 recover ≡ true))

  accepts_prepare-IsDue :
      (s : SequencePaxos F T S) (n : Ballot) → accepts_prepare s n ≡ true → IsDue s n
  unfolding accepts_prepare
  accepts_prepare-IsDue s n h = elim (Bool-cases (lt_ballot s.internal_storage.cache.promise n)) [
    | inl less ↦ inl less
    | inr other ↦ inr (eq_ballot→eq s.internal_storage.cache.promise n (ground arith), ground arith)
  ]

  -- Neither of the two.
  abbrev pub NotDue : SequencePaxos F T S → Ballot → Type 0
  NotDue s n =
      (lt_ballot s.internal_storage.cache.promise n ≡ false)
      × ((s.internal_storage.cache.promise ≢ n) ⊎ (eq_phase s.state.1 recover ≡ false))

  refused-NotDue : (s : SequencePaxos F T S) (n : Ballot) → accepts_prepare s n ≡ false → NotDue s n
  unfolding accepts_prepare
  refused-NotDue s n h = elim (Bool-cases (eq_phase s.state.1 recover)) [
    | inr running ↦ (ground arith, inr running)
    | inl recovers ↦
        let differs : eq_ballot s.internal_storage.cache.promise n ≡ false = ground arith in
        (
          ground arith,
          inl (λ same. absurd (
              ground (
                arith,
                subst (λ b. eq_ballot s.internal_storage.cache.promise b ≡ false) (sym same)
                    differs,
                eq_ballot_refl s.internal_storage.cache.promise,
              ))),
        )
  ]

module _ {ℓ} {T S : Type ℓ} (ops : SnapshotOps T S) where
  -- The update brings a log that is the own one up to index `from` to the own one: by the entries
  -- behind `from`, or, with snapshots and if `from` is below the decided index, by a snapshot for the
  -- decided index of the other node and the entries that are not decided.
  abbrev pub IsSync : InternalStorage T S → ℕ → ℕ → LogSync T S → Type ℓ
  IsSync i from decided sync =
      (sync.stopsign ≡ i.cache.stopsign)
      × ((((ops.use_snapshots && ltb from i.cache.decided_idx) ≡ false)
            × (sync.decided_snapshot ≡ none)
            × (sync.suffix ≡ Memory.get_suffix i.storage from)
            × (sync.sync_idx ≡ from))
          ⊎ (((ops.use_snapshots && ltb from i.cache.decided_idx) ≡ true)
              × (create_diff_snapshot ops i decided ≡ ok (sync.decided_snapshot, sync.sync_idx))
              × (sync.suffix ≡ Memory.get_suffix i.storage i.cache.decided_idx)))

  -- What the promise to a node brings: the log from the decided index of the other node on, if the
  -- own accepted round is greater; from its accepted index on, if the rounds are equal and the own log
  -- is longer; and nothing otherwise.
  abbrev pub IsPromisedSync : InternalStorage T S → Prepare → Option (LogSync T S) → Type ℓ
  IsPromisedSync i prep o =
      ((sync : LogSync T S) × (o ≡ some sync)
        × (lt_ballot prep.n_accepted i.cache.accepted_round ≡ true)
        × IsSync i prep.decided_idx prep.decided_idx sync)
      ⊎ ((sync : LogSync T S) × (o ≡ some sync)
          × (i.cache.accepted_round ≡ prep.n_accepted)
          × (prep.accepted_idx < i.cache.accepted_idx)
          × IsSync i prep.accepted_idx prep.decided_idx sync)
      ⊎ ((o ≡ none)
          × (lt_ballot prep.n_accepted i.cache.accepted_round ≡ false)
          × ((i.cache.accepted_round ≢ prep.n_accepted)
              ⊎ (i.cache.accepted_idx ≤ prep.accepted_idx)))

module _ {ℓ} {F : Type 0} {T S : Type ℓ} (ops : SnapshotOps T S) where
  -- The follower promised the ballot of a prepare, and sends `prom` for it.
  abbrev pub Promises :
      SequencePaxos F T S → Prepare → ℕ → SequencePaxos F T S → Promise T S → Type ℓ
  Promises s prep from s' prom =
      IsDue s prep.n
      × (s'.internal_storage
          ≡ Internal.set_promise (Internal.flush_batch s.internal_storage).0 prep.n)
      × (s'.state ≡ (Role.follower, prepare))
      × (s'.current_seq_num ≡ default_seq_num)
      × (s'.outgoing
          ≡ s.outgoing ++ record { from = s.pid; to = from; msg = Paxos.promise prom } ∷ [])
      × (s'.cached_promise_message ≡ some prom)
      × (prom.n ≡ prep.n)
      × (prom.n_accepted ≡ s'.internal_storage.cache.accepted_round)
      × (prom.decided_idx ≡ s'.internal_storage.cache.decided_idx)
      × (prom.accepted_idx ≡ s'.internal_storage.cache.accepted_idx)
      × (prom.log_unsync ≡ some s.unsynced_log)
      × (prom.log_prefix_hash ≡ s.accepted_prefix_hash)
      × IsPromisedSync ops s'.internal_storage prep prom.log_sync

  sent :
      (s : SequencePaxos F T S) (prep : Prepare) (from : ℕ) (sync : Option (LogSync T S))
      → IsDue s prep.n
      → IsPromisedSync ops (promise_to s prep.n).internal_storage prep sync
      → (prom : Promise T S) × Promises s prep from
          (send_promise (promise_to s prep.n) prep from sync)
          prom
  unfolding send_promise promise_to send
  sent s prep from sync h known =
      (_, (h, refl, refl, refl, refl, refl, refl, refl, refl, refl, refl, refl, known))

  create_log_sync-IsSync :
      (s : SequencePaxos F T S) (idx decided : ℕ)
      → (sync : LogSync T S) × (create_log_sync ops s idx decided ≡ some sync)
        × IsSync ops s.internal_storage idx decided sync
  unfolding create_log_sync
  create_log_sync-IsSync s idx decided =
      elim (Bool-cases (ops.use_snapshots && ltb idx s.internal_storage.cache.decided_idx)) [
        | inr plain ↦ (_, rw (create_log_sync, plain) refl, (refl, inl (plain, refl, refl, refl)))
        | inl snapshots ↦
            let (r, e) = create_diff_snapshot-ok ops s.internal_storage decided in
            (_, rw (create_log_sync, snapshots, e) refl, (refl, inr (snapshots, e, refl)))
      ]

  promised_sync-IsPromisedSync :
      (s : SequencePaxos F T S) (prep : Prepare)
      → (sync : Option (LogSync T S)) × (promised_sync ops s prep ≡ some sync)
        × IsPromisedSync ops s.internal_storage prep sync
  unfolding promised_sync
  promised_sync-IsPromisedSync s prep =
      let na = s.internal_storage.cache.accepted_round in
      let accepted_idx = s.internal_storage.cache.accepted_idx in
      elim (Bool-cases (lt_ballot prep.n_accepted na)) [
        | inl newer ↦
            let (sync, e, known) = create_log_sync-IsSync s prep.decided_idx prep.decided_idx in
            (some sync, rw (promised_sync, newer, e) refl, inl (sync, refl, newer, known))
        | inr not_newer ↦
            elim (Bool-cases (eq_ballot na prep.n_accepted && ltb prep.accepted_idx accepted_idx)) [
              | inl longer ↦
                  let (sync, e, known) =
                    create_log_sync-IsSync s prep.accepted_idx prep.decided_idx in
                  (
                    some sync,
                    rw (promised_sync, not_newer, longer, e) refl,
                    inr (
                        inl (
                          sync,
                          refl,
                          eq_ballot→eq na prep.n_accepted (ground arith),
                          ground arith,
                          known,
                        )),
                  )
              | inr same ↦ (
                none,
                rw (promised_sync, not_newer, same) refl,
                inr (
                    inr (
                      refl,
                      not_newer,
                      behind na prep.n_accepted accepted_idx prep.accepted_idx same,
                    )),
              )
            ]
      ]
    where
      behind : (a b : Ballot) (i j : ℕ) → (eq_ballot a b && ltb j i) ≡ false → (a ≢ b) ⊎ (i ≤ j)
      behind a b i j h = elim (Bool-cases (ltb j i)) [
        | inr not_longer ↦ inr (ground arith)
        | inl longer ↦
            let differs : eq_ballot a b ≡ false = ground arith in
            inl (λ same. absurd (
              ground
                (arith, eq_ballot_refl a, subst (λ c. eq_ballot a c ≡ false) (sym same) differs)))
      ]

  -- A follower handles every `Prepare` without a panic. It changes nothing exactly if the ballot is
  -- not greater than the promised one, nor that one while the follower recovers. Otherwise the
  -- promise goes up to that ballot, the batch is flushed, and one promise is sent, with the round and
  -- the indices after the flush, the hash of the accepted log, the whole unsynced log, and the log
  -- update that the round and the indices of the asking node call for.
  pub handle_prepare-Promises :
      (s : SequencePaxos F T S) (prep : Prepare) (from : ℕ)
      → (s' : SequencePaxos F T S) × (handle_prepare ops s prep from ≡ some s')
        × (((prom : Promise T S) × Promises s prep from s' prom) ⊎ (NotDue s prep.n × (s' ≡ s)))
  unfolding handle_prepare
  handle_prepare-Promises s prep from = elim (Bool-cases (accepts_prepare s prep.n)) [
    | inr refused ↦
        (s, rw (handle_prepare, refused) refl, inr (refused-NotDue s prep.n refused, refl))
    | inl accepts ↦
        let (sync, e, known) = promised_sync-IsPromisedSync (promise_to s prep.n) prep in
        (
          send_promise (promise_to s prep.n) prep from sync,
          rw (handle_prepare, accepts, e) refl,
          inl (sent s prep from sync (accepts_prepare-IsDue s prep.n accepts) known),
        )
  ]
