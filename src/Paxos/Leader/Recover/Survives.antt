-- ===== src/Paxos/Leader/Recover/Survives.antt =====
-- That a decision of the fast path survives a change of the leader.
use ca_op.Prelude.{
  if◌then◌else◌, Bool-cases, length, count, All, count-map, ℕ, ◌+◌, ◌≤◌, ◌≡◌, refl, sym, ap, subst,
  ◌∙◌, ◌≢◌, inl, inr, Bool, true, false, ◌&&◌, Option, none, some, List, [], ◌∷◌, map, arith,
}
use ca_op.Prelude.Assoc.{contains}
use ca_op.Quorum.{is_prepare_quorum}
use ca_op.Quorum.Intersection.{fast_quorum, recover_threshold}
use ca_op.Config.{ClusterConfig, valid, validate}
use ca_op.Config.Safety.{cluster_quorum, valid-fast_recoverable}
use ca_op.Messages.Paxos.{
  entry_id_key, DomHash, hash_eq, hash_eq_iff, EntryId, UnsyncedLogEntry, UnsyncedLog,
}
use ca_op.LeaderState.Fast.{matched}
use ca_op.LeaderState.Votes.{
  votes_hash, votes_at, votes_hash-matched, Holds, Holds-votes_hash, IsHeld,
}
use ca_op.Paxos.Leader.Recover.{Recovery, Winner, next_winner}
use ca_op.Paxos.Leader.Recover.Rounds.{store}
use ca_op.Paxos.Leader.Recover.Winners.{votes_for}
use ca_op.Paxos.Leader.Recover.Complete.{next_winner-finds}

module _ {ℓ} {T : Type ℓ} where
  -- What a node that voted for the entry has sent: its unsynced log with the entry, or nothing yet.
  abbrev pub HasSent : Winner T → ℕ → DomHash → Bool → UnsyncedLog T → Type ℓ
  HasSent w i p true log = Holds i p w.0 w.1 w.2 log
  HasSent w i p false log = log ≡ []

  -- Every node that voted has sent what it should.
  abbrev pub HaveSent :
      Winner T → ℕ → DomHash → (ℕ → Bool) → (ℕ → Bool) → (ℕ → UnsyncedLog T) → List ℕ → Type ℓ
  HaveSent w i p voted promised log_of nodes =
      All (λ x. (voted x ≡ true) → HasSent w i p (promised x) (log_of x)) nodes

  votes_hash-same :
      (h g : DomHash) (o : Option (UnsyncedLogEntry T))
      → g ≢ h
      → votes_hash h o ≡ true
      → votes_hash g o ≡ false
  votes_hash-same h g none other v = refl
  votes_hash-same h g (some e) other v = elim (Bool-cases (hash_eq e.entry_hash g)) [
    | inl same ↦
        absurd
          (other (sym ((hash_eq_iff e.entry_hash g).0 same) ∙ (hash_eq_iff e.entry_hash h).0 v))
    | inr differs ↦ differs
  ]

  -- A node that voted counts for no other entry.
  HasSent-other :
      (w : Winner T) (g : DomHash) (i : ℕ) (p : DomHash) (b : Bool) (log : UnsyncedLog T)
      → g ≢ w.0
      → HasSent w i p b log
      → votes_at i p g log ≡ false
  unfolding votes_at
  HasSent-other w g i p true log other sent =
      sym (votes_hash-matched i p g log)
      ∙ votes_hash-same w.0 g (matched i p log) other (Holds-votes_hash i p w.0 w.1 w.2 log sent)
  HasSent-other w g i p false log other sent = rw sent refl

  count-voted_le :
      (w : Winner T) (i : ℕ) (p : DomHash) (voted promised : ℕ → Bool) (log_of : ℕ → UnsyncedLog T)
      (nodes : List ℕ)
      → HaveSent w i p voted promised log_of nodes
      → count (λ x. voted x && promised x) nodes ≤ count (λ x. votes_at i p w.0 (log_of x)) nodes
  count-voted_le w i p voted promised log_of [] sent = omega arith
  count-voted_le w i p voted promised log_of (x ∷ nodes) (here, sent) =
      let rest = count-voted_le w i p voted promised log_of nodes sent in
      elim (Bool-cases (voted x && promised x)) [
        | inl both ↦
            let asked : promised x ≡ true = ground arith in
            let told : votes_at i p w.0 (log_of x) ≡ true =
              sym (votes_hash-matched i p w.0 (log_of x))
              ∙ Holds-votes_hash i p w.0 w.1 w.2 (log_of x)
                  (subst (λ b. HasSent w i p b (log_of x)) asked (here (ground arith))) in
            ground arith
        | inr not_both ↦ ground arith
      ]

  apart_others :
      (w : Winner T) (g : DomHash) (i : ℕ) (p : DomHash) (voted promised : ℕ → Bool)
      (log_of : ℕ → UnsyncedLog T) (nodes : List ℕ)
      → g ≢ w.0
      → HaveSent w i p voted promised log_of nodes
      → All (λ x. (voted x && votes_at i p g (log_of x)) ≡ false) nodes
  apart_others w g i p voted promised log_of [] other sent = tt
  apart_others w g i p voted promised log_of (x ∷ nodes) other (here, sent) = (
    elim (Bool-cases (voted x)) [
      | inl v ↦ rw (HasSent-other w g i p (promised x) (log_of x) other (here v)) (ground arith)
      | inr v ↦ ground arith
    ],
    apart_others w g i p voted promised log_of nodes other sent,
  )

module _ {ℓ} {T S : Type ℓ} where
  -- In a valid configuration, an entry that a fast quorum of nodes has in the unsynced log at the
  -- next index, after the hash of the leader's log, is what the recovery takes next, with its id,
  -- whichever prepare quorum has promised, if no log that was sent has another entry of the same hash
  -- there. Only if its request has been recovered before, the recovery stops instead.
  pub next_winner-survives :
      (c : ClusterConfig) (voted promised : ℕ → Bool) (log_of : ℕ → UnsyncedLog T)
      (r : Recovery T S) (h : DomHash) (id : EntryId) (e : T)
      → validate c ≡ valid
      → fast_quorum (length c.nodes) ≤ count voted c.nodes
      → is_prepare_quorum (cluster_quorum c) (count promised c.nodes) ≡ true
      → store r ≡ map log_of c.nodes
      → HaveSent
          (h, id, e)
          (r.new_accepted_idx + 1)
          r.expected_prev_hash
          voted
          promised
          log_of
          c.nodes
      → ((id' : EntryId) (e' : T)
          → IsHeld (r.new_accepted_idx + 1) r.expected_prev_hash h id' e' (store r)
          → (id' ≡ id) × (e' ≡ e))
      → next_winner (recover_threshold (length c.nodes)) r
        ≡ (if contains id r.recovered_entry_ids then none else some (h, id, e))
  unfolding votes_for recover_threshold
  next_winner-survives c voted promised log_of r h id e v fast prep stored sent alone =
      let i = r.new_accepted_idx + 1 in
      let p = r.expected_prev_hash in
      let votes : (g : DomHash)
          → votes_for g i p (store r) ≡ count (λ x. votes_at i p g (log_of x)) c.nodes =
        λ g. rw stored (count-map (votes_at i p g) log_of c.nodes) in
      let enough =
        (valid-fast_recoverable c voted promised (λ x. false) v fast prep
          (nobody voted c.nodes)).0 in
      let (id', e', held, found) =
        next_winner-finds (recover_threshold (length c.nodes)) r h (omega arith)
          (omega (arith, votes h, count-voted_le (h, id, e) i p voted promised log_of c.nodes sent))
          (λ g other. omega (
            arith,
            votes g,
            (valid-fast_recoverable c voted promised (λ x. votes_at i p g (log_of x)) v fast prep
                (apart_others (h, id, e) g i p voted promised log_of c.nodes other sent)).1,
          )) in
      let (same_id, same) = alone id' e' held in
      found
      ∙ ap (λ k. if contains k r.recovered_entry_ids then none else some (h, k, e')) same_id
      ∙ ap (λ x. if contains id r.recovered_entry_ids then none else some (h, id, x)) same
    where
      nobody : (f : ℕ → Bool) (xs : List ℕ) → All (λ x. (f x && false) ≡ false) xs
      nobody f [] = tt
      nobody f (x ∷ xs) = (ground arith, nobody f xs)
