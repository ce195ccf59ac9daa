-- ===== src/Paxos/Leader/Candidate.antt =====
-- Whose entry the votes of the fast path are counted for.
use ca_op.Prelude.{
  ◌==◌, ==_iff, get_or_else, length, ℕ, ◌+◌, ◌≤◌, ◌<◌, ◌≡◌, refl, ap, ◌∙◌, Bool, true, false, ◌||◌,
  Option, none, some, List, [], ◌∷◌, arith,
}
use ca_op.Prelude.Assoc
use ca_op.Prelude.Assoc.{nat_eq, contains, insert_set, union}
use ca_op.Messages.Paxos.{hash_pair_key, DomHash}
use ca_op.Quorum.Intersection.{fast_quorum}
use ca_op.Storage.Internal
use ca_op.LeaderState.{AcceptedMapEntry, LeaderState}
use ca_op.LeaderState.Fast.{voters, record_vote, new_map_entry, set_accepted_map, get_accepted_map}
use ca_op.Paxos.{SequencePaxos}
use ca_op.Paxos.Leader.Decide.{combined_voters, is_accepting, try_fast_decide_idx}
use ca_op.Paxos.Leader.Messages.{IsShaped}
use ca_op.Paxos.Leader.FastDecision.{
  IsVoted, CanFastDecide, FastDecides, try_fast_decide_idx-FastDecides,
}

-- Each node stands once in the list.
abbrev pub IsDistinct : List ℕ → Type 0
IsDistinct [] = Unit
IsDistinct (v ∷ vs) = (contains v vs ≡ false) × IsDistinct vs

contains-union_single :
    (x q : ℕ) (vs : List ℕ) → contains x (union vs (q ∷ [])) ≡ (contains x vs || (q == x))
unfolding union contains
contains-union_single x q [] = ground arith
contains-union_single x q (v ∷ vs) =
    ground (arith, Assoc.contains-insert_set v x (union vs (q ∷ [])), contains-union_single x q vs)

-- Distinct nodes with another one.
length-union_single :
    (q : ℕ) (vs : List ℕ)
    → IsDistinct vs
    → contains q vs ≡ false
    → length (union vs (q ∷ [])) ≡ length vs + 1
unfolding union insert_set contains
length-union_single q [] d apart = omega arith
length-union_single q (v ∷ vs) (fresh, d) apart =
    let rest = length-union_single q vs d (ground arith) in
    let new : contains v (union vs (q ∷ [])) ≡ false =
      ground (arith, contains-union_single v q vs, ==_iff q v, ==_iff v q) in
    rw new (omega arith)

insert_set_fresh : (v : ℕ) (vs : List ℕ) → contains v vs ≡ false → insert_set v vs ≡ v ∷ vs
unfolding insert_set
insert_set_fresh v vs fresh = rw fresh

-- The votes are those of the nodes of a list, for one entry.
abbrev AreVotes : AcceptedMapEntry → DomHash → DomHash → List ℕ → Type 0
AreVotes a h p vs =
    (a.entry_hash ≡ h) × (a.prefix_hash ≡ p) × (a.slow ≡ []) × (voters (p, h) a.fast ≡ vs)

record_vote-AreVotes :
    (a : AcceptedMapEntry) (h p : DomHash) (v : ℕ) (vs : List ℕ)
    → contains v vs ≡ false
    → AreVotes a h p vs
    → AreVotes (record_vote a h p v true) h p (v ∷ vs)
unfolding record_vote voters
record_vote-AreVotes a h p v vs fresh (eh, ep, es, ev) = (
  eh,
  ep,
  es,
  rw (Assoc.get-insert_self (p, h) (insert_set v (voters (p, h) a.fast)) a.fast)
      (ap (insert_set v) ev ∙ insert_set_fresh v vs fresh),
)

-- The vote of the leader, for any entry, completes a quorum of votes.
record_vote-IsVoted :
    (a : AcceptedMapEntry) (h p h' p' : DomHash) (pid n : ℕ) (vs : List ℕ)
    → AreVotes a h p vs
    → IsDistinct vs
    → contains pid vs ≡ false
    → fast_quorum n ≤ length vs + 1
    → IsVoted pid n (some (record_vote a h' p' pid false))
unfolding record_vote combined_voters insert_set contains
record_vote-IsVoted a h p h' p' pid n vs (eh, ep, es, ev) d apart enough =
    rw (es, eh, ep, ev)
      (ground (arith, ==_iff pid pid), omega (arith, length-union_single pid vs d apart))

module _ {ℓ} {T S : Type ℓ} where
  -- Fast votes of nodes for one entry at an index; the last of the list votes first.
  unfoldable pub fast_votes : LeaderState T S → ℕ → DomHash → DomHash → List ℕ → LeaderState T S
  fast_votes ls idx h p [] = ls
  fast_votes ls idx h p (v ∷ vs) = set_accepted_map (fast_votes ls idx h p vs) idx h p v true

  -- The votes at an index, when there may be none.
  abbrev entry_at : LeaderState T S → ℕ → DomHash → DomHash → AcceptedMapEntry
  entry_at ls idx h p = get_or_else (get_accepted_map ls idx) (new_map_entry h p)

  -- The votes at the index after a vote there.
  get-set_accepted_map :
      (ls : LeaderState T S) (idx : ℕ) (h p : DomHash) (v : ℕ) (is_fast : Bool)
      → get_accepted_map (set_accepted_map ls idx h p v is_fast) idx
        ≡ some (record_vote (entry_at ls idx h p) h p v is_fast)
  unfolding get_accepted_map set_accepted_map
  get-set_accepted_map ls idx h p v is_fast =
      Assoc.get-insert_self idx (record_vote (entry_at ls idx h p) h p v is_fast) ls.accepted_map

  fast_votes-AreVotes :
      (ls : LeaderState T S) (idx : ℕ) (h p : DomHash) (vs : List ℕ)
      → get_accepted_map ls idx ≡ none
      → IsDistinct vs
      → AreVotes (entry_at (fast_votes ls idx h p vs) idx h p) h p vs
  unfolding fast_votes voters Assoc.get
  fast_votes-AreVotes ls idx h p [] e d = rw e (refl, refl, refl, refl)
  fast_votes-AreVotes ls idx h p (v ∷ vs) e (fresh, d) =
      let before = entry_at (fast_votes ls idx h p vs) idx h p in
      rw (get-set_accepted_map (fast_votes ls idx h p vs) idx h p v true)
        (record_vote-AreVotes before h p v vs fresh (fast_votes-AreVotes ls idx h p vs e d))

  fast_votes-IsShaped :
      (ls : LeaderState T S) (idx : ℕ) (h p : DomHash) (vs : List ℕ)
      → IsShaped ls
      → IsShaped (fast_votes ls idx h p vs)
  unfolding fast_votes set_accepted_map
  fast_votes-IsShaped ls idx h p [] shape = shape
  fast_votes-IsShaped ls idx h p (v ∷ vs) shape = fast_votes-IsShaped ls idx h p vs shape

module _ {ℓ} {F : Type 0} {T S : Type ℓ} where
  -- The leader after fast votes for one entry and its own vote for another.
  abbrev pub after_votes :
      SequencePaxos F T S → ℕ → DomHash × DomHash → DomHash × DomHash → List ℕ → SequencePaxos F T S
  after_votes s idx (h, p) (h', p') vs = record s {
    leader_state = set_accepted_map (fast_votes s.leader_state idx h p vs) idx h' p' s.pid false;
  }

  IsVoted-after_votes :
      (s : SequencePaxos F T S) (idx : ℕ) (h p h' p' : DomHash) (v : ℕ) (vs : List ℕ)
      → get_accepted_map s.leader_state idx ≡ none
      → IsDistinct (v ∷ vs)
      → contains s.pid (v ∷ vs) ≡ false
      → fast_quorum (length s.peers + 1) ≤ length vs + 2
      → IsVoted s.pid
          (length s.peers + 1)
          (get_accepted_map (after_votes s idx (h, p) (h', p') (v ∷ vs)).leader_state idx)
  unfolding fast_votes
  IsVoted-after_votes s idx h p h' p' v vs e (fresh, d) apart enough =
      let before = entry_at (fast_votes s.leader_state idx h p vs) idx h p in
      let last = set_accepted_map (fast_votes s.leader_state idx h p vs) idx h p v true in
      let are =
        record_vote-AreVotes before h p v vs fresh
          (fast_votes-AreVotes s.leader_state idx h p vs e d) in
      rw
        (
          get-set_accepted_map last idx h' p' s.pid false,
          get-set_accepted_map (fast_votes s.leader_state idx h p vs) idx h p v true,
        )
        (record_vote-IsVoted (record_vote before h p v true) h p h' p' s.pid (length s.peers + 1)
          (v ∷ vs) are (fresh, d) apart (omega arith))

  -- The candidate of an index is the entry of the first vote for it. Once followers, one fewer than
  -- a fast quorum, have voted for an entry before the leader accepts one, the leader's own vote
  -- completes the quorum whatever entry it accepts: it decides its entry, and no follower has
  -- voted for that one if the hashes differ.
  pub try_fast_decide_idx-other_entry :
      (s : SequencePaxos F T S) (idx : ℕ) (voted own : DomHash × DomHash) (v : ℕ) (vs : List ℕ)
      → IsShaped s.leader_state
      → s.enable_fast_path ≡ true
      → is_accepting s ≡ true
      → s.internal_storage.cache.decided_idx < idx
      → idx ≤ s.internal_storage.cache.accepted_idx
      → get_accepted_map s.leader_state idx ≡ none
      → IsDistinct (v ∷ vs)
      → contains s.pid (v ∷ vs) ≡ false
      → fast_quorum (length s.peers + 1) ≤ length vs + 2
      → (s' : SequencePaxos F T S) × (try_fast_decide_idx (after_votes s idx voted own (v ∷ vs)) idx
          ≡ some (s', true))
        × (s'.internal_storage ≡ Internal.set_decided_idx s.internal_storage idx)
  unfolding set_accepted_map
  try_fast_decide_idx-other_entry s idx (h, p) (h', p') v vs shape on leads above within e d apart
        enough =
      let t = after_votes s idx (h, p) (h', p') (v ∷ vs) in
      let can : CanFastDecide t idx =
        (on, leads, above, within, IsVoted-after_votes s idx h p h' p' v vs e d apart enough) in
      decided_of
        (try_fast_decide_idx-FastDecides t idx
          (fast_votes-IsShaped s.leader_state idx h p (v ∷ vs) shape))
        can
    where
      decided_of :
          {t : SequencePaxos F T S} {o : Option (SequencePaxos F T S × Bool)}
          → ((r : SequencePaxos F T S × Bool) × (o ≡ some r) × FastDecides t idx r)
          → CanFastDecide t idx
          → (s' : SequencePaxos F T S) × (o ≡ some (s', true))
            × (s'.internal_storage ≡ Internal.set_decided_idx t.internal_storage idx)
      decided_of ((s', true), run, (can, decides)) can' = (s', run, decides.0)
      decided_of ((s', false), run, (cannot, same)) can' = absurd (cannot can')
