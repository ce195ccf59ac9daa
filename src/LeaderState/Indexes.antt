-- ===== src/LeaderState/Indexes.antt =====
-- The accept phase: chosen indices, sequence numbers, and the queue of metadata.
use ca_op.Prelude.{
  ltb, leb, length, get_elem?, set, length-append, length-set, take-length-append,
  drop-length-append, get_elem?-set_self, count_mono, count-set_mono, inc_u64, sub_usize,
  sub_usize_le, ℕ, ◌+◌, ◌-◌, ◌^◌, ◌≤◌, ◌<◌, ◌≡◌, refl, ap, ◌∙◌, true, some, List, [], ◌∷◌, ◌++◌,
  append_assoc, arith,
}
use ca_op.Prelude.Panic.{◌>>=◌}
use ca_op.Quorum.{Quorum, majority, flexible, is_accept_quorum}
use ca_op.Clocks.{expected, dropped_preceding, outdated, SequenceNumber, check_msg_status}
use ca_op.Messages.Paxos.{AcceptedEntryMeta}
use ca_op.LeaderState.{LeaderState, increment_seq_num_session, next_seq_num, get_seq_num}
use ca_op.LeaderState.Accept.{
  set_accepted_idx, get_accepted_idx, is_chosen, push_pending_accept_meta, take_pending_accept_meta,
}

is_accept_quorum_mono :
    (q : Quorum) (m n : ℕ) → m ≤ n → is_accept_quorum q m ≡ true → is_accept_quorum q n ≡ true
unfolding is_accept_quorum
is_accept_quorum_mono (majority k) m n h a = ground arith
is_accept_quorum_mono (flexible q) m n h a = ground arith

-- A pid of a member: its place in the vectors.
abbrev pub InRange {ℓ} : {A : Type ℓ} → List A → ℕ → Type 0
InRange v pid = (0 < pid) × (pid ≤ length v)

module _ {ℓ} {T S : Type ℓ} where
  -- With an index every smaller one is chosen.
  pub is_chosen_mono :
      (s : LeaderState T S) (i j : ℕ) → i ≤ j → is_chosen s j ≡ true → is_chosen s i ≡ true
  unfolding is_chosen
  is_chosen_mono s i j h c =
      is_accept_quorum_mono s.quorum _ _
        (count_mono (λ la. leb j la) (λ la. leb i la) (λ x t. ground arith) s.accepted_indexes) c

  -- A follower that reports a higher accepted index than before: the leader notes it, and no
  -- index ceases to be chosen.
  set_accepted_idx-is_chosen :
      (s : LeaderState T S) (pid old idx k : ℕ)
      → get_accepted_idx s pid ≡ some old
      → InRange s.accepted_indexes pid
      → old ≤ idx
      → is_chosen s k ≡ true
      → (s' : LeaderState T S) × (set_accepted_idx s pid idx ≡ some s')
        × (get_accepted_idx s' pid ≡ some idx)
        × (is_chosen s' k ≡ true)
  unfolding set_accepted_idx get_accepted_idx is_chosen
  set_accepted_idx-is_chosen s pid old idx k e (low, high) up c =
      let place : sub_usize pid 1 ≡ pid - 1 = sub_usize_le pid 1 (omega arith) in
      let inside : ltb (pid - 1) (length s.accepted_indexes) ≡ true = ground arith in
      let there : get_elem? s.accepted_indexes (pid - 1) ≡ some old = rw place at e in
      (
        record s { accepted_indexes = set s.accepted_indexes (pid - 1) idx },
        rw (place, inside) refl,
        rw place (get_elem?-set_self s.accepted_indexes (pid - 1) idx (omega arith)),
        is_accept_quorum_mono s.quorum _ _
            (count-set_mono (λ la. leb k la) s.accepted_indexes (pid - 1) old idx there
              (λ t. ground arith))
            c,
      )

  -- The next number that the leader sends to a follower is the one that the follower expects after
  -- the last one, and the leader remembers it.
  next_seq_num-expected :
      (s : LeaderState T S) (pid : ℕ) (last : SequenceNumber)
      → InRange s.follower_seq_nums pid
      → get_seq_num s pid ≡ some last
      → (s' : LeaderState T S) × (m : SequenceNumber) × (next_seq_num s pid ≡ some (s', m))
        × (check_msg_status last m ≡ expected)
        × (get_seq_num s' pid ≡ some m)
  unfolding next_seq_num get_seq_num check_msg_status
  next_seq_num-expected s pid last (low, high) e =
      let place : sub_usize pid 1 ≡ pid - 1 = sub_usize_le pid 1 (omega arith) in
      let inside : ltb (pid - 1) (length s.follower_seq_nums) ≡ true = ground arith in
      let there : get_elem? s.follower_seq_nums (pid - 1) ≡ some last = rw place at e in
      let m : SequenceNumber = record last { counter = inc_u64 last.counter } in
      (
        record s { follower_seq_nums = set s.follower_seq_nums (pid - 1) m },
        m,
        rw (place, there, inside) refl,
        ground arith,
        rw place (get_elem?-set_self s.follower_seq_nums (pid - 1) m (omega arith)),
      )

  -- A new session starts with number 1: a follower that is at the last number of the session
  -- before does not take it for a repetition, and once it is in the new session it takes every
  -- number `old` of the session before as outdated. The session number must not wrap.
  pub new_session_outdates :
      (s : LeaderState T S) (pid : ℕ) (last old : SequenceNumber)
      → InRange s.follower_seq_nums pid
      → get_seq_num s pid ≡ some last
      → last.session + 1 < 2 ^ 64
      → old.session ≡ last.session
      → (s' : LeaderState T S) × (m : SequenceNumber) × ((increment_seq_num_session s pid >>= λ t.
            next_seq_num t pid)
          ≡ some (s', m))
        × (m ≡ record { session = last.session + 1; counter = 1 })
        × (check_msg_status last m ≡ dropped_preceding)
        × (check_msg_status m old ≡ outdated)
  unfolding next_seq_num get_seq_num increment_seq_num_session check_msg_status
  new_session_outdates s pid last old (low, high) e small same =
      let place : sub_usize pid 1 ≡ pid - 1 = sub_usize_le pid 1 (omega arith) in
      let inside : ltb (pid - 1) (length s.follower_seq_nums) ≡ true = ground arith in
      let there : get_elem? s.follower_seq_nums (pid - 1) ≡ some last = rw place at e in
      let fresh : SequenceNumber = record { session = inc_u64 last.session; counter = 0 } in
      let ns = set s.follower_seq_nums (pid - 1) fresh in
      let m : SequenceNumber = record { session = inc_u64 last.session; counter = inc_u64 0 } in
      let found = get_elem?-set_self s.follower_seq_nums (pid - 1) fresh (omega arith) in
      let inside' : ltb (pid - 1) (length ns) ≡ true =
        ground (arith, length-set s.follower_seq_nums (pid - 1) fresh) in
      (
        record s { follower_seq_nums = set ns (pid - 1) m },
        m,
        rw (place, there, inside, found, inside') refl,
        ground arith,
        ground arith,
        ground arith,
      )

  -- The metadata are taken in the order in which they were pushed: those that were at the front
  -- come out, the others and the one just pushed stay.
  pub take_pending-push :
      (s : LeaderState T S) (sent : List AcceptedEntryMeta) (waiting : List AcceptedEntryMeta)
      → s.pending_accept_meta ≡ sent ++ waiting
      → (meta : AcceptedEntryMeta)
      → take_pending_accept_meta (push_pending_accept_meta s meta) (length sent)
        ≡ some (record s { pending_accept_meta = waiting ++ meta ∷ [] }, sent)
  unfolding take_pending_accept_meta push_pending_accept_meta
  take_pending-push s sent waiting e meta =
      let queue : s.pending_accept_meta ++ meta ∷ [] ≡ sent ++ (waiting ++ meta ∷ []) =
        ap (λ q. q ++ meta ∷ []) e ∙ append_assoc sent waiting (meta ∷ []) in
      let enough : leb (length sent) (length (sent ++ (waiting ++ meta ∷ []))) ≡ true =
        ground (arith, length-append sent (waiting ++ meta ∷ [])) in
      rw
        (
          queue,
          enough,
          drop-length-append sent (waiting ++ meta ∷ []),
          take-length-append sent (waiting ++ meta ∷ []),
        )
        refl
