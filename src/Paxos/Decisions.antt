-- ===== src/Paxos/Decisions.antt =====
-- How a follower decides and replies (lib/omnipaxos/src/sequence_paxos/follower.rs).
use ca_op.Prelude.{
  ltb, leb, if◌then◌else◌, Bool-cases, length, length-append, length-set, get_elem?_lt, ℕ, ◌≤◌, ◌<◌,
  Ordering, ◌≡◌, refl, sym, ap, subst, ◌∙◌, ◌⊎◌, inl, inr, Bool, true, Option, none, some, [], ◌∷◌,
  arith,
}
use ca_op.Ballot.{Ballot, cmp, eq_ballot}
use ca_op.Clocks.{expected, check_msg_status}
use ca_op.Messages.{Role, Phase, accept}
use ca_op.Messages.Paxos.{Decide, PaxosMsg, PaxosMessage}
use ca_op.Paxos.{SequencePaxos, eq_phase, send}
use ca_op.Paxos.Follower.{update_decided_idx_and_get_accepted_idx, handle_decide}
use ca_op.Paxos.Follower.Replies.{
  with_accepted_idx, send_accepted, replace_accepted, update_accepted_at, reply_cached,
  reply_accepted, reply_if, guard,
}
use ca_op.Paxos.Promises.{Decides, guard-storage, update_decided_idx-Decides, guard-IsLetThrough}

-- The cached index is one of the outgoing messages.
abbrev pub IsCached : Option (Ballot × ℕ) → ℕ → Type 0
IsCached none len = Unit
IsCached (some (ballot, i)) len = i < len

module _ {ℓ} {F : Type 0} {T S : Type ℓ} where
  abbrev pub HasCached : SequencePaxos F T S → Type 0
  HasCached s = IsCached s.latest_accepted_meta (length s.outgoing)

  -- A reply was made from `s`: the storage is as it was, and the cached index is valid.
  abbrev pub IsReply : SequencePaxos F T S → Option (SequencePaxos F T S) → Type ℓ
  IsReply s o =
      (s' : SequencePaxos F T S) × (o ≡ some s')
      × (s'.internal_storage ≡ s.internal_storage)
      × HasCached s'

  send_accepted-IsReply :
      (s : SequencePaxos F T S) (n : Ballot) (idx : ℕ) → IsReply s (some (send_accepted s n idx))
  unfolding send_accepted send
  send_accepted-IsReply s n idx =
      (send_accepted s n idx, refl, refl, omega (arith, length-append s.outgoing (_ ∷ [])))

  replace_accepted-IsReply :
      (s : SequencePaxos F T S) (n : Ballot) (idx i : ℕ) (m : PaxosMessage T S)
      (msg : Option (PaxosMsg T S))
      → HasCached s
      → IsReply s (some (replace_accepted s n idx i m msg))
  replace_accepted-IsReply s n idx i m none c = send_accepted-IsReply s n idx
  replace_accepted-IsReply s n idx i m (some msg) c = (
    replace_accepted s n idx i m (some msg),
    refl,
    refl,
    subst (IsCached s.latest_accepted_meta) (sym (length-set s.outgoing i (record m { msg = msg })))
        c,
  )

  update_accepted_at-IsReply :
      (s : SequencePaxos F T S) (n : Ballot) (idx i : ℕ)
      → i < length s.outgoing
      → HasCached s
      → IsReply s (update_accepted_at s n idx i)
  unfolding update_accepted_at
  update_accepted_at-IsReply s n idx i h c =
      let (m, e) = get_elem?_lt s.outgoing i h in
      rw e (replace_accepted-IsReply s n idx i m (with_accepted_idx m.msg idx) c)

  reply_cached-IsReply :
      (s : SequencePaxos F T S) (n : Ballot) (idx : ℕ) (cached : Option (Ballot × ℕ))
      → IsCached cached (length s.outgoing)
      → HasCached s
      → IsReply s (reply_cached s n idx cached)
  reply_cached-IsReply s n idx none h c = send_accepted-IsReply s n idx
  reply_cached-IsReply s n idx (some (ballot, i)) h c = elim (Bool-cases (eq_ballot ballot n)) [
    | inl same ↦ rw same (update_accepted_at-IsReply s n idx i h c)
    | inr other ↦ rw other (send_accepted-IsReply s n idx)
  ]

  reply_if-IsReply :
      (s : SequencePaxos F T S) (n : Ballot) (idx : Option ℕ)
      → HasCached s
      → IsReply s (reply_if s n idx)
  unfolding reply_accepted
  reply_if-IsReply s n none c = (s, refl, refl, c)
  reply_if-IsReply s n (some idx) c = reply_cached-IsReply s n idx s.latest_accepted_meta c c

  decided-HasCached :
      (s : SequencePaxos F T S) (d : ℕ)
      → HasCached s
      → HasCached (update_decided_idx_and_get_accepted_idx s d).0
  unfolding update_decided_idx_and_get_accepted_idx
  decided-HasCached s d c = elim (Bool-cases (leb d s.internal_storage.cache.decided_idx)) [
    | inl old ↦ rw (update_decided_idx_and_get_accepted_idx, old) c
    | inr new ↦ elim (Bool-cases (ltb s.internal_storage.cache.accepted_idx d)) [
      | inl beyond ↦ rw (update_decided_idx_and_get_accepted_idx, new, beyond) c
      | inr within ↦ rw (update_decided_idx_and_get_accepted_idx, new, within) c
    ]
  ]

  -- What a follower makes of a `Decide`: it lets the message through and decides as far as it
  -- says, or it refuses it and keeps the storage.
  abbrev pub DecidesOrRefuses : SequencePaxos F T S → Decide → SequencePaxos F T S → Type ℓ
  DecidesOrRefuses s dec s' =
      ((cmp s.internal_storage.cache.promise dec.n ≡ Ordering.eq)
        × (check_msg_status s.current_seq_num dec.seq_num ≡ expected)
        × (eq_phase s.state.1 accept ≡ true)
        × Decides dec.decided_idx s.internal_storage.cache s'.internal_storage.cache)
      ⊎ (s'.internal_storage ≡ s.internal_storage)

  -- The branch of `handle_decide` that decides.
  abbrev decide_in : Decide → SequencePaxos F T S → Option (SequencePaxos F T S)
  decide_in dec s =
      reply_if (update_decided_idx_and_get_accepted_idx s dec.decided_idx).0 dec.n
        (update_decided_idx_and_get_accepted_idx s dec.decided_idx).1

  -- A follower whose decided entries are accepted handles every `Decide` without a panic. Only one
  -- of the promised ballot, in the accept phase and next in its session, changes the storage: the
  -- decided index goes as far towards the announced one as entries are accepted, and never back.
  pub handle_decide-Decides :
      (s : SequencePaxos F T S) (dec : Decide)
      → HasCached s
      → s.internal_storage.cache.decided_idx ≤ s.internal_storage.cache.accepted_idx
      → (s' : SequencePaxos F T S) × (handle_decide s dec ≡ some s') × DecidesOrRefuses s dec s'
  unfolding handle_decide
  handle_decide-Decides s dec c h =
      let fits : Role × Phase → Bool = λ state. eq_phase state.1 accept in
      elim (Bool-cases (guard s dec.n dec.seq_num fits).1) [
        | inr refused ↦ (
          (guard s dec.n dec.seq_num fits).0,
          ap
              (λ b.
                if b
                then decide_in dec (guard s dec.n dec.seq_num fits).0
                else some (guard s dec.n dec.seq_num fits).0)
              refused,
          inr (guard-storage s dec.n dec.seq_num fits),
        )
        | inl runs ↦
            let (ballot, next, phase, same) = guard-IsLetThrough s dec.n dec.seq_num fits runs in
            let t : SequencePaxos F T S = record s { current_seq_num = dec.seq_num } in
            let u = update_decided_idx_and_get_accepted_idx t dec.decided_idx in
            let (s', replied, kept, valid) =
              reply_if-IsReply u.0 dec.n u.1 (decided-HasCached t dec.decided_idx c) in
            (
              s',
              ap
                    (λ b.
                      if b
                      then decide_in dec (guard s dec.n dec.seq_num fits).0
                      else some (guard s dec.n dec.seq_num fits).0)
                    runs
                  ∙ ap (decide_in dec) same
                  ∙ replied,
              inl (
                ballot,
                next,
                phase,
                subst (λ i. Decides dec.decided_idx s.internal_storage.cache i.cache) (sym kept)
                    (update_decided_idx-Decides t dec.decided_idx h),
              ),
            )
      ]
