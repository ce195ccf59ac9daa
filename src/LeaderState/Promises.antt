-- ===== src/LeaderState/Promises.antt =====
-- The promises of the prepare phase: whose log the leader adopts.
use ca_op.Prelude.{
  ltb, Bool-cases, length, set, count, All, length-set, sub_usize, sub_usize_le, ℕ, ◌-◌, ◌≡◌, refl,
  sym, ap, ◌∙◌, ◌⊎◌, inl, inr, Bool, true, false, ◌&&◌, Option, none, some, List, [], ◌∷◌, ◌++◌,
  arith,
}
use ca_op.Prelude.Panic.{◌>>=◌}
use ca_op.Quorum.{is_prepare_quorum}
use ca_op.Messages.Paxos.{UnsyncedLog, Promise}
use ca_op.LeaderState.{
  PromiseMetaData, gt_meta, PromiseState, promised, LeaderState, is_promised, set_unsynced_log,
  meta_of, note_max, note_unsynced, set_promise,
}
use ca_op.LeaderState.Indexes.{InRange}
use ca_op.LeaderState.MetaOrder.{gt_meta_trans, IsAtMost, gt_meta-IsAtMost, gt_meta_irrefl}

module _ {ℓ} {T S : Type ℓ} where
  -- The leader's choice is the promise of `from`.
  abbrev pub IsChoice : LeaderState T S → Promise T S × ℕ → Type ℓ
  IsChoice s (prom, from) =
      (s.max_promise_meta ≡ meta_of prom from)
      × (s.max_promise_sync ≡ prom.log_sync)
      × (s.max_promise_accepted_hash ≡ prom.log_prefix_hash)

  -- The state after a promise, when the pid is that of a member.
  unfoldable pub noted : LeaderState T S → Promise T S → ℕ → Bool → LeaderState T S
  noted s prom from check =
      let s' = note_max s prom from check in
      note_unsynced
        (record s' {
          promises_meta = set s'.promises_meta (from - 1) (promised (meta_of prom from));
        })
        from prom.log_unsync

  note_max_frame :
      (s : LeaderState T S) (prom : Promise T S) (from : ℕ) (check : Bool)
      → ((note_max s prom from check).promises_meta ≡ s.promises_meta)
        × ((note_max s prom from check).quorum ≡ s.quorum)
  unfolding note_max
  note_max_frame s prom from check =
      elim (Bool-cases (check && gt_meta (meta_of prom from) s.max_promise_meta)) [
        | inl e ↦ rw (e, note_max) (refl, refl)
        | inr e ↦ rw (e, note_max) (refl, refl)
      ]

  note_unsynced_frame :
      (s : LeaderState T S) (from : ℕ) (log : Option (UnsyncedLog T))
      → ((note_unsynced s from log).promises_meta ≡ s.promises_meta)
        × ((note_unsynced s from log).quorum ≡ s.quorum)
        × ((note_unsynced s from log).max_promise_meta ≡ s.max_promise_meta)
        × ((note_unsynced s from log).max_promise_sync ≡ s.max_promise_sync)
        × ((note_unsynced s from log).max_promise_accepted_hash ≡ s.max_promise_accepted_hash)
  unfolding set_unsynced_log
  note_unsynced_frame s from none = (refl, refl, refl, refl, refl)
  note_unsynced_frame s from (some log) = (refl, refl, refl, refl, refl)

  pub set_promise-noted :
      (s : LeaderState T S) (prom : Promise T S) (from : ℕ) (check : Bool)
      → InRange s.promises_meta from
      → set_promise s prom from check
        ≡ some (
          noted s prom from check,
          is_prepare_quorum s.quorum (count is_promised (noted s prom from check).promises_meta),
        )
  unfolding set_promise noted
  set_promise-noted s prom from check (low, high) =
      let place : sub_usize from 1 ≡ from - 1 = sub_usize_le from 1 (omega arith) in
      let s' = note_max s prom from check in
      let (same, quorum) = note_max_frame s prom from check in
      let inside : ltb (from - 1) (length s'.promises_meta) ≡ true =
        ground (arith, ap length same) in
      let kept =
        note_unsynced_frame
          (record s' {
            promises_meta = set s'.promises_meta (from - 1) (promised (meta_of prom from));
          })
          from prom.log_unsync in
      rw (place, inside)
        (ap
          (λ q. some (
            noted s prom from check,
            is_prepare_quorum q (count is_promised (noted s prom from check).promises_meta),
          ))
          (kept.1 ∙ quorum))

  pub noted_promises :
      (s : LeaderState T S) (prom : Promise T S) (from : ℕ) (check : Bool)
      → (noted s prom from check).promises_meta
        ≡ set s.promises_meta (from - 1) (promised (meta_of prom from))
  unfolding noted
  noted_promises s prom from check =
      let s' = note_max s prom from check in
      (note_unsynced_frame
        (record s' {
          promises_meta = set s'.promises_meta (from - 1) (promised (meta_of prom from));
        })
        from prom.log_unsync).0
      ∙ ap (λ ps. set ps (from - 1) (promised (meta_of prom from)))
          (note_max_frame s prom from check).0

  pub noted_quorum :
      (s : LeaderState T S) (prom : Promise T S) (from : ℕ) (check : Bool)
      → (noted s prom from check).quorum ≡ s.quorum
  unfolding noted
  noted_quorum s prom from check =
      let s' = note_max s prom from check in
      (note_unsynced_frame
        (record s' {
          promises_meta = set s'.promises_meta (from - 1) (promised (meta_of prom from));
        })
        from prom.log_unsync).1
      ∙ (note_max_frame s prom from check).1

  note_max-IsChoice :
      (s : LeaderState T S) (prom : Promise T S) (from : ℕ)
      → let s' = note_max s prom from true in
        (gt_meta (meta_of prom from) s'.max_promise_meta ≡ false)
        × ((a : PromiseMetaData)
            → gt_meta a s.max_promise_meta ≡ false
            → gt_meta a s'.max_promise_meta ≡ false)
        × (IsChoice s' (prom, from)
            ⊎ ((s'.max_promise_meta ≡ s.max_promise_meta)
                × (s'.max_promise_sync ≡ s.max_promise_sync)
                × (s'.max_promise_accepted_hash ≡ s.max_promise_accepted_hash)))
  unfolding note_max
  note_max-IsChoice s prom from =
      elim (Bool-cases (gt_meta (meta_of prom from) s.max_promise_meta)) [
        | inl more ↦
            rw (more, note_max)
              (
                gt_meta_irrefl (meta_of prom from),
                λ a h. gt_meta_trans a s.max_promise_meta (meta_of prom from) h more,
                inl (refl, refl, refl),
              )
        | inr less ↦ rw (less, note_max) (less, λ a h. h, inr (refl, refl, refl))
      ]

  -- The choice after one promise: at least the old one and the promise, and one of the two.
  noted-IsChoice :
      (s : LeaderState T S) (prom : Promise T S) (from : ℕ)
      → let s' = noted s prom from true in
        (gt_meta (meta_of prom from) s'.max_promise_meta ≡ false)
        × ((a : PromiseMetaData)
            → gt_meta a s.max_promise_meta ≡ false
            → gt_meta a s'.max_promise_meta ≡ false)
        × (IsChoice s' (prom, from)
            ⊎ ((s'.max_promise_meta ≡ s.max_promise_meta)
                × (s'.max_promise_sync ≡ s.max_promise_sync)
                × (s'.max_promise_accepted_hash ≡ s.max_promise_accepted_hash)))
  unfolding noted
  noted-IsChoice s prom from =
      let s' = note_max s prom from true in
      let kept =
        note_unsynced_frame
          (record s' {
            promises_meta = set s'.promises_meta (from - 1) (promised (meta_of prom from));
          })
          from prom.log_unsync in
      rw (kept.2, kept.3, kept.4) (note_max-IsChoice s prom from)

  -- The promises that arrive in the prepare phase.
  unfoldable pub collect : LeaderState T S → List (Promise T S × ℕ) → Option (LeaderState T S)
  collect s [] = some s
  collect s ((prom, from) ∷ ps) = set_promise s prom from true >>= λ r. collect r.0 ps

  InRange-set :
      (v w : List PromiseState) (ps : List (Promise T S × ℕ))
      → length v ≡ length w
      → All (λ r. InRange v r.1) ps
      → All (λ r. InRange w r.1) ps
  InRange-set v w [] e a = tt
  InRange-set v w (p ∷ ps) e a = ((a.0.0, omega arith), InRange-set v w ps e a.1)

  -- The fields of the choice are those of a promise of the list, or the old ones.
  abbrev pub ChosenFrom : LeaderState T S → LeaderState T S → List (Promise T S × ℕ) → Type ℓ
  ChosenFrom s s' ps =
      ((r : Promise T S × ℕ) × (before : List (Promise T S × ℕ)) × (later : List (Promise T S × ℕ))
        × (ps ≡ before ++ r ∷ later)
        × IsChoice s' r)
      ⊎ ((s'.max_promise_meta ≡ s.max_promise_meta)
          × (s'.max_promise_sync ≡ s.max_promise_sync)
          × (s'.max_promise_accepted_hash ≡ s.max_promise_accepted_hash))

  chosen_first :
      (s s₁ s' : LeaderState T S) (prom : Promise T S) (from : ℕ) (ps : List (Promise T S × ℕ))
      → (IsChoice s₁ (prom, from)
          ⊎ ((s₁.max_promise_meta ≡ s.max_promise_meta)
              × (s₁.max_promise_sync ≡ s.max_promise_sync)
              × (s₁.max_promise_accepted_hash ≡ s.max_promise_accepted_hash)))
      → ChosenFrom s₁ s' ps
      → ChosenFrom s s' ((prom, from) ∷ ps)
  chosen_first s s₁ s' prom from ps choice (inl (r, before, later, e, c)) =
      inl (r, (prom, from) ∷ before, later, ap (λ l. (prom, from) ∷ l) e, c)
  chosen_first s s₁ s' prom from ps (inl (m, sync, h)) (inr (m', sync', h')) =
      inl ((prom, from), [], ps, refl, (m' ∙ m, sync' ∙ sync, h' ∙ h))
  chosen_first s s₁ s' prom from ps (inr (m, sync, h)) (inr (m', sync', h')) =
      inr (m' ∙ m, sync' ∙ sync, h' ∙ h)

  collect-max :
      (s : LeaderState T S) (ps : List (Promise T S × ℕ))
      → All (λ r. InRange s.promises_meta r.1) ps
      → (s' : LeaderState T S) × (collect s ps ≡ some s')
        × All (λ r. gt_meta (meta_of r.0 r.1) s'.max_promise_meta ≡ false) ps
        × ((a : PromiseMetaData)
            → gt_meta a s.max_promise_meta ≡ false
            → gt_meta a s'.max_promise_meta ≡ false)
        × ChosenFrom s s' ps
  unfolding collect
  collect-max s [] inside = (s, refl, tt, λ a h. h, inr (refl, refl, refl))
  collect-max s ((prom, from) ∷ ps) (here, inside) =
      let s₁ = noted s prom from true in
      let size : length s.promises_meta ≡ length s₁.promises_meta = sym (
        ap length (noted_promises s prom from true)
        ∙ length-set s.promises_meta (from - 1) (promised (meta_of prom from))) in
      let (top, keeps, choice) = noted-IsChoice s prom from in
      let (s', run, all_below, below, chosen) =
        collect-max s₁ ps (InRange-set s.promises_meta s₁.promises_meta ps size inside) in
      (
        s',
        rw (set_promise-noted s prom from true here) run,
        (below (meta_of prom from) top, all_below),
        λ a h. below a (keeps a h),
        chosen_first s s₁ s' prom from ps choice chosen,
      )

  All-IsAtMost :
      (m : PromiseMetaData) (ps : List (Promise T S × ℕ))
      → All (λ r. gt_meta (meta_of r.0 r.1) m ≡ false) ps
      → All (λ r. IsAtMost (meta_of r.0 r.1) m) ps
  All-IsAtMost m [] a = tt
  All-IsAtMost m ((prom, from) ∷ ps) a =
      (gt_meta-IsAtMost (meta_of prom from) m a.0, All-IsAtMost m ps a.1)

  -- After the promises of members in any order the leader's choice is at least every one of them, and
  -- at least the choice before, by the ballots of the accepted rounds and, for equal ballots, by the
  -- accepted indices. It is one of the promises, with its log update and hash, or the choice before.
  pub collect-chooses_max :
      (s : LeaderState T S) (ps : List (Promise T S × ℕ))
      → All (λ r. InRange s.promises_meta r.1) ps
      → (s' : LeaderState T S) × (collect s ps ≡ some s')
        × All (λ r. IsAtMost (meta_of r.0 r.1) s'.max_promise_meta) ps
        × IsAtMost s.max_promise_meta s'.max_promise_meta
        × ChosenFrom s s' ps
  collect-chooses_max s ps inside =
      let (s', run, top, keeps, chosen) = collect-max s ps inside in
      (
        s',
        run,
        All-IsAtMost s'.max_promise_meta ps top,
        gt_meta-IsAtMost s.max_promise_meta s'.max_promise_meta
            (keeps s.max_promise_meta (gt_meta_irrefl s.max_promise_meta)),
        chosen,
      )
