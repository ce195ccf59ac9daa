-- ===== src/LeaderState/Answers.antt =====
-- The answers of the members in the prepare phase (lib/omnipaxos/src/util.rs and
-- lib/omnipaxos/src/sequence_paxos/leader.rs): promises, refusals, and requests for another `Prepare`.
use ca_op.Prelude.{
  ltb, ◌==◌, if◌then◌else◌, length, set, replicate, count, All, length-set, length-replicate,
  count-map, sub_usize_le, ℕ, zero, suc, ◌+◌, ◌-◌, ◌<◌, ◌≡◌, refl, sym, ap, subst, ◌∙◌, Bool, true,
  false, Option, some, List, [], ◌∷◌, ◌++◌, map, arith,
}
use ca_op.Prelude.Panic.{◌>>=◌}
use ca_op.Quorum.{is_prepare_quorum}
use ca_op.Messages.Paxos.{Promise}
use ca_op.LeaderState.{
  PromiseState, not_promised, promised, promised_higher, LeaderState, set_at_pid, is_promised,
  meta_of, set_promise, reset_promise, lost_promise,
}
use ca_op.LeaderState.Indexes.{InRange}
use ca_op.LeaderState.Promises.{noted, set_promise-noted, noted_promises, noted_quorum}

-- What a member answers; the last one has lost its state and asks again.
pub data Answer {ℓ} (T S : Type ℓ) : Type ℓ where
  promises : Promise T S → ℕ → Answer T S
  refuses : ℕ → Answer T S
  asks_again : ℕ → Answer T S

-- The pids from `i` on.
abbrev pub pids_from : ℕ → ℕ → List ℕ
pids_from i zero = []
pids_from i (suc n) = i ∷ pids_from (i + 1) n

-- The members of which the last answer is a promise, after one more answer of a pid.
abbrev pub answered : (ℕ → Bool) → ℕ → Bool → ℕ → Bool
answered f pid is_promise other = if other == pid then is_promise else f other

module _ {ℓ} {T S : Type ℓ} where
  abbrev pub pid_of : Answer T S → ℕ
  pid_of (promises prom from) = from
  pid_of (refuses from) = from
  pid_of (asks_again from) = from

  abbrev pub is_promise : Answer T S → Bool
  is_promise (promises prom from) = true
  is_promise (refuses from) = false
  is_promise (asks_again from) = false

  abbrev pub latest : (ℕ → Bool) → List (Answer T S) → ℕ → Bool
  latest f [] = f
  latest f (a ∷ answers) = latest (answered f (pid_of a) (is_promise a)) answers

  unfoldable pub take_answer : LeaderState T S → Answer T S → Option (LeaderState T S)
  unfolding lost_promise reset_promise
  take_answer s (promises prom from) = set_promise s prom from true >>= λ r. some r.0
  take_answer s (refuses from) = lost_promise s from
  take_answer s (asks_again from) = reset_promise s from

  unfoldable pub take_answers : LeaderState T S → List (Answer T S) → Option (LeaderState T S)
  unfolding take_answer
  take_answers s [] = some s
  take_answers s (a ∷ answers) = take_answer s a >>= λ s'. take_answers s' answers

map_later :
    (f : ℕ → Bool) (b : Bool) (pid i n : ℕ)
    → pid < i
    → map (answered f pid b) (pids_from i n) ≡ map f (pids_from i n)
map_later f b pid i zero below = refl
map_later f b pid i (suc n) below =
    let other : (i == pid) ≡ false = ground arith in
    rw (other, map_later f b pid (i + 1) n (omega arith)) refl

-- To set the answer of one pid in the list of all.
set-map :
    (f : ℕ → Bool) (b : Bool) (k i n : ℕ)
    → set (map f (pids_from i n)) k b ≡ map (answered f (i + k) b) (pids_from i n)
set-map f b k i zero = refl
set-map f b zero i (suc n) =
    let here : (i == (i + 0)) ≡ true = ground arith in
    rw (here, map_later f b (i + 0) (i + 1) n (omega arith)) refl
set-map f b (suc k) i (suc n) =
    let other : (i == (i + suc k)) ≡ false = ground arith in
    let place : i + 1 + k ≡ i + suc k = omega arith in
    rw (other, set-map f b k (i + 1) n, place) refl

map-set :
    (v : List PromiseState) (k : ℕ) (p : PromiseState)
    → map is_promised (set v k p) ≡ set (map is_promised v) k (is_promised p)
map-set [] k p = refl
map-set (x ∷ v) zero p = refl
map-set (x ∷ v) (suc k) p = ap (λ w. is_promised x ∷ w) (map-set v k p)

count-map_id {κ} :
    {A : Type κ} (p : A → Bool) (xs : List A) → count (λ b. b) (map p xs) ≡ count p xs
count-map_id p xs = count-map (λ b. b) p xs

-- The promises of a state are those of the pids.
abbrev pub AreOf : (ℕ → Bool) → List PromiseState → Type 0
AreOf f v = map is_promised v ≡ map f (pids_from 1 (length v))

AreOf-set :
    (f : ℕ → Bool) (v : List PromiseState) (pid : ℕ) (p : PromiseState)
    → InRange v pid
    → AreOf f v
    → AreOf (answered f pid (is_promised p)) (set v (pid - 1) p)
AreOf-set f v pid p (low, high) a =
    let at : 1 + (pid - 1) ≡ pid = omega arith in
    map-set v (pid - 1) p
    ∙ ap (λ w. set w (pid - 1) (is_promised p)) a
    ∙ set-map f (is_promised p) (pid - 1) 1 (length v)
    ∙ rw (at, length-set v (pid - 1) p) refl

AreOf-count :
    (f : ℕ → Bool) (v : List PromiseState)
    → AreOf f v
    → count is_promised v ≡ count f (pids_from 1 (length v))
AreOf-count f v a =
    sym (count-map_id is_promised v)
    ∙ ap (count (λ b. b)) a
    ∙ count-map_id f (pids_from 1 (length v))

module _ {ℓ} {T S : Type ℓ} where
  -- The state after an answer: the new entry of its pid, and the old quorum.
  take_answer-AreOf :
      (f : ℕ → Bool) (s : LeaderState T S) (a : Answer T S)
      → InRange s.promises_meta (pid_of a)
      → AreOf f s.promises_meta
      → (s' : LeaderState T S) × (take_answer s a ≡ some s')
        × (s'.quorum ≡ s.quorum)
        × (length s'.promises_meta ≡ length s.promises_meta)
        × AreOf (answered f (pid_of a) (is_promise a)) s'.promises_meta
  unfolding take_answer set_at_pid
  take_answer-AreOf f s (promises prom from) member a =
      let v = noted_promises s prom from true in
      (
        noted s prom from true,
        rw (set_promise-noted s prom from true member) refl,
        noted_quorum s prom from true,
        ap length v ∙ length-set s.promises_meta (from - 1) (promised (meta_of prom from)),
        subst (AreOf (answered f from true)) (sym v)
            (AreOf-set f s.promises_meta from (promised (meta_of prom from)) member a),
      )
  take_answer-AreOf f s (refuses from) member a =
      let inside : ltb (from - 1) (length s.promises_meta) ≡ true = ground (arith, member) in
      (
        record s { promises_meta = set s.promises_meta (from - 1) promised_higher },
        rw (lost_promise, sub_usize_le from 1 member.0, inside) refl,
        refl,
        length-set s.promises_meta (from - 1) promised_higher,
        AreOf-set f s.promises_meta from promised_higher member a,
      )
  take_answer-AreOf f s (asks_again from) member a =
      let inside : ltb (from - 1) (length s.promises_meta) ≡ true = ground (arith, member) in
      (
        record s { promises_meta = set s.promises_meta (from - 1) not_promised },
        rw (reset_promise, sub_usize_le from 1 member.0, inside) refl,
        refl,
        length-set s.promises_meta (from - 1) not_promised,
        AreOf-set f s.promises_meta from not_promised member a,
      )

  members-kept :
      (v w : List PromiseState) (answers : List (Answer T S))
      → length w ≡ length v
      → All (λ a. InRange v (pid_of a)) answers
      → All (λ a. InRange w (pid_of a)) answers
  members-kept v w [] e m = tt
  members-kept v w (a ∷ answers) e m = ((m.0.0, omega arith), members-kept v w answers e m.1)

  take_answers-AreOf :
      (f : ℕ → Bool) (s : LeaderState T S) (answers : List (Answer T S))
      → All (λ a. InRange s.promises_meta (pid_of a)) answers
      → AreOf f s.promises_meta
      → (s' : LeaderState T S) × (take_answers s answers ≡ some s')
        × (s'.quorum ≡ s.quorum)
        × (length s'.promises_meta ≡ length s.promises_meta)
        × AreOf (latest f answers) s'.promises_meta
  unfolding take_answers
  take_answers-AreOf f s [] members a = (s, refl, refl, refl, a)
  take_answers-AreOf f s (answer ∷ answers) members a =
      let (s₁, run, quorum, size, of) = take_answer-AreOf f s answer members.0 a in
      let (s', run', quorum', size', of') =
        take_answers-AreOf (answered f (pid_of answer) (is_promise answer)) s₁ answers
          (members-kept s.promises_meta s₁.promises_meta answers size members.1) of in
      (s', rw run run', quorum' ∙ quorum, size' ∙ size, of')

  latest-snoc :
      (f : ℕ → Bool) (answers : List (Answer T S)) (a : Answer T S)
      → latest f (answers ++ a ∷ []) ≡ answered (latest f answers) (pid_of a) (is_promise a)
  latest-snoc f [] a = refl
  latest-snoc f (b ∷ answers) a = latest-snoc (answered f (pid_of b) (is_promise b)) answers a

  -- A new leader takes any sequence of answers of the members without a panic: promises, refusals and
  -- requests for another `Prepare`, also several of one member. A promise after them is answered by
  -- whether the members of which the last answer is a promise, with this one, are a prepare quorum.
  pub set_promise-counts :
      (n : ℕ) (s : LeaderState T S) (answers : List (Answer T S)) (prom : Promise T S) (from : ℕ)
      → s.promises_meta ≡ replicate n not_promised
      → All (λ a. InRange s.promises_meta (pid_of a)) answers
      → InRange s.promises_meta from
      → (s' : LeaderState T S) × (s'' : LeaderState T S) × (take_answers s answers ≡ some s')
        × (set_promise s' prom from true
            ≡ some (
              s'',
              is_prepare_quorum s.quorum (
                  count
                    (latest (λ pid. false) (answers ++ promises prom from ∷ []))
                    (pids_from 1 n)),
            ))
  set_promise-counts n s answers prom from fresh members member =
      let size : length s.promises_meta ≡ n = ap length fresh ∙ length-replicate n not_promised in
      let (s', run, quorum, size', of) =
        take_answers-AreOf (λ pid. false) s answers members
          (rw size (rw fresh (none_promised 1 n))) in
      let member' : InRange s'.promises_meta from = (member.0, omega (arith, member.1)) in
      let v = noted_promises s' prom from true in
      let ps = (noted s' prom from true).promises_meta in
      let of' = subst (AreOf (answered (latest (λ pid. false) answers) from true)) (sym v) (
        AreOf-set (latest (λ pid. false) answers) s'.promises_meta from
          (promised (meta_of prom from)) member' of) in
      let long : length ps ≡ n =
        ap length v
        ∙ length-set s'.promises_meta (from - 1) (promised (meta_of prom from))
        ∙ size'
        ∙ size in
      let votes = AreOf-count (answered (latest (λ pid. false) answers) from true) ps of' in
      (
        s',
        noted s' prom from true,
        run,
        rw
            (
              set_promise-noted s' prom from true member',
              votes,
              long,
              quorum,
              ← latest-snoc (λ pid. false) answers (promises prom from),
            )
            refl,
      )
    where
      none_promised :
          (i k : ℕ)
          → map is_promised (replicate k not_promised) ≡ map (λ pid. false) (pids_from i k)
      none_promised i zero = refl
      none_promised i (suc k) = ap (λ l. false ∷ l) (none_promised (i + 1) k)
