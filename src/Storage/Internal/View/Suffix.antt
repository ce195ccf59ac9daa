-- ===== src/Storage/Internal/View/Suffix.antt =====
-- What a reader of the decided log sees.
use ca_op.Prelude.{
  ltb, ◌==◌, if◌then◌else◌, ltb→lt, ==_iff, Bool-cases, length, take, drop, length-take,
  length-drop, sub_usize, sub_usize_le, ℕ, zero, suc, ◌+◌, ◌-◌, ◌≤◌, ◌<◌, ◌≡◌, refl, sym, ap, ◌∙◌,
  ◌≢◌, inl, inr, Bool, true, false, Option, none, some, List, [], ◌∷◌, ◌++◌, map, append-nil, arith,
}
use ca_op.Storage.{StopSign}
use ca_op.Storage.Memory.Window.{get_entries-take}
use ca_op.Storage.Cache.{stopsign_is_decided}
use ca_op.Storage.Internal.{InternalStorage, stopsign_len}
use ca_op.Storage.Internal.Read.{
  LogEntry, decided, stop_sign, IndexEntry, included, excluded, returned, last_type, get_entry_type,
  mark_entries, create_read_log_entries, read_range, read_from, read_to, read, read_decided_suffix,
}
use ca_op.Storage.Internal.View.{Represents}

-- An index of the log that is kept holds an entry, if there is no stop sign.
get_entry_type_entry :
    (ss : Option StopSign) (idx compacted_idx accepted_idx : ℕ)
    → ss ≡ none
    → compacted_idx ≤ idx
    → idx < accepted_idx
    → get_entry_type ss idx compacted_idx accepted_idx ≡ some IndexEntry.entry
unfolding get_entry_type
get_entry_type_entry ss idx compacted_idx accepted_idx plain low high = ground arith

-- An index before the last one of the log holds an entry.
get_entry_type_inner :
    (ss : Option StopSign) (idx compacted_idx accepted_idx : ℕ)
    → compacted_idx ≤ idx
    → idx + 1 < accepted_idx
    → get_entry_type ss idx compacted_idx accepted_idx ≡ some IndexEntry.entry
unfolding get_entry_type
get_entry_type_inner ss idx compacted_idx accepted_idx low high = ground arith

get_entry_type_last :
    (ss : Option StopSign) (idx compacted_idx accepted_idx : ℕ)
    → compacted_idx ≤ idx
    → idx + 1 ≡ accepted_idx
    → get_entry_type ss idx compacted_idx accepted_idx ≡ some (last_type ss)
unfolding get_entry_type
get_entry_type_last ss idx compacted_idx accepted_idx low high = ground arith

-- All of a list is taken.
take_all {ℓ} : {A : Type ℓ} (n : ℕ) (xs : List A) → length xs ≤ n → take n xs ≡ xs
take_all zero [] h = refl
take_all zero (x ∷ xs) h = absurd (omega (arith, h))
take_all (suc n) [] h = refl
take_all (suc n) (x ∷ xs) h = ap (λ l. x ∷ l) (take_all n xs (omega (arith, h)))

length-nil {ℓ} : {A : Type ℓ} (xs : List A) → length xs ≡ 0 → xs ≡ []
length-nil [] e = refl
length-nil (x ∷ xs) e = absurd (omega (arith, e))

module _ {ℓ} {T S : Type ℓ} where
  mark_entries-decided :
      (d k : ℕ) (es : List T) → k + length es ≤ d → mark_entries {S = S} d k es ≡ map decided es
  unfolding mark_entries
  mark_entries-decided d k [] h = refl
  mark_entries-decided d k (e ∷ es) h =
      let first : ltb k d ≡ true = ground arith in
      rw (first, mark_entries-decided d (k + 1) es (omega arith)) refl

  -- The stop sign of a decided log, if all of the log with its stop sign is decided.
  abbrev pub decided_stopsign : Option StopSign → Bool → List (LogEntry T S)
  decided_stopsign none all_decided = []
  decided_stopsign (some ss) false = []
  decided_stopsign (some ss) true = stop_sign ss true ∷ []

  -- The entries of a range of the log that is decided.
  listed :
      (s : InternalStorage T S) (h : List T) (from to : ℕ)
      → Represents s h
      → s.cache.compacted_idx ≤ from
      → from ≤ to
      → to ≤ length h
      → to ≤ s.cache.decided_idx
      → create_read_log_entries s from to ≡ map decided (take (to - from) (drop from h))
  unfolding create_read_log_entries
  listed s h from to r low ordered high below =
      rw
        (get_entries-take s.storage h s.cache.compacted_idx from to r.mirrors.trimmed r.log low
          ordered high)
        (mark_entries-decided s.cache.decided_idx from (take (to - from) (drop from h))
          (omega (arith, length-take (to - from) (drop from h), length-drop from h)))

  -- The decided index stands behind an entry.
  read_to_entry :
      (s : InternalStorage T S) (h : List T) (from : ℕ)
      → Represents s h
      → s.cache.compacted_idx ≤ from
      → from < s.cache.decided_idx
      → s.cache.decided_idx ≤ length h
      → get_entry_type s.cache.stopsign
          (s.cache.decided_idx - 1)
          s.cache.compacted_idx
          s.cache.accepted_idx
        ≡ some IndexEntry.entry
      → get_entry_type s.cache.stopsign from s.cache.compacted_idx s.cache.accepted_idx
        ≡ some IndexEntry.entry
      → read s (included from) (excluded s.cache.decided_idx)
        ≡ returned (some (map decided (take (s.cache.decided_idx - from) (drop from h))))
  unfolding read
  read_to_entry s h from r low below within last first =
      let d = s.cache.decided_idx in
      let nonzero : (d == 0) ≡ false = ground arith in
      let before : sub_usize d 1 ≡ d - 1 = sub_usize_le d 1 (omega arith) in
      rw (nonzero, before, last, read_to, first)
        (ap (λ es. returned (some es)) (listed s h from d r low (omega arith) within (omega arith)))

  -- Without a stop sign.
  read_plain :
      (s : InternalStorage T S) (h : List T) (from : ℕ)
      → Represents s h
      → s.cache.stopsign ≡ none
      → s.cache.compacted_idx ≤ from
      → from < s.cache.decided_idx
      → read s (included from) (excluded s.cache.decided_idx)
        ≡ returned (some (map decided (take (s.cache.decided_idx - from) (drop from h))))
  read_plain s h from r plain low below =
      let none_len = ap stopsign_len plain in
      read_to_entry s h from r low below (omega (arith, r.decided_le, r.accepted, none_len))
        (get_entry_type_entry s.cache.stopsign (s.cache.decided_idx - 1) s.cache.compacted_idx
          s.cache.accepted_idx plain (omega arith) (omega (arith, r.decided_le)))
        (get_entry_type_entry s.cache.stopsign from s.cache.compacted_idx s.cache.accepted_idx plain
          low (omega (arith, r.decided_le)))

  -- With a stop sign that is decided: it comes last.
  read_stopped :
      (s : InternalStorage T S) (h : List T) (from : ℕ) (ss : StopSign)
      → Represents s h
      → s.cache.stopsign ≡ some ss
      → s.cache.compacted_idx ≤ from
      → from < s.cache.decided_idx
      → s.cache.decided_idx ≡ s.cache.accepted_idx
      → read s (included from) (excluded s.cache.decided_idx)
        ≡ returned (
            some (
              map decided (take (s.cache.decided_idx - from) (drop from h))
              ++ stop_sign ss true ∷ []))
  unfolding read stopsign_is_decided
  read_stopped s h from ss r stopped low below whole_log =
      let d = s.cache.decided_idx in
      let es = drop from h in
      let whole : d ≡ length h + 1 = omega (arith, r.accepted, ap stopsign_len stopped) in
      let nonzero : (d == 0) ≡ false = ground arith in
      let before : sub_usize d 1 ≡ d - 1 = sub_usize_le d 1 (omega arith) in
      let last =
        get_entry_type_last s.cache.stopsign (d - 1) s.cache.compacted_idx s.cache.accepted_idx
          (omega arith) (omega arith)
        ∙ ap (λ o. some (last_type o)) stopped in
      let up_to_date : (d == s.cache.accepted_idx) ≡ true = ground arith in
      elim (Bool-cases ((from + 1) == s.cache.accepted_idx)) [
        | inl at_end ↦
            let first =
              get_entry_type_last s.cache.stopsign from s.cache.compacted_idx s.cache.accepted_idx
                low (ground arith)
              ∙ ap (λ o. some (last_type o)) stopped in
            let nothing : take (d - from) es ≡ [] =
              take_all (d - from) es (omega (arith, length-drop from h))
              ∙ length-nil es (ground (arith, length-drop from h)) in
            rw (nonzero, before, last, read_to, first, stopped, up_to_date, nothing) refl
        | inr earlier ↦
            let first =
              get_entry_type_inner s.cache.stopsign from s.cache.compacted_idx s.cache.accepted_idx
                low (ground arith) in
            let same : take (d - 1 - from) es ≡ take (d - from) es =
              take_all (d - 1 - from) es (omega (arith, length-drop from h))
              ∙ sym (take_all (d - from) es (omega (arith, length-drop from h))) in
            let entries =
              listed s h from (d - 1) r low (omega arith) (omega arith) (omega arith)
              ∙ ap (map decided) same in
            rw
              (
                nonzero, before, last, read_to, first, read_from, read_range, before, entries,
                stopped, up_to_date,
              )
              refl
      ]

  -- With a stop sign that is not decided.
  read_unstopped :
      (s : InternalStorage T S) (h : List T) (from : ℕ) (ss : StopSign)
      → Represents s h
      → s.cache.stopsign ≡ some ss
      → s.cache.compacted_idx ≤ from
      → from < s.cache.decided_idx
      → s.cache.decided_idx ≢ s.cache.accepted_idx
      → read s (included from) (excluded s.cache.decided_idx)
        ≡ returned (some (map decided (take (s.cache.decided_idx - from) (drop from h))))
  read_unstopped s h from ss r stopped low below part =
      let less : s.cache.decided_idx < s.cache.accepted_idx = omega (arith, r.decided_le) in
      read_to_entry s h from r low below (omega (arith, r.accepted, ap stopsign_len stopped))
        (get_entry_type_inner s.cache.stopsign (s.cache.decided_idx - 1) s.cache.compacted_idx
          s.cache.accepted_idx (omega arith) (omega arith))
        (get_entry_type_inner s.cache.stopsign from s.cache.compacted_idx s.cache.accepted_idx low
          (omega arith))

  read_decided :
      (s : InternalStorage T S) (h : List T) (from : ℕ) (o : Option StopSign)
      → Represents s h
      → s.cache.stopsign ≡ o
      → s.cache.compacted_idx ≤ from
      → from < s.cache.decided_idx
      → read s (included from) (excluded s.cache.decided_idx)
        ≡ returned (
            some (
              map decided (take (s.cache.decided_idx - from) (drop from h))
              ++ decided_stopsign o (s.cache.decided_idx == s.cache.accepted_idx)))
  read_decided s h from none r e low below =
      read_plain s h from r e low below ∙ ap (λ es. returned (some es)) (sym (append-nil _))
  read_decided s h from (some ss) r e low below =
      elim (Bool-cases (s.cache.decided_idx == s.cache.accepted_idx)) [
        | inl complete ↦ rw complete (read_stopped s h from ss r e low below (ground arith))
        | inr part ↦ rw part (
            read_unstopped s h from ss r e low below
              (ground (arith, ==_iff s.cache.decided_idx s.cache.accepted_idx))
            ∙ ap (λ es. returned (some es)) (sym (append-nil _)))
      ]

  -- Reading the decided log from an index that is not compacted returns the decided entries from
  -- there on, in order, and behind them the stop sign, if there is one and it is decided; from the
  -- decided index on there is nothing to read.
  pub read_decided_suffix-decided :
      (s : InternalStorage T S) (h : List T) (from : ℕ)
      → Represents s h
      → s.cache.compacted_idx ≤ from
      → read_decided_suffix s from ≡ (
          if ltb from s.cache.decided_idx
          then returned (
              some (
                map decided (take (s.cache.decided_idx - from) (drop from h))
                ++ decided_stopsign s.cache.stopsign (s.cache.decided_idx == s.cache.accepted_idx)))
          else returned none)
  unfolding read_decided_suffix
  read_decided_suffix-decided s h from r low = elim (Bool-cases (ltb from s.cache.decided_idx)) [
    | inr e ↦ rw (e, read_decided_suffix)
    | inl e ↦
        rw (e, read_decided_suffix)
          (read_decided s h from s.cache.stopsign r refl low (ltb→lt _ _ e))
  ]
