-- ===== src/Storage/Memory/Window.antt =====
-- A back end that was trimmed at `c` and holds the log `h` from there on: its reads and writes at
-- indices from `c` on are those of the whole log. The subtractions do not wrap there.
use ca_op.Prelude.{
  leb, Bool-cases, length, take, drop, length-take, length-drop, drop-drop, drop-append_le,
  drop_of_length-le, drop-take, sub_usize, sub_usize_le, ℕ, ◌+◌, ◌-◌, ◌≤◌, ◌<◌, min, ◌≡◌, refl, sym,
  ap, ◌∙◌, inl, inr, true, false, ◌&&◌, List, [], ◌++◌, arith,
}
use ca_op.Storage.Memory.{MemoryStorage, append_on_prefix, get_entries, get_suffix, trim}

module _ {ℓ} {A : Type ℓ} where
  drop-drop_le : (c n : ℕ) (h : List A) → c ≤ n → drop (n - c) (drop c h) ≡ drop n h
  drop-drop_le c n h low = rw (drop-drop c (n - c) h) (ap (λ k. drop k h) (omega arith))

  drop-take_le : (c n : ℕ) (h : List A) → c ≤ n → drop c (take n h) ≡ take (n - c) (drop c h)
  drop-take_le c n h low =
      let e : n ≡ c + (n - c) = omega arith in ap (λ k. drop c (take k h)) e ∙ drop-take c (n - c) h

module _ {ℓ} {T S : Type ℓ} (m : MemoryStorage T S) (h : List T) (c : ℕ) where
  pub trim-log :
      (idx : ℕ)
      → m.trimmed_idx ≡ c
      → m.log ≡ drop c h
      → c ≤ idx
      → idx ≤ length h
      → (trim m idx).log ≡ drop idx h
  unfolding trim
  trim-log idx t l low high =
      let offset : min (sub_usize idx m.trimmed_idx) (length m.log) ≡ idx - c =
        omega (arith, sub_usize_le idx m.trimmed_idx (omega arith), ap length l, length-drop c h) in
      rw (offset, l) (drop-drop_le c idx h low)

  pub get_suffix-drop :
      (from : ℕ) → m.trimmed_idx ≡ c → m.log ≡ drop c h → c ≤ from → get_suffix m from ≡ drop from h
  unfolding get_suffix
  get_suffix-drop from t l low =
      let offset : sub_usize from m.trimmed_idx ≡ from - c =
        omega (arith, sub_usize_le from m.trimmed_idx (omega arith)) in
      elim (Bool-cases (leb (from - c) (length (drop c h)))) [
        | inl e ↦ rw (offset, l, e) (drop-drop_le c from h low)
        | inr e ↦
            rw (offset, l, e) (sym (drop_of_length-le from h (ground (arith, length-drop c h))))
      ]

  pub get_entries-take :
      (from to : ℕ)
      → m.trimmed_idx ≡ c
      → m.log ≡ drop c h
      → c ≤ from
      → from ≤ to
      → to ≤ length h
      → get_entries m from to ≡ take (to - from) (drop from h)
  unfolding get_entries
  get_entries-take from to t l low mid high =
      let offset : sub_usize from m.trimmed_idx ≡ from - c =
        omega (arith, sub_usize_le from m.trimmed_idx (omega arith)) in
      let offset' : sub_usize to m.trimmed_idx ≡ to - c =
        omega (arith, sub_usize_le to m.trimmed_idx (omega arith)) in
      let inside : (leb (from - c) (to - c) && leb (to - c) (length (drop c h))) ≡ true =
        ground (arith, length-drop c h) in
      let size : to - c - (from - c) ≡ to - from = omega arith in
      rw (offset, offset', l, inside, size, drop-drop_le c from h low) refl

  pub get_entries_beyond :
      (from to : ℕ)
      → m.trimmed_idx ≡ c
      → m.log ≡ drop c h
      → c ≤ length h
      → c ≤ from
      → from ≤ to
      → length h < to
      → get_entries m from to ≡ []
  unfolding get_entries
  get_entries_beyond from to t l kept low mid high =
      let offset : sub_usize from m.trimmed_idx ≡ from - c =
        omega (arith, sub_usize_le from m.trimmed_idx (omega arith)) in
      let offset' : sub_usize to m.trimmed_idx ≡ to - c =
        omega (arith, sub_usize_le to m.trimmed_idx (omega arith)) in
      let outside : (leb (from - c) (to - c) && leb (to - c) (length (drop c h))) ≡ false =
        ground (arith, length-drop c h) in
      rw (offset, offset', l, outside) refl

  pub append_on_prefix-log :
      (from : ℕ) (entries : List T)
      → m.trimmed_idx ≡ c
      → m.log ≡ drop c h
      → c ≤ from
      → from ≤ length h
      → (append_on_prefix m from entries).log ≡ drop c (take from h ++ entries)
  unfolding append_on_prefix
  append_on_prefix-log from entries t l low high =
      let offset : sub_usize from m.trimmed_idx ≡ from - c =
        omega (arith, sub_usize_le from m.trimmed_idx (omega arith)) in
      let fits : c ≤ length (take from h) = omega (arith, length-take from h) in
      rw (offset, l, drop-append_le c (take from h) entries fits, drop-take_le c from h low) refl
