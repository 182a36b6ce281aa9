-- ===== src/ParallelFgrep/Occurrences.antt =====
-- The places of a file at which a pattern occurs, and the patterns that do not overlap themselves.
use pso_workspace.Base.{
  ℕ, zero, suc, ◌+◌, ◌-◌, ◌≤◌, ◌<◌, ◌≡◌, refl, true, false, [], ◌∷◌, drop, length, if◌then◌else◌,
  arith, ap, Bool-cases, ◌∙◌, inl, length-drop, inr, sym, dec_lt,
}
use pso_workspace.Base.Text.{Text}
use pso_workspace.ParallelFgrep.Count.{is_prefix, matches}

-- How often the pattern occurs at `n` places from `at` on, overlaps included.
unfoldable pub occurrences : Text → Text → ℕ → ℕ → ℕ
occurrences what file at zero = 0
occurrences what file at (suc n) =
    (if matches what file at then 1 else 0) + occurrences what file (at + 1) n

-- No beginning of the pattern is also an end of it, but the whole.
abbrev pub IsUnbordered : Text → Type 0
IsUnbordered what = (k : ℕ) → 0 < k → k < length what → is_prefix (drop k what) what ≡ false

pub occurrences-add :
    (what file : Text) (at m n : ℕ)
    → occurrences what file at (m + n)
      ≡ occurrences what file at m + occurrences what file (at + m) n
unfolding occurrences
occurrences-add what file at zero n = ground arith
occurrences-add what file at (suc m) n =
    let e : suc m + n ≡ suc (m + n) = omega arith in
    let p : at + suc m ≡ at + 1 + m = omega arith in
    rw (e, p) (omega (arith, occurrences-add what file (at + 1) m n))

pub occurrences-le : (what file : Text) (at n : ℕ) → occurrences what file at n ≤ n
unfolding occurrences
occurrences-le what file at zero = omega arith
occurrences-le what file at (suc n) = ground (arith, occurrences-le what file (at + 1) n)

drop-nil : (k : ℕ) → drop {A = ℕ} k [] ≡ []
drop-nil zero = refl
drop-nil (suc k) = refl

drop-drop : (j k : ℕ) (s : Text) → drop k (drop j s) ≡ drop (j + k) s
drop-drop zero k s = ap (λ n. drop n s) (omega arith)
drop-drop (suc j) k [] = drop-nil k ∙ sym (drop-nil (suc j + k))
drop-drop (suc j) k (c ∷ s) =
    let e : suc j + k ≡ suc (j + k) = omega arith in rw e (drop-drop j k s)

is_prefix-drop :
    (w s : Text) (k : ℕ) → is_prefix w s ≡ true → is_prefix (drop k w) (drop k s) ≡ true
unfolding is_prefix
is_prefix-drop w s zero h = h
is_prefix-drop [] s (suc k) h = refl
is_prefix-drop (c ∷ w) [] (suc k) h = cc
is_prefix-drop (c ∷ w) (d ∷ s) (suc k) h = is_prefix-drop w s k (ground arith)

is_prefix-both :
    (u w s : Text)
    → length u ≤ length w
    → is_prefix u s ≡ true
    → is_prefix w s ≡ true
    → is_prefix u w ≡ true
unfolding is_prefix
is_prefix-both [] w s l h k = refl
is_prefix-both (c ∷ u) [] s l h k = absurd (omega arith)
is_prefix-both (c ∷ u) (d ∷ w) [] l h k = cc
is_prefix-both (c ∷ u) (d ∷ w) (e ∷ s) l h k = ground (arith, is_prefix-both u w s)

module _ (what file : Text) (unbordered : IsUnbordered what) (at : ℕ) where
  -- Behind an occurrence there is none before its end.
  matches-lacks :
      (k : ℕ)
      → matches what file at ≡ true
      → 0 < k
      → k < length what
      → matches what file (at + k) ≡ false
  matches-lacks k h a b = elim (Bool-cases (matches what file (at + k))) [
    | inl again ↦ absurd (
        ground (
          arith,
          unbordered k a b,
          is_prefix-both (drop k what) what (drop (at + k) file)
              (omega (arith, length-drop {0} k what))
              (rw (← drop-drop at k file) (is_prefix-drop what (drop at file) k h)) again,
        ))
    | inr lacks ↦ lacks
  ]

  occurrences-lacks :
      (k n : ℕ)
      → matches what file at ≡ true
      → 0 < k
      → k + n ≤ length what
      → occurrences what file (at + k) n ≡ 0
  unfolding occurrences
  occurrences-lacks k zero h a b = refl
  occurrences-lacks k (suc n) h a b =
      let p : at + k + 1 ≡ at + (k + 1) = omega arith in
      rw (matches-lacks k h a (omega arith), p)
        (omega (arith, occurrences-lacks (k + 1) n h (omega arith) (omega arith)))

  -- The occurrences from one on: it, and those behind its end.
  pub occurrences-matched :
      (n : ℕ)
      → matches what file at ≡ true
      → 0 < length what
      → occurrences what file at (suc n)
        ≡ suc (occurrences what file (at + length what) (suc n - length what))
  unfolding occurrences
  occurrences-matched n h a = elim (dec_lt (suc n) (length what)) [
    | yes l ↦
        let e : suc n - length what ≡ 0 = omega arith in
        rw (h, e) (omega (arith, occurrences-lacks 1 n h (omega arith) (omega arith)))
    | no l ↦
        let m : ℕ = length what - 1 in
        let e : n ≡ m + (suc n - length what) = omega arith in
        let p : at + 1 + m ≡ at + length what = omega arith in
        rw h (
          omega (
            arith,
            ap (occurrences what file (at + 1)) e,
            occurrences-add what file (at + 1) m (suc n - length what),
            occurrences-lacks 1 m h (omega arith) (omega arith),
            ap (λ k. occurrences what file k (suc n - length what)) p,
          ))
  ]
