-- ===== src/Fuser/Laws/Polling.antt =====
-- A loop that checks a number of times, and stops at the first check that decides (the loops
-- `wait_for_file_read` and `wait_for_dir_refresh` of src/bin/server/fusermount.rs).
use rs1541fs.Prelude.{
  ℕ, zero, suc, ◌+◌, ◌<◌, ◌≡◌, ◌⊎◌, inl, inr, Option, none, some, arith, ap, ◌∙◌, Option-cases,
}

module _ {A R : Type 0} (check : ℕ → Option A) (answer : A → R) (late : R) where
  -- The checks from number `count` on, `left` of them: the first that decides gives the answer, and
  -- the loop is late only if none does.
  abbrev pub Polls : ℕ → ℕ → R → Type 0
  Polls left count r =
      ((k : ℕ) × (a : A) × (k < left)
        × (check (count + k) ≡ some a)
        × ((j : ℕ) → j < k → check (count + j) ≡ none)
        × (r ≡ answer a))
      ⊎ (((j : ℕ) → j < left → check (count + j) ≡ none) × (r ≡ late))

  -- Shifted by one check.
  none_before :
      (count k : ℕ)
      → check count ≡ none
      → ((j : ℕ) → j < k → check (count + 1 + j) ≡ none)
      → (j : ℕ) → j < suc k
      → check (count + j) ≡ none
  none_before count k first later zero h = ap check (omega arith) ∙ first
  none_before count k first later (suc j) h = ap check (omega arith) ∙ later j (omega arith)

  later-Polls :
      (left count : ℕ) (r : R)
      → check count ≡ none
      → Polls left (count + 1) r
      → Polls (suc left) count r
  later-Polls left count r first (inl (k, a, h, decides, before, e)) =
      inl (
        suc k,
        a,
        omega arith,
        ap check (omega arith) ∙ decides,
        none_before count k first before,
        e,
      )
  later-Polls left count r first (inr (nothing, e)) = inr (none_before count left first nothing, e)

  -- Any loop that checks in this way does so.
  module _ (loop : ℕ → ℕ → R) (ends : (count : ℕ) → loop zero count ≡ late)
      (decides : (left count : ℕ) (a : A) → check count ≡ some a → loop (suc left) count ≡ answer a)
      (goes_on : (left count : ℕ)
        → check count ≡ none
        → loop (suc left) count ≡ loop left (count + 1)) where
    pub loop-Polls : (left count : ℕ) → Polls left count (loop left count)
    loop-Polls zero count = inr (λ j h. absurd (omega arith), ends count)
    loop-Polls (suc left) count = elim (Option-cases (check count)) [
      | inl e ↦ later-Polls left count _ e (rw (goes_on left count e) (loop-Polls left (count + 1)))
      | inr (a, e) ↦ inl (
        0,
        a,
        omega arith,
        ap check (omega arith) ∙ e,
        λ j h. absurd (omega arith),
        decides left count a e,
      )
    ]
