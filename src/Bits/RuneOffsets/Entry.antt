-- ===== src/Bits/RuneOffsets/Entry.antt =====
-- Binary search, and the entry that it picks.
use zoekt.Prelude.{ℕ, zero, suc, ◌+◌, ◌/◌, ◌≤◌, ◌<◌, ltb, Bool, true, false}
use zoekt.Prelude.{if_cases, subst}
use zoekt.Prelude.{◌≡◌, arith, Bool-cases, inl, inr, ltb→lt, ltb-false→le}
use zoekt.Bits.RuneOffsets.{search_loop, search_index}

-- What the loop keeps: the test fails below `i` and holds from `j` up to `n`.
record Bracket (n : ℕ) (test : ℕ → Bool) (i j : ℕ) : Type 0 where
  ordered : i ≤ j
  within : j ≤ n
  fails : (k : ℕ) → k < i → test k ≡ false
  holds : (k : ℕ) → j ≤ k → k < n → test k ≡ true

-- From some index on, the test holds.
abbrev pub IsMonotone : ℕ → (ℕ → Bool) → Type 0
IsMonotone n test = (a b : ℕ) → a ≤ b → b < n → test a ≡ true → test b ≡ true

module _ (n : ℕ) (test : ℕ → Bool) (mono : IsMonotone n test) where
  lower_half :
      (i j : ℕ)
      → i < j
      → test ((i + j) / 2) ≡ true
      → Bracket n test i j
      → Bracket n test i ((i + j) / 2)
  lower_half i j h t b = record {
    ordered = omega arith;
    within = let w = b.within in omega arith;
    fails = b.fails;
    holds = λ k p q. mono ((i + j) / 2) k p q t;
  }

  upper_half :
      (i j : ℕ)
      → i < j
      → test ((i + j) / 2) ≡ false
      → Bracket n test i j
      → Bracket n test ((i + j) / 2 + 1) j
  upper_half i j h t b = record {
    ordered = omega arith;
    within = b.within;
    fails = λ k p. elim (Bool-cases (test k)) [
      | inl s ↦
          let w = b.within in let s' = mono k ((i + j) / 2) (omega arith) (omega arith) s in cc
      | inr s ↦ s
    ];
    holds = b.holds;
  }

  search_loop-Bracket :
      (fuel i j : ℕ)
      → j < fuel + i
      → Bracket n test i j
      → Bracket n test (search_loop fuel test i j) (search_loop fuel test i j)
  unfolding search_loop
  search_loop-Bracket zero i j h b = absurd (let o = b.ordered in omega arith)
  search_loop-Bracket (suc fuel) i j h b =
      let h' = (i + j) / 2 in
      if_cases (λ k. Bracket n test k k) (ltb i j) _ _
        (λ more.
          let lt = ltb→lt i j more in
          if_cases (λ k. Bracket n test k k) (test h') _ _
            (λ t. search_loop-Bracket fuel i h' (omega arith) (lower_half i j lt t b))
            (λ t. search_loop-Bracket fuel (h' + 1) j (omega arith) (upper_half i j lt t b)))
        (λ done.
          let o = b.ordered in
          let e : j ≡ i = let g = ltb-false→le i j done in omega arith in
          subst (λ t. Bracket n test i t) e b)

  -- `sort.Search` on a test that goes over from false to true once: it is false below the index
  -- found and true from there on.
  pub search_index_lem :
      (search_index n test ≤ n)
      × ((k : ℕ) → k < search_index n test → test k ≡ false)
      × ((k : ℕ) → search_index n test ≤ k → k < n → test k ≡ true)
  unfolding search_index
  search_index_lem =
      let b = search_loop-Bracket (suc n) 0 n (omega arith) (record {
        ordered = omega arith;
        within = omega arith;
        fails = λ k h. absurd (omega arith);
        holds = λ k h h'. absurd (omega arith);
      }) in
      (b.within, b.fails, b.holds)
