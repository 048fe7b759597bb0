-- ===== src/MatchTree/Expected.antt =====
-- What the search of a shard is to find (`indexData.Search` of index/eval.go), read off document by
-- document: nothing is skipped for the match tree, and the matches counted are those of the
-- documents found before.
use zoekt.Prelude.{
  ℕ, zero, suc, ◌+◌, ◌-◌, ◌≤◌, ◌<◌, ltb, leb, ◌==◌, if◌then◌else◌, Bool, true, false, ◌&&◌, ◌||◌,
  Bool-cases, inl, inr,
}
use zoekt.Prelude.{List, [], ◌∷◌, ◌≡◌, refl, sym, ap, ◌∙◌, arith, if_false, if_true}
use zoekt.MatchTree.Value.{negate}
use zoekt.MatchTree.Search.{IndexData, Context, Limits, Answers, hidden}

-- The matches of a list of documents, and of those in one repository.
abbrev pub total : (ℕ → ℕ) → List ℕ → ℕ
total count [] = 0
total count (d ∷ ds) = count d + total count ds

abbrev pub in_repo : (ℕ → ℕ) → (ℕ → ℕ) → ℕ → List ℕ → ℕ
in_repo repos count r [] = 0
in_repo repos count r (d ∷ ds) = (if repos d == r then count d else 0) + in_repo repos count r ds

module _ (sh : IndexData) (ctx : Context) (o : Limits) (a : Answers) (value : ℕ → Bool) where
  -- The limit of a repository is reached by what was found before.
  abbrev pub full : List ℕ → ℕ → Bool
  full seen d =
      ltb 0 o.shard_repo_max_match_count
      && leb o.shard_repo_max_match_count (in_repo sh.repos a.match_count (sh.repos d) seen)

  abbrev pub ends : List ℕ → ℕ → Bool
  ends seen d =
      a.canceled d
      || (a.exhausted d
          || (leb o.shard_max_match_count (total a.match_count seen)
              && ltb 0 o.shard_max_match_count))

  abbrev pub passes : List ℕ → ℕ → Bool
  passes seen d = negate (hidden sh ctx d || full seen d) && value d

  -- The files kept among the `left` documents from `d` on, when those of `seen` were found before.
  unfoldable pub expected : ℕ → ℕ → List ℕ → List ℕ
  expected zero d seen = []
  expected (suc left) d seen =
      let rest = expected left (suc d) seen in
      let more = d ∷ expected left (suc d) (d ∷ seen) in
      let kept = if a.reserve d then more else [] in
      let found = if ends seen d then [] else kept in if passes seen d then found else rest

  pub expected_none : (left d : ℕ) (seen : List ℕ) → left ≡ 0 → expected left d seen ≡ []
  unfolding expected
  expected_none zero d seen h = refl
  expected_none (suc left) d seen h = absurd (omega arith)

  pub expected_fails :
      (left d : ℕ) (seen : List ℕ)
      → passes seen d ≡ false
      → expected (suc left) d seen ≡ expected left (suc d) seen
  unfolding expected
  expected_fails left d seen h = if_false (passes seen d) _ _ h

  pub expected_kept :
      (left d : ℕ) (seen : List ℕ)
      → passes seen d ≡ true
      → ends seen d ≡ false
      → a.reserve d ≡ true
      → expected (suc left) d seen ≡ d ∷ expected left (suc d) (d ∷ seen)
  unfolding expected
  expected_kept left d seen h k l =
      if_true (passes seen d) _ _ h ∙ if_false (ends seen d) _ _ k ∙ if_true (a.reserve d) _ _ l

  pub expected_refused :
      (left d : ℕ) (seen : List ℕ)
      → passes seen d ≡ true
      → ends seen d ≡ false
      → a.reserve d ≡ false
      → expected (suc left) d seen ≡ []
  unfolding expected
  expected_refused left d seen h k l =
      if_true (passes seen d) _ _ h ∙ if_false (ends seen d) _ _ k ∙ if_false (a.reserve d) _ _ l

  -- Where the search ends it finds nothing more.
  pub expected_ends :
      (left d : ℕ) (seen : List ℕ)
      → ((x : ℕ) → d ≤ x → ends seen x ≡ true)
      → expected left d seen ≡ []
  unfolding expected
  expected_ends zero d seen h = refl
  expected_ends (suc left) d seen h = elim (Bool-cases (passes seen d)) [
    | inl p ↦ if_true (passes seen d) _ _ p ∙ if_true (ends seen d) _ _ (h d (omega arith))
    | inr p ↦
        if_false (passes seen d) _ _ p ∙ expected_ends left (suc d) seen (λ x q. h x (omega arith))
  ]

  -- Documents at the front that do not pass do not count.
  expected-skip :
      (skipped left d : ℕ) (seen : List ℕ)
      → ((x : ℕ) → d ≤ x → x < d + skipped → passes seen x ≡ false)
      → expected (skipped + left) d seen ≡ expected left (d + skipped) seen
  expected-skip zero left d seen h =
      let m : zero + left ≡ left = omega arith in let n : d + zero ≡ d = omega arith in rw (m, n)
  expected-skip (suc k) left d seen h =
      let m : suc k + left ≡ suc (k + left) = omega arith in
      let n : d + suc k ≡ suc d + k = omega arith in
      ap (λ i. expected i d seen) m
      ∙ expected_fails (k + left) d seen (h d (omega arith) (omega arith))
      ∙ expected-skip k left (suc d) seen (λ x p q. h x (omega arith) (omega arith))
      ∙ ap (λ i. expected left i seen) (sym n)

  pub expected_behind :
      (from d : ℕ) (seen : List ℕ)
      → from ≤ d
      → d ≤ sh.docs
      → ((x : ℕ) → from ≤ x → x < d → passes seen x ≡ false)
      → expected (sh.docs - from) from seen ≡ expected (sh.docs - d) d seen
  expected_behind from d seen l m h =
      let p : sh.docs - from ≡ (d - from) + (sh.docs - d) = omega arith in
      let q : from + (d - from) ≡ d = omega arith in
      ap (λ k. expected k from seen) p
      ∙ expected-skip (d - from) (sh.docs - d) from seen (λ x b c. h x b (omega arith))
      ∙ ap (λ k. expected (sh.docs - d) k seen) q
