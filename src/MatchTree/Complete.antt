-- ===== src/MatchTree/Complete.antt =====
-- The search of a shard (`indexData.Search` of index/eval.go) where nothing ends it early.
use zoekt.Prelude.{
  ℕ, zero, suc, ◌+◌, ◌^◌, ◌≤◌, ◌<◌, ltb, leb, ◌==◌, Bool, true, false, ◌&&◌, Bool-cases, ◌⊎◌, inl,
  inr, ==_iff,
}
use zoekt.Prelude.{List, [], ◌∷◌, some, ◌≡◌, ◌≢◌, refl, sym, ap₂, subst, arith, All}
use native.Mathlib.Decide.{dec_lt}
use zoekt.Outcome.{ok}
use zoekt.MatchTree.Content.{Libraries, ContentProvider, CandidateMatch}
use zoekt.MatchTree.Leaf.{Leaf, no_match}
use zoekt.MatchTree.Tree.{MatchTree}
use zoekt.MatchTree.Value.{value, IsLabelled}
use zoekt.MatchTree.Docs.{MatchIterator, Leaves}
use zoekt.MatchTree.Facts.{IsMatchIterator}
use zoekt.MatchTree.Skip.{IsNamed, AreTrue, IsReady}
use zoekt.MatchTree.Prepare.{occurs, IsLinear}
use zoekt.MatchTree.Search.{
  IndexData, Context, Limits, Answers, same_name, tombstoned, has_access, hidden, search,
}
use zoekt.MatchTree.Expected.{expected, passes, full, ends, expected_fails, expected_kept}
use zoekt.MatchTree.Counts.{IsGrouped}
use zoekt.MatchTree.Found.{search-expected}
use zoekt.MatchTree.Visible.{IsVisible}

abbrev pub Has : ℕ → List ℕ → Type 0
Has d [] = ⊥
Has d (x ∷ xs) = (x ≡ d) ⊎ Has d xs

same_name-eq : (a b : List ℕ) → same_name a b ≡ true → a ≡ b
unfolding same_name
same_name-eq [] [] h = refl
same_name-eq [] (y ∷ b) h = cc
same_name-eq (x ∷ a) [] h = cc
same_name-eq (x ∷ a) (y ∷ b) h = elim (Bool-cases (x == y)) [
  | inl e ↦
      ap₂ ◌∷◌ ((==_iff x y).0 e) (same_name-eq a b (subst (λ t. (t && same_name a b) ≡ true) e h))
  | inr e ↦
      let f : (false && same_name a b) ≡ true = subst (λ t. (t && same_name a b) ≡ true) e h in cc
]

none-tombstoned :
    (name : List ℕ) (ks : List (List ℕ)) → All (λ k. k ≢ name) ks → tombstoned name ks ≡ false
unfolding tombstoned
none-tombstoned name [] h = refl
none-tombstoned name (k ∷ ks) h = elim (Bool-cases (same_name name k)) [
  | inl e ↦ absurd (h.0 (sym (same_name-eq name k e)))
  | inr e ↦ rw e (none-tombstoned name ks h.1)
]

tenant-has_access :
    (ctx : Context) (id : ℕ)
    → (ctx.enforce_tenant ≡ true → ctx.system_tenant ≡ false → ctx.tenant ≡ some id)
    → has_access ctx id ≡ true
unfolding has_access
tenant-has_access ctx id h = elim (Bool-cases ctx.enforce_tenant) [
  | inr e ↦ ground arith
  | inl e ↦ elim (Bool-cases ctx.system_tenant) [
    | inl s ↦ ground arith
    | inr s ↦ let t = h e s in ground arith
  ]
]

IsVisible-hidden :
    (sh : IndexData) (ctx : Context) (d : ℕ) → IsVisible sh ctx d → hidden sh ctx d ≡ false
unfolding hidden
IsVisible-hidden sh ctx d v =
    rw (v.alive, tenant-has_access ctx _ v.allowed, none-tombstoned (sh.file_name d) _ v.kept) refl

-- No limit of matches, no end from others, and room for each file.
pub record IsUnbounded (o : Limits) (a : Answers) : Type 0 where
  pub no_shard_limit : o.shard_max_match_count ≡ 0
  pub no_repo_limit : o.shard_repo_max_match_count ≡ 0
  pub not_canceled : (d : ℕ) → a.canceled d ≡ false
  pub not_exhausted : (d : ℕ) → a.exhausted d ≡ false
  pub granted : (d : ℕ) → a.reserve d ≡ true

no_limit : (m k : ℕ) → m ≡ 0 → (ltb 0 m && leb m k) ≡ false
no_limit m k h = ground arith

no_limit_behind : (m k : ℕ) → m ≡ 0 → (leb m k && ltb 0 m) ≡ false
no_limit_behind m k h = ground arith

module _ (sh : IndexData) (ctx : Context) (o : Limits) (a : Answers) (value_at : ℕ → Bool)
    (free : IsUnbounded o a) where
  never_ends : (seen : List ℕ) (d : ℕ) → ends sh ctx o a value_at seen d ≡ false
  never_ends seen d =
      rw (free.not_canceled d, free.not_exhausted d) (no_limit_behind _ _ free.no_shard_limit)

  never_full : (seen : List ℕ) (d : ℕ) → full sh ctx o a value_at seen d ≡ false
  never_full seen d = no_limit _ _ free.no_repo_limit

  expected-Has :
      (left from d : ℕ) (seen : List ℕ)
      → from ≤ d
      → d < from + left
      → hidden sh ctx d ≡ false
      → value_at d ≡ true
      → Has d (expected sh ctx o a value_at left from seen)
  expected-Has zero from d seen l m h v = absurd (omega arith)
  expected-Has (suc left) from d seen l m h v = elim (dec_lt from d) [
    | yes p ↦ elim (Bool-cases (passes sh ctx o a value_at seen from)) [
      | inl q ↦
          rw
            (expected_kept sh ctx o a value_at left from seen q (never_ends seen from)
              (free.granted from))
            (inr (expected-Has left (suc from) d (from ∷ seen) (omega arith) (omega arith) h v))
      | inr q ↦
          rw (expected_fails sh ctx o a value_at left from seen q)
            (expected-Has left (suc from) d seen (omega arith) (omega arith) h v)
    ]
    | no p ↦
        let e : d ≡ from = omega arith in
        let q : passes sh ctx o a value_at seen from ≡ true =
          subst (λ x. passes sh ctx o a value_at seen x ≡ true) e
            (rw (h, never_full seen d, v) refl) in
        rw
          (expected_kept sh ctx o a value_at left from seen q (never_ends seen from)
            (free.granted from))
          (inl (sym e))
  ]

-- Where there are no limits of matches, nothing is cancelled or exhausted and the budget has room
-- for each file, the search of a shard returns, and finds every document that is visible, being of
-- no tombstoned repository, allowed for the tenant and without a tombstone for its name, and of
-- which the match tree says yes by its Boolean value over what the leaves say. The leaves say what
-- their texts, predicates and masks decide, no leaf occurs twice, nodes at one address are one
-- node, the iterators keep their law and stand at the first document, as do the leaves, and the
-- documents of a repository stand together, in the order of the repositories.
pub search-Has :
    {I : Type 0} {Denotes : (ℕ → List CandidateMatch) → ℕ → I → Type 0} (it : MatchIterator I)
    (sh : IndexData) (law : IsMatchIterator it sh.docs Denotes) (e : Libraries)
    (cp : ℕ → ContentProvider) (leaf_of : ℕ → Leaf) (says : ℕ → ℕ → Bool)
    (cands : ℕ → ℕ → List CandidateMatch) (ctx : Context) (o : Limits) (a : Answers)
    (value_of : ℕ → ℕ → Bool) (t : MatchTree) (ls : Leaves I)
    → AreTrue it sh.docs law e cp leaf_of says cands
    → ((d : ℕ) → (cp d).idx ≡ d)
    → sh.docs < 2 ^ 32
    → IsGrouped sh
    → IsUnbounded o a
    → IsNamed leaf_of t
    → IsLinear t
    → ((d : ℕ) → d < sh.docs → IsLabelled leaf_of (says d) (value_of d) t)
    → ((n : ℕ) → occurs n t ≡ false → leaf_of n ≡ no_match)
    → IsReady it sh.docs law e cp leaf_of says cands 0 ls
    → (files : List ℕ) × (search it e cp sh ctx o a t ls ≡ ok files)
      × ((d : ℕ) → IsVisible sh ctx d → value (says d) t ≡ true → Has d files)
search-Has it sh law e cp leaf_of says cands ctx o a value_of t ls truths i few grouped free named
      linear labelled unused r =
    (
      expected sh ctx o a (λ d. value (says d) t) sh.docs 0 [],
      search-expected it sh law e cp leaf_of says cands ctx o a value_of t ls truths i few grouped
          (record {
            canceled = λ x y l h. let n = free.not_canceled x in cc;
            exhausted = λ x y l h. let n = free.not_exhausted x in cc;
          })
          named linear labelled unused r,
      λ d v yes'.
          expected-Has sh ctx o a (λ x. value (says x) t) free sh.docs 0 d [] (omega arith)
            (let inside = v.inside in omega arith) (IsVisible-hidden sh ctx d v) yes',
    )
