-- ===== src/MatchTree/Examples.antt =====
-- Runs of a match tree, and the theorems at concrete inputs.
use zoekt.Prelude.{
  ℕ, zero, suc, ◌<◌, ◌≤◌, ltb, ◌==◌, if◌then◌else◌, All, Bool, true, false, List, [], ◌∷◌, length,
  some, ◌≡◌, refl, arith, inr,
}
use zoekt.Outcome.{ok}
use zoekt.MatchTree.Content.{Slice, Libraries, ContentProvider, CandidateMatch}
use zoekt.MatchTree.Leaf.{Leaf, no_match, doc, regexp, LeafState, start_doc}
use zoekt.MatchTree.Tree.{MatchTree, and, not, leaf, nil, cons, Evaluation, decide}
use zoekt.MatchTree.Value.{value, negate, IsLabelled}
use zoekt.MatchTree.Verdict.{Verdict}
use zoekt.MatchTree.Decide.{decide-value}
use zoekt.MatchTree.Docs.{Leaves, next_doc, prepare}
use zoekt.MatchTree.Facts.{IsSized, Says}
use zoekt.MatchTree.Skip.{AreTrue, IsReady, next_doc-skips}
use zoekt.MatchTree.Prepare.{occurs, IsLinear}
use zoekt.MatchTree.Search.{
  Repository, IndexData, Context, Limits, Answers, hidden, over_limit, enter_repo, stops,
  count_matches, search,
}
use zoekt.MatchTree.Expected.{expected}
use zoekt.MatchTree.Counts.{IsGrouped}
use zoekt.MatchTree.Found.{search-expected}
use zoekt.MatchTree.Visible.{IsVisible, search-IsVisible}
use zoekt.MatchTree.Complete.{Has, search-Has}
use zoekt.MatchTree.NoMatch.{no_match_tree, no_match_tree-IsMatchIterator}

-- Each expression matches the first byte of a text of three bytes or more.
abbrev libraries : Libraries
libraries = record {
  decode_rune = λ bs. (0, 1);
  to_lower = λ r. r;
  find_all_index = λ re text. if ltb 2 (length text) then (0, 1) ∷ [] else [];
}

-- The document 0 has the content "abc", each other one "ab".
abbrev text_of : ℕ → Slice
text_of zero = record { bytes = 97 ∷ 98 ∷ 99 ∷ []; len = 3 }
text_of (suc d) = record { bytes = 97 ∷ 98 ∷ []; len = 2 }

abbrev provider : ℕ → ContentProvider
provider d = record { idx = d; content_of = λ f. text_of d; find_offset = λ f r. r }

-- Documents behind the first, without a match of the expression.
abbrev tree : MatchTree
tree = and 0 (cons (leaf 1 (doc 6 (λ d. ltb 0 d))) (cons (not 2 (leaf 3 (regexp 0 false))) nil))

abbrev leaf_of : ℕ → Leaf
leaf_of (suc zero) = doc 6 (λ d. ltb 0 d)
leaf_of (suc (suc (suc zero))) = regexp 0 false
leaf_of zero = no_match
leaf_of (suc (suc zero)) = no_match
leaf_of (suc (suc (suc (suc n)))) = no_match

abbrev says : ℕ → ℕ → Bool
says d (suc zero) = ltb 0 d
says zero (suc (suc (suc zero))) = true
says (suc d) (suc (suc (suc zero))) = false
says d zero = false
says d (suc (suc zero)) = false
says d (suc (suc (suc (suc n)))) = false

abbrev value_of : ℕ → ℕ → Bool
value_of d zero = value (says d) tree
value_of d (suc (suc zero)) = negate (says d 3)
value_of d (suc zero) = says d 1
value_of d (suc (suc (suc n))) = says d (suc (suc (suc n)))

abbrev no_cands : ℕ → ℕ → List CandidateMatch
no_cands n d = []

abbrev at_start : Leaves (Unit {0})
at_start = record {
  states = λ n. record { first_done = false; doc_id = 0; evaluated = false; candidates = [] };
  iters = λ n. tt;
}

sized : (n : ℕ) → IsSized 6 (leaf_of n)
sized (suc zero) = refl
sized (suc (suc (suc zero))) = tt
sized zero = tt
sized (suc (suc zero)) = tt
sized (suc (suc (suc (suc n)))) = tt

says_right : (n d : ℕ) → d < 6 → Says libraries provider 6 (leaf_of n) d (no_cands n d) (says d n)
says_right (suc zero) d h = refl
says_right (suc (suc (suc zero))) zero h = refl
says_right (suc (suc (suc zero))) (suc d) h = refl
says_right zero d h = refl
says_right (suc (suc zero)) d h = refl
says_right (suc (suc (suc (suc n)))) d h = refl

truths :
    AreTrue no_match_tree 6
      (no_match_tree-IsMatchIterator 6)
      libraries
      provider
      leaf_of
      says
      no_cands
truths = record { sized = sized; says_right = says_right }

labelled : (d : ℕ) → d < 6 → IsLabelled leaf_of (says d) (value_of d) tree
labelled d h = (refl, ((refl, refl), ((refl, (refl, refl)), tt)))

ready :
    IsReady no_match_tree 6
      (no_match_tree-IsMatchIterator 6)
      libraries
      provider
      leaf_of
      says
      no_cands
      0
      at_start
ready (suc zero) = (refl, tt)
ready (suc (suc (suc zero))) = (refl, tt)
ready zero = (tt, tt)
ready (suc (suc zero)) = (tt, tt)
ready (suc (suc (suc (suc n)))) = (tt, tt)

unused : (n : ℕ) → occurs n tree ≡ false → leaf_of n ≡ no_match
unused (suc zero) h = cc
unused (suc (suc (suc zero))) h = cc
unused zero h = refl
unused (suc (suc zero)) h = refl
unused (suc (suc (suc (suc n)))) h = refl

linear : IsLinear tree
linear = ((λ n h. ground arith), tt, ((λ n h. refl), tt, tt))

-- Three repositories: that of the documents 0 and 1, that of 2, which another tenant owns, and that
-- of the others, where the file of 3 has a tombstone.
abbrev repo_of : ℕ → ℕ
repo_of zero = 0
repo_of (suc zero) = 0
repo_of (suc (suc zero)) = 1
repo_of (suc (suc (suc d))) = 2

abbrev repository : ℕ → Repository
repository r = record {
  tombstone = false;
  tenant_id = if r == 1 then 8 else 7;
  file_tombstones = if r == 2 then (3 ∷ []) ∷ [] else [];
}

abbrev shard : IndexData
shard = record { docs = 6; repos = repo_of; repo_meta_data = repository; file_name = λ d. d ∷ [] }

abbrev tenant_seven : Context
tenant_seven = record { enforce_tenant = true; system_tenant = false; tenant = some 7 }

-- One match for each repository, and five for the shard.
abbrev limits : Limits
limits = record { shard_max_match_count = 5; shard_repo_max_match_count = 1 }

abbrev one_match_each : Answers
one_match_each = record {
  canceled = λ d. false;
  exhausted = λ d. false;
  match_count = λ d. 1;
  reserve = λ d. true;
}

grouped : IsGrouped shard
grouped zero zero h l = omega arith
grouped zero (suc zero) h l = omega arith
grouped zero (suc (suc zero)) h l = omega arith
grouped zero (suc (suc (suc y))) h l = omega arith
grouped (suc zero) zero h l = absurd (omega arith)
grouped (suc zero) (suc zero) h l = omega arith
grouped (suc zero) (suc (suc zero)) h l = omega arith
grouped (suc zero) (suc (suc (suc y))) h l = omega arith
grouped (suc (suc zero)) zero h l = absurd (omega arith)
grouped (suc (suc zero)) (suc zero) h l = absurd (omega arith)
grouped (suc (suc zero)) (suc (suc zero)) h l = omega arith
grouped (suc (suc zero)) (suc (suc (suc y))) h l = omega arith
grouped (suc (suc (suc x))) zero h l = absurd (omega arith)
grouped (suc (suc (suc x))) (suc zero) h l = absurd (omega arith)
grouped (suc (suc (suc x))) (suc (suc zero)) h l = absurd (omega arith)
grouped (suc (suc (suc x))) (suc (suc (suc y))) h l = omega arith

search-shard :
    search no_match_tree libraries provider shard tenant_seven limits one_match_each tree at_start
    ≡ ok (1 ∷ 4 ∷ [])
unfolding search next_doc prepare decide hidden over_limit enter_repo stops count_matches
search-shard = refl

-- The document 2 is of the other tenant, 3 has a tombstone, and 5 is over the limit of its
-- repository.
search-expected_example :
    search no_match_tree libraries provider shard tenant_seven limits one_match_each tree at_start
    ≡ ok (1 ∷ 4 ∷ [])
unfolding expected hidden
search-expected_example =
    search-expected no_match_tree shard (no_match_tree-IsMatchIterator 6) libraries provider leaf_of
      says no_cands tenant_seven limits one_match_each value_of tree at_start truths (λ d. refl)
      (omega arith) grouped (record { canceled = λ x y l h. cc; exhausted = λ x y l h. cc })
      (refl, (refl, tt)) linear labelled unused ready

search-IsVisible_example : All (IsVisible shard tenant_seven) (1 ∷ 4 ∷ [])
search-IsVisible_example =
    search-IsVisible no_match_tree libraries provider shard tenant_seven limits one_match_each tree
      at_start (1 ∷ 4 ∷ []) search-shard

abbrev unlimited : Limits
unlimited = record { shard_max_match_count = 0; shard_repo_max_match_count = 0 }

search-Has_example :
    (files : List ℕ) × (search no_match_tree libraries provider shard tenant_seven unlimited
        one_match_each tree at_start
      ≡ ok files)
    × ((d : ℕ) → IsVisible shard tenant_seven d → value (says d) tree ≡ true → Has d files)
search-Has_example =
    search-Has no_match_tree shard (no_match_tree-IsMatchIterator 6) libraries provider leaf_of says
      no_cands tenant_seven unlimited one_match_each value_of tree at_start truths (λ d. refl)
      (omega arith) grouped
      (record {
        no_shard_limit = refl;
        no_repo_limit = refl;
        not_canceled = λ d. refl;
        not_exhausted = λ d. refl;
        granted = λ d. refl;
      })
      (refl, (refl, tt)) linear labelled unused ready

next_doc-skips_example :
    (m : ℕ) × (ls' : Leaves (Unit {0})) × (next_doc no_match_tree tree at_start ≡ ok (m, ls'))
    × IsReady no_match_tree 6
        (no_match_tree-IsMatchIterator 6)
        libraries
        provider
        leaf_of
        says
        no_cands
        0
        ls'
    × ((d : ℕ) → 0 ≤ d → d < m → d < 6 → value (says d) tree ≡ false)
next_doc-skips_example =
    next_doc-skips no_match_tree 6 (no_match_tree-IsMatchIterator 6) libraries provider leaf_of says
      no_cands tree 0 at_start truths (refl, (refl, tt)) ready

-- The leaves at the document 1, prepared.
abbrev prepared : ℕ → LeafState
prepared n = record { first_done = true; doc_id = 1; evaluated = false; candidates = [] }

verdict : (n : ℕ) → Verdict libraries (provider 1) (leaf_of n) (prepared n) (says 1 n)
verdict (suc zero) = refl
verdict (suc (suc (suc zero))) = inr (refl, [], refl, refl)
verdict zero = refl
verdict (suc (suc zero)) = refl
verdict (suc (suc (suc (suc n)))) = refl

decide-value_example :
    (s : Evaluation) × (decide libraries (provider 1) tree prepared ≡ ok (true, s))
    × ((n : ℕ) (b : Bool) → s.known n ≡ some b → b ≡ value_of 1 n)
    × ((n : ℕ) → start_doc (s.leaves n) ≡ start_doc (prepared n))
decide-value_example =
    decide-value libraries (provider 1) leaf_of (says 1) (value_of 1) tree prepared
      (labelled 1 (omega arith)) verdict
