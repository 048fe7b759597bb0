-- ===== src/MatchTree/Leaf.antt =====
-- The leaves of a match tree (index/matchtree.go, and `noMatchTree` of index/matchiter.go) and
-- their `matches`.
use zoekt.Prelude.{
  ℕ, suc, ◌+◌, ◌-◌, ◌%◌, ◌^◌, ltb, ◌==◌, ◌&&◌, ◌||◌, if◌then◌else◌, Bool, true, false,
}
use zoekt.Prelude.{List, [], ◌∷◌, length, map, get_elem?, none, some}
use Prim.Native.Nat.{bit_and}
use zoekt.Outcome.{Outcome, ok, panic, ◌>>=◌}
use zoekt.MatchTree.Content.{
  contents, Libraries, ContentProvider, CandidateMatch, match_content, found_at, word_loop,
}

-- `matchesRequiresHigherCost`, `matchesFound` and `matchesNone`.
pub data MatchesState : Type 0 where
  requires_higher_cost found none_found : MatchesState

abbrev pub matches_state_pred : Bool → MatchesState
matches_state_pred true = found
matches_state_pred false = none_found

abbrev pub non_empty : List CandidateMatch → Bool
non_empty [] = false
non_empty (m ∷ ms) = true

abbrev pub matches_state_for_slice : List CandidateMatch → MatchesState
matches_state_for_slice v = matches_state_pred (non_empty v)

-- `costContent` and `costRegexp`; `costConst` is 0.
abbrev pub cost_memory : ℕ
cost_memory = 1

abbrev pub cost_content : ℕ
cost_content = 2

abbrev pub cost_regexp : ℕ
cost_regexp = 3

-- The leaves with what they do not change: `noMatchTree`, `bruteForceMatchTree`, `docMatchTree`,
-- `branchQueryMatchTree`, `regexpMatchTree`, `wordMatchTree` and `substrMatchTree`.
pub data Leaf : Type 0 where
  no_match : Leaf
  brute_force : Leaf
  doc : (num_docs : ℕ) (predicate : ℕ → Bool) → Leaf
  branch : (file_masks masks repos : List ℕ) → Leaf
  regexp : (re : ℕ) (file_name : Bool) → Leaf
  word : (text : List ℕ) (file_name : Bool) → Leaf
  substr : (file_name : Bool) → Leaf

-- What a leaf changes: the document that it was prepared for, `reEvaluated`, `evaluated` or
-- `contEvaluated`, and `found` or `current`.
pub record LeafState : Type 0 where
  pub first_done : Bool
  pub doc_id : ℕ
  pub evaluated : Bool
  pub candidates : List CandidateMatch

-- The document behind the one that was prepared, with which `nextDoc` begins.
abbrev pub start_doc : LeafState → ℕ
start_doc s = if s.first_done then (s.doc_id + 1) % 2 ^ 32 else 0

abbrev pub index : List ℕ → ℕ → Outcome ℕ
index xs i = elim (get_elem? xs i) [ some x ↦ ok x | none ↦ panic ]

-- `branchMask` at a document.
unfoldable pub branch_mask : List ℕ → List ℕ → List ℕ → ℕ → Outcome ℕ
branch_mask file_masks masks repos doc_id = do
  file_mask ← index file_masks doc_id
  repo ← index repos doc_id
  mask ← index masks repo
  ok (bit_and file_mask mask)

abbrev pub evaluate : LeafState → List CandidateMatch → MatchesState × LeafState
evaluate s ms = (matches_state_for_slice ms, record s { evaluated = true; candidates = ms })

module _ (e : Libraries) (cp : ContentProvider) where
  -- `byteOffset`, found when it is wanted first.
  abbrev pub located : CandidateMatch → CandidateMatch
  located m =
      if m.byte_offset == 0 && ltb 0 m.rune_offset
      then record m { byte_offset = cp.find_offset m.file_name m.rune_offset }
      else m

  -- The loop of `substrMatchTree.matches`.
  unfoldable pub prune : List CandidateMatch → Outcome (List CandidateMatch)
  unfolding match_content
  prune [] = ok []
  prune (m ∷ ms) = do
    (hit, m') ← match_content e (located m) (cp.content_of m.file_name)
    pruned ← prune ms
    ok (if hit then m' ∷ pruned else pruned)

  -- The regular expression's matches as candidates.
  abbrev pub regexp_found : ℕ → Bool → List CandidateMatch
  regexp_found re file_name =
      map (λ (idx : ℕ × ℕ). found_at idx.0 (idx.1 - idx.0) file_name)
        (e.find_all_index re (contents (cp.content_of file_name)))

  unfoldable pub word_found : List ℕ → Bool → Outcome (List CandidateMatch)
  unfolding word_loop
  word_found text file_name =
      let content = contents (cp.content_of file_name) in
      word_loop (suc (length content)) text content file_name 0

  -- What the leaf answers at a cost, and its state thereafter.
  unfoldable pub leaf_matches : ℕ → Leaf → LeafState → Outcome (MatchesState × LeafState)
  unfolding branch_mask prune word_found
  leaf_matches cost no_match s = ok (none_found, s)
  leaf_matches cost brute_force s = ok (found, s)
  leaf_matches cost (doc num_docs predicate) s = ok (matches_state_pred (predicate cp.idx), s)
  leaf_matches cost (branch file_masks masks repos) s = do
    mask ← branch_mask file_masks masks repos s.doc_id
    ok (matches_state_pred (ltb 0 mask), s)
  leaf_matches cost (regexp re file_name) s =
      if s.evaluated
      then ok (matches_state_for_slice s.candidates, s)
      else if ltb cost cost_regexp
      then ok (requires_higher_cost, s)
      else ok (evaluate s (regexp_found re file_name))
  leaf_matches cost (word text file_name) s =
      if s.evaluated
      then ok (matches_state_for_slice s.candidates, s)
      else if ltb cost cost_regexp
      then ok (requires_higher_cost, s)
      else (word_found text file_name >>= λ ms. ok (evaluate s ms))
  leaf_matches cost (substr file_name) s =
      if s.evaluated
      then ok (matches_state_for_slice s.candidates, s)
      else if non_empty s.candidates
      then (if (file_name && ltb cost cost_memory)
            || ((if file_name then false else true) && ltb cost cost_content)
          then ok (requires_higher_cost, s)
          else (prune s.candidates >>= λ ms. ok (evaluate s ms)))
      else ok (none_found, s)
