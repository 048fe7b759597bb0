-- ===== src/MatchTree/Docs.antt =====
-- The methods `nextDoc` and `prepare` of match trees (index/matchtree.go), over the iterators that
-- give the candidates of substring leaves (`matchIterator` of index/matchiter.go).
use zoekt.Prelude.{ℕ, zero, suc, ◌-◌, ltb, if◌then◌else◌, Bool, true, false, List, [], length}
use zoekt.Outcome.{Outcome, ok, ◌>>=◌}
use zoekt.Hits.Lists.{max_u32}
use zoekt.MatchTree.Content.{CandidateMatch}
use zoekt.MatchTree.Leaf.{
  Leaf, no_match, brute_force, doc, branch, regexp, word, substr, LeafState, branch_mask, start_doc,
}
use zoekt.MatchTree.Tree.{
  MatchTree, and, or, not, file_name, boost, no_visit, leaf, Children, nil, cons, update,
}

-- `matchIterator`. A method hands the changed iterator back.
pub record MatchIterator (I : Type 0) : Type 0 where
  pub next_doc_of : I → Outcome (ℕ × I)
  pub prepare_for : ℕ → I → Outcome I
  pub candidates_of : I → Outcome (List CandidateMatch × I)

-- The leaves of a tree and, for substring leaves, their iterators, by address.
pub record Leaves (I : Type 0) : Type 0 where
  pub states : ℕ → LeafState
  pub iters : ℕ → I

-- The loop of `docMatchTree.nextDoc` at the document `i`, with `left` to go.
unfoldable pub doc_loop : ℕ → (ℕ → Bool) → ℕ → ℕ
doc_loop zero predicate i = max_u32
doc_loop (suc left) predicate i =
    let more = doc_loop left predicate (suc i) in if predicate i then i else more

-- The loop of `branchQueryMatchTree.nextDoc`.
unfoldable pub branch_loop : ℕ → List ℕ → List ℕ → List ℕ → ℕ → Outcome ℕ
unfolding branch_mask
branch_loop zero file_masks masks repos i = ok max_u32
branch_loop (suc left) file_masks masks repos i = do
  mask ← branch_mask file_masks masks repos i
  let more = branch_loop left file_masks masks repos (suc i)
  if ltb 0 mask then ok i else more

unfoldable pub leaf_next_doc : Leaf → LeafState → Outcome ℕ
unfolding doc_loop branch_loop
leaf_next_doc no_match s = ok max_u32
leaf_next_doc brute_force s = ok (start_doc s)
leaf_next_doc (doc num_docs predicate) s =
    ok (doc_loop (num_docs - start_doc s) predicate (start_doc s))
leaf_next_doc (branch file_masks masks repos) s =
    branch_loop (length file_masks - start_doc s) file_masks masks repos (start_doc s)
leaf_next_doc (regexp re f) s = ok (start_doc s)
leaf_next_doc (word text f) s = ok (start_doc s)
leaf_next_doc (substr f) s = ok max_u32

-- What `prepare` does to the state of a leaf; `cs` are the candidates of a substring leaf.
unfoldable pub leaf_prepare : ℕ → Leaf → List CandidateMatch → LeafState → LeafState
leaf_prepare d no_match cs s = s
leaf_prepare d brute_force cs s = record s { doc_id = d; first_done = true }
leaf_prepare d (doc num_docs predicate) cs s = record s { doc_id = d; first_done = true }
leaf_prepare d (branch file_masks masks repos) cs s = record s { doc_id = d; first_done = true }
leaf_prepare d (regexp re f) cs s = record {
  doc_id = d;
  first_done = true;
  evaluated = false;
  candidates = [];
}
leaf_prepare d (word text f) cs s = record {
  doc_id = d;
  first_done = true;
  evaluated = false;
  candidates = [];
}
leaf_prepare d (substr f) cs s = record s { evaluated = false; candidates = cs }

abbrev pub greater : ℕ → ℕ → ℕ
greater m n = if ltb n m then m else n

abbrev pub lesser : ℕ → ℕ → ℕ
lesser m n = if ltb m n then m else n

module _ {I : Type 0} (it : MatchIterator I) where
  abbrev plain_next : ℕ → Leaf → Leaves I → Outcome (ℕ × Leaves I)
  plain_next n l ls = leaf_next_doc l (ls.states n) >>= λ m. ok (m, ls)

  abbrev plain_prepare : ℕ → ℕ → Leaf → Leaves I → Outcome (Leaves I)
  plain_prepare d n l ls =
      ok (record ls { states = update ls.states n (leaf_prepare d l [] (ls.states n)) })

  -- `nextDoc` of a leaf at the address `n`; that of a substring leaf is its iterator's.
  unfoldable pub next_doc_at : ℕ → Leaf → Leaves I → Outcome (ℕ × Leaves I)
  unfolding leaf_next_doc
  next_doc_at n (substr f) ls = do
    (m, i) ← it.next_doc_of (ls.iters n)
    ok (m, record ls { iters = update ls.iters n i })
  next_doc_at n no_match ls = plain_next n no_match ls
  next_doc_at n brute_force ls = plain_next n brute_force ls
  next_doc_at n (doc num_docs predicate) ls = plain_next n (doc num_docs predicate) ls
  next_doc_at n (branch file_masks masks repos) ls = plain_next n (branch file_masks masks repos) ls
  next_doc_at n (regexp re f) ls = plain_next n (regexp re f) ls
  next_doc_at n (word text f) ls = plain_next n (word text f) ls

  unfoldable pub prepare_at : ℕ → ℕ → Leaf → Leaves I → Outcome (Leaves I)
  unfolding leaf_prepare
  prepare_at d n (substr f) ls = do
    i ← it.prepare_for d (ls.iters n)
    (cs, i') ← it.candidates_of i
    ok (record {
      states = update ls.states n (leaf_prepare d (substr f) cs (ls.states n));
      iters = update ls.iters n i';
    })
  prepare_at d n no_match ls = plain_prepare d n no_match ls
  prepare_at d n brute_force ls = plain_prepare d n brute_force ls
  prepare_at d n (doc num_docs predicate) ls = plain_prepare d n (doc num_docs predicate) ls
  prepare_at d n (branch file_masks masks repos) ls =
      plain_prepare d n (branch file_masks masks repos) ls
  prepare_at d n (regexp re f) ls = plain_prepare d n (regexp re f) ls
  prepare_at d n (word text f) ls = plain_prepare d n (word text f) ls

  unfoldable mutual
    unfolding next_doc_at

    pub next_doc : MatchTree → Leaves I → Outcome (ℕ × Leaves I)
    next_doc (and n cs) ls = max_loop cs 0 ls
    next_doc (or n cs) ls = min_loop cs max_u32 ls
    next_doc (not n t) ls = ok (0, ls)
    next_doc (file_name n t) ls = next_doc t ls
    next_doc (boost n t) ls = next_doc t ls
    next_doc (no_visit n t) ls = next_doc t ls
    next_doc (leaf n l) ls = next_doc_at n l ls

    pub max_loop : Children → ℕ → Leaves I → Outcome (ℕ × Leaves I)
    max_loop nil best ls = ok (best, ls)
    max_loop (cons t ts) best ls = next_doc t ls >>= λ r. max_loop ts (greater r.0 best) r.1

    pub min_loop : Children → ℕ → Leaves I → Outcome (ℕ × Leaves I)
    min_loop nil best ls = ok (best, ls)
    min_loop (cons t ts) best ls = next_doc t ls >>= λ r. min_loop ts (lesser r.0 best) r.1

  unfoldable mutual
    unfolding prepare_at

    pub prepare : ℕ → MatchTree → Leaves I → Outcome (Leaves I)
    prepare d (and n cs) ls = prepare_all d cs ls
    prepare d (or n cs) ls = prepare_all d cs ls
    prepare d (not n t) ls = prepare d t ls
    prepare d (file_name n t) ls = prepare d t ls
    prepare d (boost n t) ls = prepare d t ls
    prepare d (no_visit n t) ls = prepare d t ls
    prepare d (leaf n l) ls = prepare_at d n l ls

    pub prepare_all : ℕ → Children → Leaves I → Outcome (Leaves I)
    prepare_all d nil ls = ok ls
    prepare_all d (cons t ts) ls = prepare d t ls >>= λ ls'. prepare_all d ts ls'
