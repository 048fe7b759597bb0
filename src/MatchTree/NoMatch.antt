-- ===== src/MatchTree/NoMatch.antt =====
-- `noMatchTree` of index/matchiter.go as an iterator: it has no candidates in any document.
use zoekt.Prelude.{ℕ, ◌≡◌, refl, sym, ap, List, []}
use zoekt.Outcome.{ok}
use zoekt.Hits.Lists.{max_u32}
use zoekt.MatchTree.Content.{CandidateMatch}
use zoekt.MatchTree.Docs.{MatchIterator}
use zoekt.MatchTree.Facts.{IsMatchIterator}

abbrev pub no_match_tree : MatchIterator (Unit {0})
no_match_tree = record {
  next_doc_of = λ i. ok (max_u32, i);
  prepare_for = λ d i. ok i;
  candidates_of = λ i. ok ([], i);
}

abbrev pub Nothing : (ℕ → List CandidateMatch) → ℕ → Unit {0} → Type 0
Nothing cs from i = (d : ℕ) → cs d ≡ []

pub no_match_tree-IsMatchIterator : (docs : ℕ) → IsMatchIterator no_match_tree docs Nothing
no_match_tree-IsMatchIterator docs = record {
  next_doc_lem = λ cs from i h. (max_u32, i, refl, h, λ d a b c. h d);
  candidates_lem = λ cs from d i h a b. (i, i, refl, ap (λ x. ok (x, i)) (sym (h d)), h);
}
