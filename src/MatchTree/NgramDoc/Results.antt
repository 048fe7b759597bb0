-- ===== src/MatchTree/NgramDoc/Results.antt =====
-- `ngramIterationResults` around a match iterator (index/matchiter.go).
use zoekt.Prelude.{ℕ, List, map, ◌≡◌, sym, ap, ◌∙◌}
use zoekt.Outcome.{ok}
use zoekt.MatchTree.Content.{CandidateMatch}
use zoekt.MatchTree.Docs.{MatchIterator}
use zoekt.MatchTree.Facts.{IsMatchIterator}
use zoekt.MatchTree.NgramDoc.{NgramIterationResults, with_pattern, ngram_iteration_results}

-- The iterator inside stands for the candidates without the pattern.
abbrev pub Wraps :
    {I : Type 0}
    → NgramIterationResults
    → ((ℕ → List CandidateMatch) → ℕ → I → Type 0)
    → (ℕ → List CandidateMatch)
    → ℕ
    → I
    → Type 0
Wraps r Denotes cs from i =
    (bare : ℕ → List CandidateMatch) × Denotes bare from i
    × ((d : ℕ) → cs d ≡ map (with_pattern r) (bare d))

-- The candidates of `ngramIterationResults` are those of the iterator inside, with the pattern, and
-- the documents that it skips have none.
pub ngram_iteration_results-IsMatchIterator :
    {I : Type 0} {Denotes : (ℕ → List CandidateMatch) → ℕ → I → Type 0} (r : NgramIterationResults)
    (it : MatchIterator I) (docs : ℕ)
    → IsMatchIterator it docs Denotes
    → IsMatchIterator (ngram_iteration_results r it) docs (Wraps r Denotes)
ngram_iteration_results-IsMatchIterator r it docs law = record {
  next_doc_lem = λ cs from i (bare, den, same).
      let (m, i', p, den', skips) = law.next_doc_lem bare from i den in
      (m, i', p, (bare, den', same), λ d a b c. same d ∙ ap (map (with_pattern r)) (skips d a b c));
  candidates_lem = λ cs from d i (bare, den, same) a b.
      let (i1, i2, p, q, den') = law.candidates_lem bare from d i den a b in
      (i1, i2, p, rw q (ap (λ x. ok (x, i2)) (sym (same d))), (bare, den', same));
}
