-- ===== src/MatchTree/NgramDoc/Examples.antt =====
-- Runs of the document iterator, and the theorems at concrete inputs.
use zoekt.Prelude.{ℕ, zero, suc, ◌^◌, ◌<◌, ◌+◌, List, [], ◌∷◌, ◌≡◌, arith}
use zoekt.Outcome.{ok}
use zoekt.Hits.InMemory.{Holds, in_memory, in_memory-IsLawful}
use zoekt.MatchTree.Facts.{IsMatchIterator}
use zoekt.MatchTree.NgramDoc.{end_at, next_file_index, ngram_doc_iterator}
use zoekt.MatchTree.NgramDoc.FileIndex.{IsAscending, IsFirst, next_file_index_lem}
use zoekt.MatchTree.NgramDoc.Lawful.{IsLayout, Stands, ngram_doc_iterator-IsMatchIterator}

abbrev three_docs : List ℕ
three_docs = 10 ∷ 25 ∷ 40 ∷ []

ascending : IsAscending three_docs
ascending zero zero a b = omega arith
ascending zero (suc zero) a b = omega arith
ascending zero (suc (suc zero)) a b = omega arith
ascending (suc zero) (suc zero) a b = omega arith
ascending (suc zero) (suc (suc zero)) a b = omega arith
ascending (suc (suc zero)) (suc (suc zero)) a b = omega arith
ascending (suc i) zero a b = absurd (omega arith)
ascending (suc (suc i)) (suc zero) a b = absurd (omega arith)
ascending (suc (suc (suc i))) (suc (suc j)) a b = absurd (omega arith)
ascending i (suc (suc (suc j))) a b = absurd (omega arith)

room : (d : ℕ) → d < 3 → (2 + end_at three_docs d < 2 ^ 32) × (5 + end_at three_docs d < 2 ^ 32)
room zero h = (omega arith, omega arith)
room (suc zero) h = (omega arith, omega arith)
room (suc (suc zero)) h = (omega arith, omega arith)
room (suc (suc (suc d))) h = absurd (omega arith)

layout : IsLayout 2 5 three_docs
layout = record { ascending = ascending; few = omega arith; room = room; padded = omega arith }

next_file_index_lem_example :
    (j : ℕ) × (next_file_index 30 0 three_docs ≡ ok j) × IsFirst three_docs 30 0 j
next_file_index_lem_example = next_file_index_lem 30 0 three_docs ascending (omega arith)

ngram_doc_iterator-IsMatchIterator_example :
    IsMatchIterator (ngram_doc_iterator in_memory) 3 (Stands Holds 2 5 three_docs)
ngram_doc_iterator-IsMatchIterator_example =
    ngram_doc_iterator-IsMatchIterator in_memory in_memory-IsLawful 2 5 three_docs layout
