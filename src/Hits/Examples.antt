-- ===== src/Hits/Examples.antt =====
-- Runs of the iterators, and the theorems at concrete inputs.
use zoekt.Prelude.{ℕ, List, [], ◌∷◌, ◌≡◌, refl, arith}
use zoekt.Outcome.{ok, ◌>>=◌}
use zoekt.Hits.{IsLawful}
use zoekt.Hits.InMemory.{InMemoryIterator, Holds, in_memory, in_memory-IsLawful}
use zoekt.Hits.Compressed.{CompressedPostingIterator, new_compressed_posting_iterator}
use zoekt.Hits.Compressed.Lawful.{Decodes, new-Denotes}
use zoekt.Hits.InMemory
use zoekt.Hits.Merging
use zoekt.Hits.Merging.{MergingIterator, merging, first_loop}
use zoekt.Hits.Merging.Lawful.{Merges, merging-IsLawful}
use zoekt.Hits.Distance.{distance}
use zoekt.Hits.Distance.Lawful.{Pair, distance-IsLawful}
use zoekt.Bits.Deltas.{from_deltas}
use zoekt.Bits.Uvarint.{uvarint}

-- 5, then 7 and 300 behind it.
blob_decoded : from_deltas (5 ∷ 7 ∷ 172 ∷ 2 ∷ []) ≡ ok (5 ∷ 12 ∷ 312 ∷ [])
unfolding from_deltas uvarint
blob_decoded = refl

new-Denotes_example :
    (i : CompressedPostingIterator) × (new_compressed_posting_iterator (5 ∷ 7 ∷ 172 ∷ 2 ∷ []) 0
      ≡ ok i)
    × Decodes i (5 ∷ 12 ∷ 312 ∷ [])
new-Denotes_example =
    new-Denotes 5 0 (7 ∷ 172 ∷ 2 ∷ []) (5 ∷ 12 ∷ 312 ∷ []) blob_decoded
      (omega arith, omega arith, (omega arith, omega arith, (omega arith, omega arith, tt)))

abbrev posted : List ℕ → InMemoryIterator
posted ps = record { postings = ps; what = 0 }

merged_first :
    (Merging.first in_memory
        (record { iters = posted (9 ∷ []) ∷ posted (4 ∷ 11 ∷ []) ∷ []; ngram_lookups = 1 })
      >>= λ r. ok r.0)
    ≡ ok 4
unfolding Merging.first InMemory.first first_loop
merged_first = refl

merging-IsLawful_example : IsLawful (merging in_memory) (Merges Holds)
merging-IsLawful_example = merging-IsLawful in_memory in_memory-IsLawful

distance-IsLawful_example : IsLawful (distance in_memory in_memory) (Pair Holds Holds)
distance-IsLawful_example =
    distance-IsLawful in_memory in_memory-IsLawful in_memory in_memory-IsLawful
