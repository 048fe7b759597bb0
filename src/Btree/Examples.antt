-- ===== src/Btree/Examples.antt =====
-- Test runs of the b-tree.
use zoekt.Prelude.{ℕ, ◌*◌, ◌/◌, List, [], ◌∷◌, ◌≡◌, refl, arith}
use zoekt.Outcome.{Outcome, ok, ◌>>=◌}
use zoekt.Btree.{Opts, Node, insert_all, new_btree, freeze, find}
use zoekt.Btree.Split.{IsOpts}
use zoekt.Btree.Lookup.{IsBucketOf}
use zoekt.Btree.Index.{find-insert_all}

-- Buckets of two ngrams, and nodes of four children at most.
abbrev small : Opts
small = record { bucket_size = 2; v = 2 }

abbrev ngrams : List ℕ
ngrams = 2 ∷ 3 ∷ 5 ∷ 7 ∷ 11 ∷ 13 ∷ 17 ∷ 19 ∷ []

abbrev found : ℕ → Outcome (ℕ × ℕ)
found x = insert_all small ngrams new_btree >>= λ t. find x (freeze t 0 0).0

find_first : found 2 ≡ ok (0, 0)
unfolding insert_all freeze find
find_first = refl

find_inside : found 13 ≡ ok (5, 5)
unfolding insert_all freeze find
find_inside = refl

-- The last bucket has two ngrams.
find_last : found 19 ≡ ok (6, 6)
unfolding insert_all freeze find
find_last = refl

-- The case of TestFindBucket.
find_bucket :
    (insert_all
        (record { bucket_size = 4; v = 2 })
        (1 ∷ 2 ∷ 3 ∷ 4 ∷ 5 ∷ 6 ∷ 7 ∷ 8 ∷ 9 ∷ 10 ∷ [])
        new_btree
      >>= λ t. find 7 (freeze t 0 0).0)
    ≡ ok (3, 6)
unfolding insert_all freeze find
find_bucket = refl

small-IsOpts : IsOpts small
small-IsOpts = record { even = refl; positive = omega arith; v-positive = omega arith }

find-insert_all_example :
    (t : Node) × (insert_all small ngrams new_btree ≡ ok t)
    × (q : ℕ) × (find 13 (freeze t 0 0).0 ≡ ok (q, q * (small.bucket_size / 2)))
    × IsBucketOf (small.bucket_size / 2) 8 5 q (freeze t 0 0).1
find-insert_all_example = find-insert_all small ngrams 5 13 small-IsOpts (omega arith) refl
