-- ===== src/Budget/Examples.antt =====
-- Test runs of a budget.
use zoekt.Prelude.{
  ℕ, ◌*◌, ◌+◌, ◌≤◌, true, false, none, some, List, [], ◌∷◌, length, ◌≡◌, refl, arith,
}
use zoekt.Budget.{FileMatch, kept, refused, new, exhausted, finish, deadline_exceeded, run, calls}
use zoekt.Budget.Bound.{kept_size, AllFair, files, run-bounded}
use zoekt.Budget.Steps.{run-ends}

abbrev small : FileMatch
small = record {
  file_name = [];
  repository = [];
  content = [];
  chunk_matches = [];
  line_matches = [];
}

abbrev two : List FileMatch
two = small ∷ small ∷ []

-- The second goroutine loads before the first one swaps, tries again, and is refused.
abbrev crossed : List ℕ
crossed = 0 ∷ 1 ∷ 0 ∷ 1 ∷ 1 ∷ 1 ∷ []

run-crossed :
    ((run crossed (new 1000) (calls two)).1
      ≡ record { file = small; pc = kept } ∷ record { file = small; pc = refused } ∷ [])
    × ((run crossed (new 1000) (calls two)).0.used ≡ 512)
    × (exhausted (run crossed (new 1000) (calls two)).0 ≡ true)
unfolding run
run-crossed = (refl, refl, refl)

-- A search that fails by itself, and one that is out of time.
finish_failed : (finish none none true (new 9)).flags 5 ≡ true
finish_failed = refl

finish_late :
    (finish (some deadline_exceeded) (some deadline_exceeded) true (new 9)).flags 5 ≡ false
finish_late = refl

run-bounded_example :
    (let r = run crossed (new 1000) (calls two) in
      (r.0.used ≡ kept_size r.1) × (r.0.used ≤ 1000) × AllFair 1000 r.0 r.1 × (files r.1 ≡ two))
run-bounded_example = run-bounded crossed 1000 two (omega arith) (omega arith, (omega arith, tt))

run-ends_example : length crossed ≤ length two * (2 + length two * 2)
unfolding run
run-ends_example = run-ends crossed 1000 two (tt, (tt, (tt, (tt, (tt, (tt, tt))))))
