-- ===== src/Hits/Merging.antt =====
-- `mergingIterator` of index/hititer.go: the union of several iterators.
pub mod Union
pub mod Lawful
use zoekt.Prelude.{ℕ, ltb, if◌then◌else◌, List, [], ◌∷◌}
use zoekt.Outcome.{Outcome, ok, ◌>>=◌}
use zoekt.Hits.{HitIterator}
use zoekt.Hits.Lists.{max_u32}

pub record MergingIterator (S : Type 0) : Type 0 where
  pub iters : List S
  pub ngram_lookups : ℕ

module _ {S : Type 0} (it : HitIterator S) where
  -- The loop of `first`: `r` is the least first hit so far.
  unfoldable pub first_loop : ℕ → List S → Outcome (ℕ × List S)
  first_loop r [] = ok (r, [])
  first_loop r (j ∷ js) = do
    (f, j') ← it.first j
    (r', js') ← first_loop (if ltb f r then f else r) js
    ok (r', j' ∷ js')

  unfoldable pub first : MergingIterator S → Outcome (ℕ × MergingIterator S)
  unfolding first_loop
  first i = do (r, js) ← first_loop max_u32 i.iters; ok (r, record i { iters = js })

  unfoldable pub next_loop : ℕ → List S → Outcome (List S)
  next_loop limit [] = ok []
  next_loop limit (j ∷ js) = do j' ← it.next limit j; js' ← next_loop limit js; ok (j' ∷ js')

  unfoldable pub next : ℕ → MergingIterator S → Outcome (MergingIterator S)
  unfolding next_loop
  next limit i = do js ← next_loop limit i.iters; ok (record i { iters = js })

  abbrev pub merging : HitIterator (MergingIterator S)
  merging = record { first = first; next = next }
