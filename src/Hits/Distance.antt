-- ===== src/Hits/Distance.antt =====
-- `distanceHitIterator` of index/hititer.go: the hits of one iterator that have a hit of the other
-- at a fixed distance behind them. Offsets are uint32, so sums and differences are taken mod 2 ^
-- 32.
pub mod Common
pub mod FindNext
pub mod Lawful
use zoekt.Prelude.{
  ℕ, zero, suc, ◌+◌, ◌-◌, ◌%◌, ◌^◌, ltb, ◌==◌, ◌||◌, if◌then◌else◌, Bool, true, false,
}
use zoekt.Outcome.{Outcome, ok, diverges, ◌>>=◌}
use zoekt.Hits.{HitIterator}
use zoekt.Hits.Lists.{max_u32}

pub record DistanceHitIterator (S T : Type 0) : Type 0 where
  pub i1 : S
  pub i2 : T
  pub distance : ℕ
  pub started : Bool

-- The limits that `findNext` and `next` hand on.
abbrev pub before_match : ℕ → ℕ → ℕ
before_match p2 d = (p2 + 2 ^ 32 - d + 2 ^ 32 - 1) % 2 ^ 32

abbrev pub before_shifted : ℕ → ℕ → ℕ
before_shifted p1 d = (p1 + d + 2 ^ 32 - 1) % 2 ^ 32

-- `l2` of `next`, with its test for overflow.
abbrev pub shifted_limit : ℕ → ℕ → ℕ
shifted_limit limit d = let l2 = (limit + d) % 2 ^ 32 in if ltb l2 limit then max_u32 else l2

module _ {S T : Type 0} (it1 : HitIterator S) (it2 : HitIterator T) where
  -- The loop of `findNext`. Each round that goes on drops a hit, and there are fewer than 2 ^ 32 on
  -- either side.
  unfoldable pub find_next : ℕ → ℕ → S → T → Outcome (S × T)
  find_next zero d i1 i2 = diverges
  find_next (suc fuel) d i1 i2 = do
    (p1, i1') ← it1.first i1
    (p2, i2') ← it2.first i2
    let stop : Outcome (S × T) = (it1.next max_u32 i1' >>= λ j. ok (j, i2'))
    let left = (it1.next (before_match p2 d) i1' >>= λ j. find_next fuel d j i2')
    let right = (it2.next (before_shifted p1 d) i2' >>= λ j. find_next fuel d i1' j)
    if p1 == max_u32 || p2 == max_u32
        then stop
        else if ltb ((p1 + d) % 2 ^ 32) p2
        then left
        else if ltb p2 ((p1 + d) % 2 ^ 32)
        then right
        else ok (i1', i2')

  unfoldable pub find_next_in : DistanceHitIterator S T → Outcome (DistanceHitIterator S T)
  find_next_in i = do
    (j1, j2) ← find_next (2 ^ 33) i.distance i.i1 i.i2
    ok (record i { i1 = j1; i2 = j2 })

  unfoldable pub begin : DistanceHitIterator S T → Outcome (DistanceHitIterator S T)
  begin i = if i.started then ok i else (find_next_in i >>= λ j. ok (record j { started = true }))

  unfoldable pub first : DistanceHitIterator S T → Outcome (ℕ × DistanceHitIterator S T)
  unfolding begin
  first i = do j ← begin i; (p, j1) ← it1.first j.i1; ok (p, record j { i1 = j1 })

  unfoldable pub next : ℕ → DistanceHitIterator S T → Outcome (DistanceHitIterator S T)
  next limit i = do
    j1 ← it1.next limit i.i1
    j2 ← it2.next (shifted_limit limit i.distance) i.i2
    find_next_in (record i { i1 = j1; i2 = j2 })

  abbrev pub distance : HitIterator (DistanceHitIterator S T)
  distance = record { first = first; next = next }
