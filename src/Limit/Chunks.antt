-- ===== src/Limit/Chunks.antt =====
-- `limitChunkMatches` keeps the first ranges of a file.
use zoekt.Prelude.{ℕ, ◌-◌, ◌≤◌, ◌<◌, ◌==◌, false, Bool-cases, inl, inr}
use zoekt.Prelude.{
  List, [], ◌∷◌, ◌++◌, length, take, length-take, ◌≡◌, refl, sym, ap, ap₂, ◌∙◌, arith,
}
use zoekt.Prelude.{==_iff, All}
use zoekt.Outcome.{ok}
use zoekt.Limit.{Range, ChunkMatch, FileMatch, limit_chunks, limit_chunk_matches}
use zoekt.Limit.Take.{take_all, take_full, take_short, all_of}
use zoekt.Limit.Cut.{IsChunk, cut_lem}

abbrev pub chunk_hits : FileMatch → List Range
chunk_hits file = all_of (λ cm. cm.ranges) file.chunk_matches

abbrev Shown : ℕ → List Range → List ChunkMatch × ℕ → Type 0
Shown limit hits r = (all_of (λ cm. cm.ranges) r.0 ≡ take limit hits) × (r.1 ≡ limit - length hits)

left_over : (limit n : ℕ) → (n == limit) ≡ false → n ≤ limit → 0 < limit - n
left_over limit n h k = ground arith

limit_chunks_lem :
    (limit : ℕ) (cms : List ChunkMatch)
    → All IsChunk cms
    → 0 < limit
    → (r : List ChunkMatch × ℕ) × (limit_chunks limit cms ≡ ok r)
      × Shown limit (all_of (λ cm. cm.ranges) cms) r
unfolding limit_chunks
limit_chunks_lem limit [] w h =
    (([], limit), refl, (sym (take_all limit [] (omega arith)), omega arith))
limit_chunks_lem limit (cm ∷ cms) w h =
    let (cut, p, e) = cut_lem limit cm w.0 h in
    let hits = all_of (λ c. c.ranges) cms in
    let len = length-take limit cm.ranges in
    let same : length cut.ranges ≡ length (take limit cm.ranges) = ap length e in
    elim (Bool-cases (length cut.ranges == limit)) [
      | inl full ↦
          let n : length cut.ranges ≡ limit = (==_iff _ _).0 full in
          let (a, b) = take_full limit cm.ranges hits (sym same ∙ n) in
          ((cut ∷ [], 0), rw (p, full) refl, (ap (λ x. x ++ []) e ∙ a, b))
      | inr short ↦
          let (r, q, (a, b)) =
            limit_chunks_lem (limit - length cut.ranges) cms w.1
              (left_over limit (length cut.ranges) short (omega arith)) in
          let (a', b') = take_short limit cm.ranges hits in
          (
            (cut ∷ r.0, r.1),
            rw (p, short, q) refl,
            (
              ap₂ (λ x y. x ++ y) e (a ∙ ap (λ m. take (limit - m) hits) same) ∙ a',
              b ∙ ap (λ m. limit - m - length hits) same ∙ b',
            ),
          )
    ]

pub limit_chunk_matches_lem :
    (limit : ℕ) (file : FileMatch)
    → All IsChunk file.chunk_matches
    → 0 < limit
    → (cut : FileMatch) × (left : ℕ) × (limit_chunk_matches limit file ≡ ok (cut, left))
      × (chunk_hits cut ≡ take limit (chunk_hits file))
      × (left ≡ limit - length (chunk_hits file))
unfolding limit_chunk_matches
limit_chunk_matches_lem limit file w h =
    let (r, p, (a, b)) = limit_chunks_lem limit file.chunk_matches w h in
    (record file { chunk_matches = r.0 }, r.1, rw p refl, a, b)
