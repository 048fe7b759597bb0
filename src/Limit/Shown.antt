-- ===== src/Limit/Shown.antt =====
-- `limitMatches` with the limiters that it chooses between.
use zoekt.Prelude.{ℕ, ◌-◌, ◌≤◌, ◌<◌, true, false, List, [], ◌∷◌, length, take, ◌≡◌, All}
use zoekt.Outcome.{ok}
use zoekt.Limit.{FileMatch, limit_matches, limit_line_matches, limit_chunk_matches}
use zoekt.Limit.Take.{all_of}
use zoekt.Limit.Lines.{line_hits, limit_line_matches_lem}
use zoekt.Limit.Chunks.{chunk_hits, limit_chunk_matches_lem}
use zoekt.Limit.Cut.{IsChunk}
use zoekt.Limit.Matches.{limit_loop_lem}

any_file : (files : List FileMatch) → All (λ file. Unit {0}) files
any_file [] = tt
any_file (file ∷ files) = (tt, any_file files)

-- Under a positive limit `limitMatches` returns, for line matches: the line fragments of the files
-- shown are the first ones of all files, as many as the limit allows, and what is left of the limit
-- is what these do not use. No files are added.
pub limit_matches-line_hits :
    (files : List FileMatch) (limit : ℕ)
    → 0 < limit
    → (r : List FileMatch × ℕ) × (limit_matches files limit false ≡ ok r)
      × (all_of line_hits r.0 ≡ take limit (all_of line_hits files))
      × (r.1 ≡ limit - length (all_of line_hits files))
      × (length r.0 ≤ length files)
unfolding limit_matches
limit_matches-line_hits files limit h =
    limit_loop_lem line_hits (λ file. Unit {0}) limit_line_matches
      (λ l file w k. limit_line_matches_lem l file) limit files (any_file files) h

-- Under a positive limit `limitMatches` returns, for chunk matches, and does not panic, if the
-- ranges of each chunk end on ascending lines between which its content has the line ends, and it
-- has no symbols or as many as ranges: the ranges of the files shown are the first ones of all
-- files, as many as the limit allows, and what is left of the limit is what these do not use. No
-- files are added.
pub limit_matches-chunk_hits :
    (files : List FileMatch) (limit : ℕ)
    → All (λ file. All IsChunk file.chunk_matches) files
    → 0 < limit
    → (r : List FileMatch × ℕ) × (limit_matches files limit true ≡ ok r)
      × (all_of chunk_hits r.0 ≡ take limit (all_of chunk_hits files))
      × (r.1 ≡ limit - length (all_of chunk_hits files))
      × (length r.0 ≤ length files)
unfolding limit_matches
limit_matches-chunk_hits files limit w h =
    limit_loop_lem chunk_hits (λ file. All IsChunk file.chunk_matches) limit_chunk_matches
      limit_chunk_matches_lem limit files w h
