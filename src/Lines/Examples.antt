-- ===== src/Lines/Examples.antt =====
-- Test runs of line arithmetic.
use zoekt.Prelude.{
  ℕ, zero, suc, ◌+◌, ◌≤◌, ◌<◌, List, [], ◌∷◌, ◌++◌, length, map, All, ◌≡◌, refl, false, arith,
}
use zoekt.Outcome.{ok}
use zoekt.MatchTree.NgramDoc.{end_at}
use zoekt.MatchTree.NgramDoc.FileIndex.{IsAscending}
use zoekt.MatchTree.Content.{CandidateMatch, found_at, Slice}
use zoekt.Lines.{
  Newlines, at_offset, line_start, offset_range_to_line_range, get_lines, chunk_candidates,
}
use zoekt.Lines.Offsets.{IsFile, at_offset-line_start}
use zoekt.Lines.Text.{newlines_of, lines, get_lines-lines}
use zoekt.Lines.Chunks.{flatten_candidates, IsCovering, HasLines, IsApart, chunk_candidates-flatten}

-- Four lines: a line of two bytes, an empty one, one of three bytes, and one without a line end.
abbrev four_lines : Newlines
four_lines = record { locs = 2 ∷ 3 ∷ 7 ∷ []; file_size = 9 }

abbrev candidates : List CandidateMatch
candidates = found_at 0 2 false ∷ found_at 4 1 false ∷ found_at 5 3 false ∷ []

lines_of_range : offset_range_to_line_range four_lines 2 5 ≡ (1, 3)
unfolding offset_range_to_line_range
lines_of_range = refl

abbrev nine_bytes : Slice
nine_bytes = record { len = 9; bytes = 97 ∷ 98 ∷ 10 ∷ 10 ∷ 1 ∷ 2 ∷ 3 ∷ 10 ∷ 5 ∷ [] }

lines_of_text : get_lines four_lines nine_bytes 2 4 ≡ ok (10 ∷ 1 ∷ 2 ∷ 3 ∷ 10 ∷ [])
unfolding get_lines
lines_of_text = refl

chunk_lines : map (λ c. c.first_line) (chunk_candidates candidates four_lines 0) ≡ 1 ∷ 3 ∷ []
unfolding chunk_candidates
chunk_lines = refl

ascending : IsAscending four_lines.locs
ascending zero zero a b = omega arith
ascending zero (suc zero) a b = omega arith
ascending zero (suc (suc zero)) a b = omega arith
ascending (suc zero) (suc zero) a b = omega arith
ascending (suc zero) (suc (suc zero)) a b = omega arith
ascending (suc (suc zero)) (suc (suc zero)) a b = omega arith
ascending (suc i) zero a b = absurd (omega arith)
ascending (suc (suc i)) (suc zero) a b = absurd (omega arith)
ascending (suc (suc (suc i))) (suc (suc j)) a b = absurd (omega arith)
ascending i (suc (suc (suc j))) a b = absurd (omega arith)

within : (i : ℕ) → i < 3 → end_at four_lines.locs i < 9
within zero h = omega arith
within (suc zero) h = omega arith
within (suc (suc zero)) h = omega arith
within (suc (suc (suc i))) h = absurd (omega arith)

four_lines-IsFile : IsFile four_lines
four_lines-IsFile = record { ascending = ascending; within = within; fits = omega arith }

at_offset-line_start_example :
    (1 ≤ at_offset four_lines 5)
    × (at_offset four_lines 5 ≤ length four_lines.locs + 1)
    × (line_start four_lines (at_offset four_lines 5) ≤ 5)
    × (at_offset four_lines 5 ≤ length four_lines.locs
        → 5 < line_start four_lines (suc (at_offset four_lines 5)))
at_offset-line_start_example = at_offset-line_start four_lines 5 four_lines-IsFile

chunk_candidates-flatten_example :
    (flatten_candidates (chunk_candidates candidates four_lines 0) ≡ candidates)
    × All IsCovering (chunk_candidates candidates four_lines 0)
    × All (HasLines four_lines) (chunk_candidates candidates four_lines 0)
    × IsApart 0 (chunk_candidates candidates four_lines 0)
chunk_candidates-flatten_example =
    chunk_candidates-flatten four_lines 0 candidates four_lines-IsFile (omega arith)
      (omega arith, (omega arith, (omega arith, tt)))
      ((omega arith, omega arith), ((omega arith, omega arith), ((omega arith, omega arith), tt)))

abbrev four_bytes : List ℕ
four_bytes = 97 ∷ 10 ∷ 10 ∷ 98 ∷ []

-- The second and the third of three lines, in front of a byte that is not of the text.
get_lines-lines_example :
    get_lines (newlines_of four_bytes) (record { bytes = four_bytes ++ 7 ∷ []; len = 4 }) 2 9
    ≡ ok (10 ∷ 98 ∷ [])
unfolding lines
get_lines-lines_example = get_lines-lines four_bytes (7 ∷ []) 4 2 9 (omega arith) (omega arith)
