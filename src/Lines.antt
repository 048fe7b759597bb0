-- ===== src/Lines.antt =====
-- The line arithmetic of index/contentprovider.go: which lines hold an offset, and how the
-- candidates of a file are grouped by lines. Line numbers are ints, and stand for natural numbers.
pub mod Offsets
pub mod Chunks
pub mod Text
mod Examples
use zoekt.Prelude.{
  ℕ, zero, suc, ◌+◌, ◌-◌, ◌%◌, ◌^◌, max, ltb, leb, if◌then◌else◌, List, [], ◌∷◌, ◌++◌, length,
}
use zoekt.Outcome.{Outcome, ok}
use zoekt.Bits.RuneOffsets.{search_index}
use zoekt.MatchTree.Content.{CandidateMatch, Slice, slice}
use zoekt.MatchTree.NgramDoc.{end_at}

pub record Newlines : Type 0 where
  pub locs : List ℕ
  pub file_size : ℕ

-- `atOffset`; `sort.Search` reads the locations within bounds only.
unfoldable pub at_offset : Newlines → ℕ → ℕ
unfolding search_index
at_offset nls offset = search_index (length nls.locs) (λ n. leb offset (end_at nls.locs n)) + 1

unfoldable pub line_start : Newlines → ℕ → ℕ
line_start nls zero = 0
line_start nls (suc zero) = 0
line_start nls (suc (suc start_idx)) =
    if leb (length nls.locs) start_idx
    then nls.file_size
    else (end_at nls.locs start_idx + 1) % 2 ^ 32

-- `max(startOffset, max(endOffset, 1)-1)`
abbrev pub last_offset : ℕ → ℕ → ℕ
last_offset start_offset end_offset = max start_offset (max end_offset 1 - 1)

unfoldable pub offset_range_to_line_range : Newlines → ℕ → ℕ → ℕ × ℕ
unfolding at_offset
offset_range_to_line_range nls start_offset end_offset =
    (at_offset nls start_offset, at_offset nls (last_offset start_offset end_offset))

unfoldable pub get_lines : Newlines → Slice → ℕ → ℕ → Outcome (List ℕ)
unfolding line_start slice
get_lines nls text low high =
    let lines = slice text (line_start nls low) (line_start nls high) in
    if leb high low then ok [] else lines

pub record CandidateChunk : Type 0 where
  pub candidates : List CandidateMatch
  pub first_line : ℕ
  pub last_line : ℕ
  pub min_offset : ℕ
  pub max_offset : ℕ

abbrev pub end_of : CandidateMatch → ℕ
end_of m = (m.byte_offset + m.byte_match_sz) % 2 ^ 32

unfoldable pub line_range : Newlines → CandidateMatch → ℕ × ℕ
unfolding offset_range_to_line_range
line_range nls m = offset_range_to_line_range nls m.byte_offset (end_of m)

abbrev pub new_chunk : Newlines → CandidateMatch → CandidateChunk
new_chunk nls m = record {
  candidates = m ∷ [];
  first_line = (line_range nls m).0 % 2 ^ 32;
  last_line = (line_range nls m).1 % 2 ^ 32;
  min_offset = m.byte_offset;
  max_offset = end_of m;
}

abbrev pub extend : Newlines → CandidateMatch → CandidateChunk → CandidateChunk
extend nls m last =
    let longer = ltb last.max_offset (end_of m) in
    record last {
      candidates = last.candidates ++ m ∷ [];
      last_line = (if longer then (line_range nls m).1 % 2 ^ 32 else last.last_line);
      max_offset = (if longer then end_of m else last.max_offset);
    }

-- The loop of `chunkCandidates`, with the chunk at the end of `chunks`: those in front of it are
-- not changed any more. The code subtracts the context on the right side of the test.
unfoldable pub chunks_from :
    Newlines → ℕ → CandidateChunk → List CandidateMatch → List CandidateChunk
unfolding line_range
chunks_from nls context last [] = last ∷ []
chunks_from nls context last (m ∷ ms) =
    let joined = chunks_from nls context (extend nls m last) ms in
    let apart = last ∷ chunks_from nls context (new_chunk nls m) ms in
    if leb (line_range nls m).0 (last.last_line + context + context) then joined else apart

unfoldable pub chunk_candidates : List CandidateMatch → Newlines → ℕ → List CandidateChunk
unfolding chunks_from
chunk_candidates [] nls context = []
chunk_candidates (m ∷ ms) nls context = chunks_from nls context (new_chunk nls m) ms
