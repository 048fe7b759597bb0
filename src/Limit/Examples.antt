-- ===== src/Limit/Examples.antt =====
-- Runs of the limits, and the theorems at concrete inputs.
use zoekt.Prelude.{ℕ, ◌+◌, ◌-◌, ◌≤◌, true, false, some, List, [], ◌∷◌, length, take, ◌≡◌, arith}
use zoekt.Prelude.{Bool, refl}
use zoekt.Limit.{SearchOptions, new_display_truncator}
use zoekt.Limit.Sequence.{truncate_all}
use zoekt.Limit.Display.{truncate_all-line_hits, truncate_all-chunk_hits}
use zoekt.Outcome.{ok}
use zoekt.Limit.{LineFragmentMatch, Range, ChunkMatch, FileMatch, limit_matches}
use zoekt.Limit.Take.{all_of}
use zoekt.Limit.Lines.{line_hits}
use zoekt.Limit.Chunks.{chunk_hits}
use zoekt.Limit.Cut.{IsChunk}
use zoekt.Limit.Shown.{limit_matches-line_hits, limit_matches-chunk_hits}

abbrev fragment : ℕ → LineFragmentMatch
fragment n = record { line_offset = n; offset = n; match_length = 3 }

abbrev on_line : ℕ → Range
on_line n = record {
  start = record { byte_offset = n; line_number = n; column = 1 };
  end = record { byte_offset = n + 1; line_number = n; column = 2 };
}

abbrev letters : ChunkMatch
letters = record {
  content = 97 ∷ 10 ∷ 98 ∷ 10 ∷ 99 ∷ [];
  ranges = on_line 1 ∷ on_line 2 ∷ on_line 3 ∷ [];
  symbol_info = some (record { len = 3; entries = 1 ∷ 2 ∷ 3 ∷ 4 ∷ [] });
}

-- Two lines with a match each, then one with two; "a", "b" and "c" on lines of their own.
abbrev two_files : List FileMatch
two_files =
    record {
      file_name = 97 ∷ [];
      line_matches =
          record { line = 97 ∷ []; line_fragments = fragment 0 ∷ [] }
          ∷ record { line = 98 ∷ []; line_fragments = fragment 1 ∷ [] }
          ∷ [];
      chunk_matches = letters ∷ [];
    }
    ∷ record {
      file_name = 98 ∷ [];
      line_matches = record { line = 97 ∷ []; line_fragments = fragment 0 ∷ fragment 1 ∷ [] } ∷ [];
      chunk_matches = [];
    }
    ∷ []

one_to_three : IsChunk letters
one_to_three = (
  1,
  (omega arith, omega arith, (omega arith, omega arith, (omega arith, omega arith, tt))),
  omega arith,
  (refl, omega arith),
)

limit_matches-line_hits_example :
    (r : List FileMatch × ℕ) × (limit_matches two_files 3 false ≡ ok r)
    × (all_of line_hits r.0 ≡ take 3 (all_of line_hits two_files))
    × (r.1 ≡ 3 - length (all_of line_hits two_files))
    × (length r.0 ≤ length two_files)
limit_matches-line_hits_example = limit_matches-line_hits two_files 3 (omega arith)

limit_matches-chunk_hits_example :
    (r : List FileMatch × ℕ) × (limit_matches two_files 2 true ≡ ok r)
    × (all_of chunk_hits r.0 ≡ take 2 (all_of chunk_hits two_files))
    × (r.1 ≡ 2 - length (all_of chunk_hits two_files))
    × (length r.0 ≤ length two_files)
limit_matches-chunk_hits_example =
    limit_matches-chunk_hits two_files 2 ((one_to_three, tt), (tt, tt)) (omega arith)

abbrev one_of_each : Bool → SearchOptions
one_of_each b = record { max_doc_display_count = 1; max_match_display_count = 2; chunk_matches = b }

truncate_all-line_hits_example :
    (out : List FileMatch) × (truncate_all
        (one_of_each false)
        (new_display_truncator (one_of_each false))
        (two_files ∷ two_files ∷ [])
      ≡ ok out)
    × (all_of line_hits out ≡ fragment 0 ∷ fragment 1 ∷ [])
    × (length out ≤ 1)
truncate_all-line_hits_example =
    truncate_all-line_hits (one_of_each false) (two_files ∷ two_files ∷ []) refl

truncate_all-chunk_hits_example :
    (out : List FileMatch) × (truncate_all
        (one_of_each true)
        (new_display_truncator (one_of_each true))
        (two_files ∷ [])
      ≡ ok out)
    × (all_of chunk_hits out ≡ on_line 1 ∷ on_line 2 ∷ [])
    × (length out ≤ 1)
truncate_all-chunk_hits_example =
    truncate_all-chunk_hits (one_of_each true) (two_files ∷ []) refl
      (((one_to_three, tt), (tt, tt)), tt)
