-- ===== src/Limit.antt =====
-- index/limit.go: the limits on the documents and matches that are shown. Of the records of api.go
-- the fields that the code reads or writes are kept.
pub mod Take
pub mod Lines
pub mod Cut
pub mod Chunks
pub mod Matches
pub mod Shown
pub mod Batches
pub mod Sequence
pub mod Display
mod Examples
use zoekt.Prelude.{
  ℕ, zero, suc, ◌+◌, ◌-◌, ◌%◌, ◌^◌, ltb, leb, ◌==◌, if◌then◌else◌, Bool, true, false, ◌||◌,
}
use zoekt.Prelude.{List, [], ◌∷◌, length, take, get_elem?, Option, none, some, map}
use zoekt.Outcome.{Outcome, ok, panic, ◌>>=◌}

pub record LineFragmentMatch : Type 0 where
  pub line_offset : ℕ
  pub offset : ℕ
  pub match_length : ℕ

pub record LineMatch : Type 0 where
  pub line : List ℕ
  pub line_fragments : List LineFragmentMatch

pub record Location : Type 0 where
  pub byte_offset : ℕ
  pub line_number : ℕ
  pub column : ℕ

pub record Range : Type 0 where
  pub start : Location
  pub end : Location

-- A slice of symbols: `entries` has those up to the slice's capacity, as addresses, and the first
-- `len` of them are in the slice.
pub record SymbolSlice : Type 0 where
  pub len : ℕ
  pub entries : List ℕ

pub record ChunkMatch : Type 0 where
  pub content : List ℕ
  pub ranges : List Range
  pub symbol_info : Option SymbolSlice

pub record FileMatch : Type 0 where
  pub file_name : List ℕ
  pub line_matches : List LineMatch
  pub chunk_matches : List ChunkMatch

-- The loop of `limitLineMatches`.
unfoldable pub limit_lines : ℕ → List LineMatch → List LineMatch × ℕ
limit_lines limit [] = ([], limit)
limit_lines limit (lm ∷ lms) =
    let kept =
      if ltb limit (length lm.line_fragments)
      then take limit lm.line_fragments
      else lm.line_fragments in
    let rest = limit_lines (limit - length kept) lms in
    let cut = record lm { line_fragments = kept } in
    if length kept == limit then (cut ∷ [], 0) else (cut ∷ rest.0, rest.1)

unfoldable pub limit_line_matches : ℕ → FileMatch → Outcome (FileMatch × ℕ)
unfolding limit_lines
limit_line_matches limit file =
    let r = limit_lines limit file.line_matches in ok (record file { line_matches = r.0 }, r.1)

-- `cm.Content[b] == '\n'`
abbrev pub is_line_end : List ℕ → ℕ → Bool
is_line_end content b = elim (get_elem? content b) [ some c ↦ c == 10 | none ↦ false ]

-- The loop over the bytes of the content, from the byte before `b` down. Without enough line ends
-- it runs out, which the code takes for impossible.
unfoldable pub drop_lines : List ℕ → ℕ → ℕ → Outcome (List ℕ)
drop_lines content n zero = panic
drop_lines content n (suc b) =
    let n' = if is_line_end content b then n - 1 else n in
    let more = drop_lines content n' b in if n' == 0 then ok (take b content) else more

-- `rs[i].End.LineNumber`
unfoldable pub end_line : List Range → ℕ → Outcome ℕ
end_line rs i = elim (get_elem? rs i) [ some r ↦ ok r.end.line_number | none ↦ panic ]

-- `cm.SymbolInfo[:limit]` where it is not nil, which panics beyond the capacity.
unfoldable pub cut_symbols : ℕ → Option SymbolSlice → Outcome (Option SymbolSlice)
cut_symbols limit none = ok none
cut_symbols limit (some s) =
    if leb limit (length s.entries) then ok (some (record s { len = limit })) else panic

-- A chunk with more ranges than the limit.
unfoldable pub cut_chunk : ℕ → ChunkMatch → Outcome ChunkMatch
unfolding drop_lines end_line cut_symbols
cut_chunk zero cm = panic
cut_chunk (suc last) cm = do
  old ← end_line cm.ranges (length cm.ranges - 1)
  new ← end_line cm.ranges last
  let n = (old + 2 ^ 32 - new) % 2 ^ 32
  content ← (if ltb 0 n then drop_lines cm.content n (length cm.content) else ok cm.content)
  symbols ← cut_symbols (suc last) cm.symbol_info
  ok (record { content = content; ranges = take (suc last) cm.ranges; symbol_info = symbols })

-- The loop of `limitChunkMatches`.
unfoldable pub limit_chunks : ℕ → List ChunkMatch → Outcome (List ChunkMatch × ℕ)
unfolding cut_chunk
limit_chunks limit [] = ok ([], limit)
limit_chunks limit (cm ∷ cms) = do
  cut ← (if ltb limit (length cm.ranges) then cut_chunk limit cm else ok cm)
  let more = (limit_chunks (limit - length cut.ranges) cms >>= λ r. ok (cut ∷ r.0, r.1))
  if length cut.ranges == limit then ok (cut ∷ [], 0) else more

unfoldable pub limit_chunk_matches : ℕ → FileMatch → Outcome (FileMatch × ℕ)
unfolding limit_chunks
limit_chunk_matches limit file = do
  r ← limit_chunks limit file.chunk_matches
  ok (record file { chunk_matches = r.0 }, r.1)

-- The loop of `limitMatches` with the limiter that it has chosen.
unfoldable pub limit_loop :
    (ℕ → FileMatch → Outcome (FileMatch × ℕ)) → ℕ → List FileMatch → Outcome (List FileMatch × ℕ)
limit_loop limiter limit [] = ok ([], limit)
limit_loop limiter limit (file ∷ files) = do
  (cut, left) ← limiter limit file
  let more = (limit_loop limiter left files >>= λ r. ok (cut ∷ r.0, r.1))
  if left == 0 then ok (cut ∷ [], 0) else more

abbrev pub limiter : Bool → ℕ → FileMatch → Outcome (FileMatch × ℕ)
limiter true = limit_chunk_matches
limiter false = limit_line_matches

unfoldable pub limit_matches : List FileMatch → ℕ → Bool → Outcome (List FileMatch × ℕ)
unfolding limit_loop
limit_matches files limit chunk_matches = limit_loop (limiter chunk_matches) limit files

-- The limits of `SearchOptions`; 0 stands for every number that is not positive.
pub record SearchOptions : Type 0 where
  pub max_doc_display_count : ℕ
  pub max_match_display_count : ℕ
  pub chunk_matches : Bool

-- What the closure of `NewDisplayTruncator` keeps between calls.
pub record Truncator : Type 0 where
  pub doc_limit : ℕ
  pub match_limit : ℕ
  pub done : Bool

abbrev pub new_display_truncator : SearchOptions → Truncator
new_display_truncator o = record {
  doc_limit = o.max_doc_display_count;
  match_limit = o.max_match_display_count;
  done = false;
}

unfoldable pub limit_docs : SearchOptions → Truncator → List FileMatch → List FileMatch × Truncator
limit_docs o t fm =
    if ltb 0 o.max_doc_display_count
    then (if leb t.doc_limit (length fm)
        then (
          take t.doc_limit fm,
          record t { done = true; doc_limit = t.doc_limit - length (take t.doc_limit fm) },
        )
        else (fm, record t { doc_limit = t.doc_limit - length fm }))
    else (fm, t)

unfoldable pub limit_shown :
    SearchOptions → Truncator → List FileMatch → Outcome (List FileMatch × Truncator)
unfolding limit_matches
limit_shown o t fm =
    if ltb 0 o.max_match_display_count
    then (limit_matches fm t.match_limit o.chunk_matches >>= λ r.
        ok (r.0, record t { match_limit = r.1; done = r.1 == 0 || t.done }))
    else ok (fm, t)

-- One call: what is shown, `hasMore`, and the state for the next call. Without limits the code
-- returns another closure, which shows everything; so does this one.
unfoldable pub truncate :
    SearchOptions → Truncator → List FileMatch → Outcome ((List FileMatch × Bool) × Truncator)
unfolding limit_docs limit_shown
truncate o t fm = if t.done then ok (([], false), t) else (do
  let docs = limit_docs o t fm
  (shown, t') ← limit_shown o docs.1 docs.0
  ok ((shown, if t'.done then false else true), t'))
