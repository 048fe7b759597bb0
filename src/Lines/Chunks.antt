-- ===== src/Lines/Chunks.antt =====
-- What `chunkCandidates` makes of sorted candidates (index/contentprovider.go).
use zoekt.Prelude.{
  ℕ, ◌+◌, ◌-◌, ◌%◌, ◌^◌, ◌≤◌, ◌<◌, ltb, leb, if_cases, ltb→lt, ltb-false→le, leb-false→lt,
  Bool-cases, inl, inr,
}
use zoekt.Prelude.{
  ◌≡◌, refl, sym, ap, ◌∙◌, subst, List, [], ◌∷◌, ◌++◌, append_assoc, length, All, arith,
}
use zoekt.MatchTree.Content.{CandidateMatch}
use zoekt.Lines.Offsets.{IsFile, at_offset-line_start}
use zoekt.Lines.{
  at_offset, last_offset, Newlines, CandidateChunk, end_of, line_range, new_chunk, extend,
  chunks_from, chunk_candidates,
}

abbrev pub flatten_candidates : List CandidateChunk → List CandidateMatch
flatten_candidates [] = []
flatten_candidates (c ∷ cs) = c.candidates ++ flatten_candidates cs

-- In the order of their offsets, from `from` on.
abbrev pub IsSorted : ℕ → List CandidateMatch → Type 0
IsSorted from [] = Unit {0}
IsSorted from (m ∷ ms) = (from ≤ m.byte_offset) × IsSorted m.byte_offset ms

-- With the context before and behind them, chunks do not meet.
abbrev pub IsApart : ℕ → List CandidateChunk → Type 0
IsApart context [] = Unit {0}
IsApart context (c ∷ []) = Unit {0}
IsApart context (c ∷ d ∷ cs) =
    (c.last_line + context + context < d.first_line) × IsApart context (d ∷ cs)

abbrev pub Spans : ℕ → ℕ → CandidateMatch → Type 0
Spans low high m = (low ≤ m.byte_offset) × (end_of m ≤ high)

-- Each candidate of the chunk lies within its offsets.
abbrev pub IsCovering : CandidateChunk → Type 0
IsCovering c = All (Spans c.min_offset c.max_offset) c.candidates

-- The chunk's lines are those of its first byte and of its last one.
abbrev pub HasLines : Newlines → CandidateChunk → Type 0
HasLines nls c =
    (c.first_line ≡ at_offset nls c.min_offset) × (c.last_line ≡ at_offset nls (c.max_offset - 1))

-- A candidate with at least one byte, whose end fits 32 bits.
abbrev pub IsSolid : CandidateMatch → Type 0
IsSolid m = (0 < m.byte_match_sz) × (m.byte_offset + m.byte_match_sz < 2 ^ 32)

Spans-snoc :
    (low high high' : ℕ) (ms : List CandidateMatch) (m : CandidateMatch)
    → high ≤ high'
    → All (Spans low high) ms
    → Spans low high' m
    → All (Spans low high') (ms ++ m ∷ [])
Spans-snoc low high high' [] m h a s = (s, tt)
Spans-snoc low high high' (x ∷ xs) m h a s =
    ((a.0.0, let t = a.0.1 in omega arith), Spans-snoc low high high' xs m h a.1 s)

-- The ends of a chunk, with a candidate that begins behind its start.
extend-IsCovering :
    (nls : Newlines) (m : CandidateMatch) (c : CandidateChunk)
    → c.min_offset ≤ m.byte_offset
    → IsCovering c
    → IsCovering (extend nls m c)
extend-IsCovering nls m c h a =
    if_cases (λ high. All (Spans c.min_offset high) (c.candidates ++ m ∷ []))
      (ltb c.max_offset (end_of m)) (end_of m) c.max_offset
      (λ e.
        let longer = ltb→lt _ _ e in
        Spans-snoc c.min_offset c.max_offset (end_of m) c.candidates m (omega arith) a
          (h, omega arith))
      (λ e.
        let within = ltb-false→le _ _ e in
        Spans-snoc c.min_offset c.max_offset c.max_offset c.candidates m (omega arith) a
          (h, within))

-- Line numbers fit 32 bits.
at_offset-fits :
    (nls : Newlines) (offset : ℕ)
    → IsFile nls
    → length nls.locs + 1 < 2 ^ 32
    → at_offset nls offset % 2 ^ 32 ≡ at_offset nls offset
at_offset-fits nls offset file small =
    let line = at_offset-line_start nls offset file in let top = line.1 in omega arith

line_range-fits :
    (nls : Newlines) (m : CandidateMatch)
    → IsFile nls
    → length nls.locs + 1 < 2 ^ 32
    → (line_range nls m).0 % 2 ^ 32 ≡ (line_range nls m).0
unfolding line_range
line_range-fits nls m file small = at_offset-fits nls m.byte_offset file small

line_range_first :
    (nls : Newlines) (m : CandidateMatch) → (line_range nls m).0 ≡ at_offset nls m.byte_offset
unfolding line_range
line_range_first nls m = refl

line_range_last :
    (nls : Newlines) (m : CandidateMatch)
    → IsFile nls
    → length nls.locs + 1 < 2 ^ 32
    → IsSolid m
    → (line_range nls m).1 % 2 ^ 32 ≡ at_offset nls (end_of m - 1)
unfolding line_range
line_range_last nls m file small (p, q) =
    let e : last_offset m.byte_offset (end_of m) ≡ end_of m - 1 = omega arith in
    at_offset-fits nls (last_offset m.byte_offset (end_of m)) file small ∙ ap (at_offset nls) e

new_chunk-HasLines :
    (nls : Newlines) (m : CandidateMatch)
    → IsFile nls
    → length nls.locs + 1 < 2 ^ 32
    → IsSolid m
    → HasLines nls (new_chunk nls m)
new_chunk-HasLines nls m file small solid = (
  line_range-fits nls m file small ∙ line_range_first nls m,
  line_range_last nls m file small solid,
)

extend-HasLines :
    (nls : Newlines) (m : CandidateMatch) (c : CandidateChunk)
    → IsFile nls
    → length nls.locs + 1 < 2 ^ 32
    → IsSolid m
    → HasLines nls c
    → HasLines nls (extend nls m c)
extend-HasLines nls m c file small solid (f, l) = elim (Bool-cases (ltb c.max_offset (end_of m))) [
  | inl e ↦ rw e (f, line_range_last nls m file small solid)
  | inr e ↦ rw e (f, l)
]

-- What the loop makes of the last chunk and the candidates behind it.
record Chunked (nls : Newlines) (context : ℕ) (last : CandidateChunk) (ms : List CandidateMatch)
    (chunks : List CandidateChunk) : Type 0 where
  first : CandidateChunk
  others : List CandidateChunk
  shape : chunks ≡ first ∷ others
  first_line-kept : first.first_line ≡ last.first_line
  flat : flatten_candidates chunks ≡ last.candidates ++ ms
  apart : IsApart context chunks
  covering : All IsCovering chunks
  lines : All (HasLines nls) chunks

cons-IsApart :
    (context : ℕ) (last first : CandidateChunk) (chunks others : List CandidateChunk)
    → chunks ≡ first ∷ others
    → last.last_line + context + context < first.first_line
    → IsApart context chunks
    → IsApart context (last ∷ chunks)
cons-IsApart context last first chunks others e far a =
    subst (λ cs. IsApart context (last ∷ cs)) (sym e) (far, subst (IsApart context) e a)

chunks_from-Chunked :
    (nls : Newlines) (context from : ℕ) (last : CandidateChunk) (ms : List CandidateMatch)
    → IsFile nls
    → length nls.locs + 1 < 2 ^ 32
    → IsCovering last
    → HasLines nls last
    → last.min_offset ≤ from
    → IsSorted from ms
    → All IsSolid ms
    → Chunked nls context last ms (chunks_from nls context last ms)
unfolding chunks_from
chunks_from-Chunked nls context from last [] file small c at_lines low sorted solid = record {
  first = last;
  others = [];
  shape = refl;
  first_line-kept = refl;
  flat = refl;
  apart = tt;
  covering = (c, tt);
  lines = (at_lines, tt);
}
chunks_from-Chunked nls context from last (m ∷ ms) file small c at_lines low sorted solid =
    if_cases (Chunked nls context last (m ∷ ms))
      (leb (line_range nls m).0 (last.last_line + context + context))
      (chunks_from nls context (extend nls m last) ms)
      (last ∷ chunks_from nls context (new_chunk nls m) ms)
      (λ near.
        let rest =
          chunks_from-Chunked nls context m.byte_offset (extend nls m last) ms file small
            (extend-IsCovering nls m last (omega arith) c)
            (extend-HasLines nls m last file small solid.0 at_lines) (omega arith) sorted.1
            solid.1 in
        record {
          first = rest.first;
          others = rest.others;
          shape = rest.shape;
          first_line-kept = rest.first_line-kept;
          flat = rest.flat ∙ append_assoc last.candidates (m ∷ []) ms;
          apart = rest.apart;
          covering = rest.covering;
          lines = rest.lines;
        })
      (λ far.
        let rest =
          chunks_from-Chunked nls context m.byte_offset (new_chunk nls m) ms file small
            ((omega arith, omega arith), tt) (new_chunk-HasLines nls m file small solid.0)
            (omega arith) sorted.1 solid.1 in
        record {
          first = last;
          others = chunks_from nls context (new_chunk nls m) ms;
          shape = refl;
          first_line-kept = refl;
          flat = ap (λ l. last.candidates ++ l) rest.flat;
          apart =
              cons-IsApart context last rest.first _ rest.others rest.shape
                (subst (λ l. last.last_line + context + context < l)
                  (sym (rest.first_line-kept ∙ line_range-fits nls m file small))
                  (leb-false→lt _ _ far))
                rest.apart;
          covering = (c, rest.covering);
          lines = (at_lines, rest.lines);
        })

-- `chunkCandidates`, for candidates in the order of their offsets: the chunks have all candidates,
-- in order; each chunk spans the offsets of its candidates; its lines are those of its first byte
-- and of its last one; and the lines of two chunks in a row do not meet, with the context added
-- behind the one and in front of the other. The line ends are in order and within the file, whose
-- size, and the number of whose lines, fit 32 bits; each candidate has at least one byte, and its
-- end fits 32 bits.
pub chunk_candidates-flatten :
    (nls : Newlines) (context : ℕ) (ms : List CandidateMatch)
    → IsFile nls
    → length nls.locs + 1 < 2 ^ 32
    → IsSorted 0 ms
    → All IsSolid ms
    → (flatten_candidates (chunk_candidates ms nls context) ≡ ms)
      × All IsCovering (chunk_candidates ms nls context)
      × All (HasLines nls) (chunk_candidates ms nls context)
      × IsApart context (chunk_candidates ms nls context)
unfolding chunk_candidates
chunk_candidates-flatten nls context [] file small sorted solid = (refl, tt, tt, tt)
chunk_candidates-flatten nls context (m ∷ ms) file small sorted solid =
    let made =
      chunks_from-Chunked nls context m.byte_offset (new_chunk nls m) ms file small
        ((omega arith, omega arith), tt) (new_chunk-HasLines nls m file small solid.0) (omega arith)
        sorted.1 solid.1 in
    (made.flat, made.covering, made.lines, made.apart)
