-- ===== src/Limit/Cut.antt =====
-- A chunk cut to a limit: the content loses the lines behind the last range kept.
use zoekt.Prelude.{
  ℕ, zero, suc, ◌+◌, ◌-◌, ◌%◌, ◌^◌, ◌≤◌, ◌<◌, ltb, ◌==◌, if◌then◌else◌, Bool, true, false,
}
use zoekt.Prelude.{List, [], ◌∷◌, length, take, get_elem?, ◌≡◌, refl, sym, arith}
use zoekt.Prelude.{lt→ltb, le→ltb_false, leb, le→leb, if_true, Option, none, some}
use native.Mathlib.Decide.{dec_lt}
use zoekt.Outcome.{ok}
use zoekt.Limit.{
  Range, SymbolSlice, ChunkMatch, is_line_end, drop_lines, end_line, cut_symbols, cut_chunk,
}
use zoekt.Limit.Take.{take_all}

-- The line ends among the first `b` bytes.
abbrev line_ends : List ℕ → ℕ → ℕ
line_ends content zero = 0
line_ends content (suc b) = line_ends content b + (if is_line_end content b then 1 else 0)

-- The ranges end on lines that ascend from `lo` to `hi`.
abbrev Ends : ℕ → ℕ → List Range → Type 0
Ends lo hi [] = Unit {0}
Ends lo hi (r ∷ rs) =
    (lo ≤ r.end.line_number) × (r.end.line_number ≤ hi) × Ends r.end.line_number hi rs

-- Where there are symbols, there is one for each of `n` ranges, within the slice's capacity.
abbrev pub HasSymbols : ℕ → Option SymbolSlice → Type 0
HasSymbols n none = Unit {0}
HasSymbols n (some s) = (s.len ≡ n) × (s.len ≤ length s.entries)

-- The ranges end on ascending lines, and the content has a line end between any two of these; there
-- are no symbols or as many as ranges.
abbrev pub IsChunk : ChunkMatch → Type 0
IsChunk cm =
    (lo : ℕ) × Ends lo (lo + line_ends cm.content (length cm.content)) cm.ranges
    × (lo + line_ends cm.content (length cm.content) < 2 ^ 32)
    × HasSymbols (length cm.ranges) cm.symbol_info

-- Two ranges in their places.
record Two (lo hi : ℕ) (rs : List Range) (i j : ℕ) : Type 0 where
  r : Range
  s : Range
  at_i : get_elem? rs i ≡ some r
  at_j : get_elem? rs j ≡ some s
  low : lo ≤ r.end.line_number
  between : r.end.line_number ≤ s.end.line_number
  high : s.end.line_number ≤ hi

two :
    (lo hi : ℕ) (rs : List Range) (i j : ℕ)
    → Ends lo hi rs
    → i ≤ j
    → j < length rs
    → Two lo hi rs i j
two lo hi [] i j e h k = absurd (omega arith)
two lo hi (r ∷ rs) zero zero e h k = record {
  r = r;
  s = r;
  at_i = refl;
  at_j = refl;
  low = e.0;
  between = omega arith;
  high = e.1;
}
two lo hi (r ∷ rs) zero (suc j) e h k =
    let t = two r.end.line_number hi rs j j e.2 (omega arith) (omega arith) in
    let low = t.low in
    let between = t.between in
    record {
      r = r;
      s = t.s;
      at_i = refl;
      at_j = t.at_j;
      low = e.0;
      between = omega arith;
      high = t.high;
    }
two lo hi (r ∷ rs) (suc i) zero e h k = absurd (omega arith)
two lo hi (r ∷ rs) (suc i) (suc j) e h k =
    let t = two r.end.line_number hi rs i j e.2 (omega arith) (omega arith) in
    let low = t.low in
    let start = e.0 in
    record {
      r = t.r;
      s = t.s;
      at_i = t.at_i;
      at_j = t.at_j;
      low = omega arith;
      between = t.between;
      high = t.high;
    }

-- The loop below the byte before `b`, and one round of it.
abbrev Ended : List ℕ → ℕ → Type 0
Ended content b =
    (m : ℕ) → 0 < m → m ≤ line_ends content b → (rest : List ℕ) × (drop_lines content m b ≡ ok rest)

go_on :
    (content : List ℕ) (b m : ℕ)
    → Ended content b
    → m ≤ line_ends content b
    → (rest : List ℕ) × ((if m == 0 then ok (take b content) else drop_lines content m b) ≡ ok rest)
go_on content b zero later l = (take b content, refl)
go_on content b (suc m) later l =
    let (rest, p) = later (suc m) (omega arith) l in
    let more : (suc m == 0) ≡ false = ground arith in (rest, rw more p)

round :
    (content : List ℕ) (b n : ℕ) (t : Bool)
    → Ended content b
    → n ≤ line_ends content b + (if t then 1 else 0)
    → (rest : List ℕ) × ((let n' = if t then n - 1 else n in
          if n' == 0 then ok (take b content) else drop_lines content n' b)
        ≡ ok rest)
round content b n true later l = go_on content b (n - 1) later (omega arith)
round content b n false later l = go_on content b n later (omega arith)

drop_lines_total : (content : List ℕ) (b : ℕ) → Ended content b
unfolding drop_lines
drop_lines_total content zero n h k = absurd (omega arith)
drop_lines_total content (suc b) n h k =
    round content b n (is_line_end content b) (drop_lines_total content b) k

shrink :
    (content : List ℕ) (n : ℕ)
    → n ≤ line_ends content (length content)
    → (rest : List ℕ) × ((if ltb 0 n then drop_lines content n (length content) else ok content)
        ≡ ok rest)
shrink content n h = elim (dec_lt 0 n) [
  | yes l ↦
      let (rest, p) = drop_lines_total content (length content) n l h in (rest, rw (lt→ltb 0 n l) p)
  | no l ↦ (content, rw (le→ltb_false 0 n (omega arith)) refl)
]

distance_few :
    (lo new old k : ℕ)
    → lo ≤ new
    → new ≤ old
    → old ≤ lo + k
    → lo + k < 2 ^ 32
    → (old + 2 ^ 32 - new) % 2 ^ 32 ≤ k
distance_few lo new old k a b c d = omega arith

end_line_lem :
    (rs : List Range) (i : ℕ) (r : Range)
    → get_elem? rs i ≡ some r
    → end_line rs i ≡ ok r.end.line_number
unfolding end_line
end_line_lem rs i r e = rw (end_line, e) refl

abbrev first_symbols : ℕ → Option SymbolSlice → Option SymbolSlice
first_symbols limit none = none
first_symbols limit (some s) = some (record s { len = limit })

cut_symbols_lem :
    (limit n : ℕ) (o : Option SymbolSlice)
    → HasSymbols n o
    → limit < n
    → cut_symbols limit o ≡ ok (first_symbols limit o)
unfolding cut_symbols
cut_symbols_lem limit n none w h = refl
cut_symbols_lem limit n (some s) (e, c) h =
    if_true (leb limit (length s.entries)) _ _ (le→leb _ _ (omega arith))

abbrev cut_to : ℕ → ChunkMatch → List ℕ → ChunkMatch
cut_to limit cm rest = record {
  content = rest;
  ranges = take limit cm.ranges;
  symbol_info = first_symbols limit cm.symbol_info;
}

cut_chunk-cut_to :
    (last old new : ℕ) (cm : ChunkMatch) (rest : List ℕ)
    → end_line cm.ranges (length cm.ranges - 1) ≡ ok old
    → end_line cm.ranges last ≡ ok new
    → (let n = (old + 2 ^ 32 - new) % 2 ^ 32 in
        if ltb 0 n then drop_lines cm.content n (length cm.content) else ok cm.content)
      ≡ ok rest
    → cut_symbols (suc last) cm.symbol_info ≡ ok (first_symbols (suc last) cm.symbol_info)
    → cut_chunk (suc last) cm ≡ ok (cut_to (suc last) cm rest)
unfolding cut_chunk
cut_chunk-cut_to last old new cm rest p q r s = rw (p, q, r, s) refl

cut_chunk_lem :
    (limit : ℕ) (cm : ChunkMatch)
    → IsChunk cm
    → 0 < limit
    → limit < length cm.ranges
    → (cut : ChunkMatch) × (cut_chunk limit cm ≡ ok cut) × (cut.ranges ≡ take limit cm.ranges)
cut_chunk_lem zero cm w h k = absurd (omega arith)
cut_chunk_lem (suc last) cm (lo, e, small, symbols) h k =
    let t = two lo _ cm.ranges last (length cm.ranges - 1) e (omega arith) (omega arith) in
    let old = t.s.end.line_number in
    let new = t.r.end.line_number in
    let few =
      distance_few lo new old (line_ends cm.content (length cm.content)) t.low t.between t.high
        small in
    let (rest, p) = shrink cm.content ((old + 2 ^ 32 - new) % 2 ^ 32) few in
    (
      cut_to (suc last) cm rest,
      cut_chunk-cut_to last old new cm rest (end_line_lem _ _ t.s t.at_j)
          (end_line_lem _ _ t.r t.at_i) p (cut_symbols_lem (suc last) _ cm.symbol_info symbols k),
      refl,
    )

-- A chunk within the loop of `limitChunkMatches`.
pub cut_lem :
    (limit : ℕ) (cm : ChunkMatch)
    → IsChunk cm
    → 0 < limit
    → (cut : ChunkMatch) × ((if ltb limit (length cm.ranges) then cut_chunk limit cm else ok cm)
        ≡ ok cut)
      × (cut.ranges ≡ take limit cm.ranges)
cut_lem limit cm w h = elim (dec_lt limit (length cm.ranges)) [
  | yes l ↦ let (cut, p, e) = cut_chunk_lem limit cm w h l in (cut, rw (lt→ltb _ _ l) p, e)
  | no l ↦ (
    cm,
    rw (le→ltb_false limit (length cm.ranges) (omega arith)) refl,
    sym (take_all limit cm.ranges (omega arith)),
  )
]
