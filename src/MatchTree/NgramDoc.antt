-- ===== src/MatchTree/NgramDoc.antt =====
-- `ngramDocIterator` of index/matchiter.go: the hits of a hit iterator, document by document, and
-- `ngramIterationResults` of index/indexdata.go around it. Offsets are uint32, in runes from the
-- start of the shard; `ends` are the offsets at which the documents end.
pub mod FileIndex
pub mod InFile
pub mod Lawful
pub mod Results
mod Examples
use zoekt.Prelude.{
  ℕ, zero, suc, ◌+◌, ◌-◌, ◌*◌, ◌/◌, ◌%◌, ◌^◌, ltb, leb, ◌==◌, ◌&&◌, ◌||◌, if◌then◌else◌, Bool, true,
  false,
}
use zoekt.Prelude.{List, [], ◌∷◌, length, map, get_elem?, Option, none, some}
use zoekt.Outcome.{Outcome, ok, panic, diverges, ◌>>=◌}
use zoekt.Hits.{HitIterator}
use zoekt.Hits.Lists.{max_u32}
use zoekt.MatchTree.Content.{CandidateMatch}
use zoekt.MatchTree.Docs.{MatchIterator}

-- `ends[i]`, which `nextFileIndex` reads within bounds only.
abbrev pub end_at : List ℕ → ℕ → ℕ
end_at [] i = 0
end_at (p ∷ ps) zero = p
end_at (p ∷ ps) (suc i) = end_at ps i

-- `f < len(ends) && ends[f] <= offset`
abbrev pub ends_before : List ℕ → ℕ → ℕ → Bool
ends_before ends offset f = ltb f (length ends) && leb (end_at ends f) offset

-- The loop of `nextFileIndex`. A round that moves `f` takes from the first fuel, and gives the
-- second one anew for the rounds in which `d` shrinks.
unfoldable pub next_file_loop : ℕ → ℕ → List ℕ → ℕ → ℕ → ℕ → Outcome ℕ
next_file_loop zero shrink ends offset f d = diverges
next_file_loop (suc move) zero ends offset f d = diverges
next_file_loop (suc move) (suc shrink) ends offset f d =
    let jump =
      next_file_loop move (suc (d * 2 % 2 ^ 32)) ends offset ((f + d) % 2 ^ 32) (d * 2 % 2 ^ 32) in
    let slower = next_file_loop (suc move) shrink ends offset f (d / 4 + 1) in
    let step = next_file_loop move (suc d) ends offset (f + 1) d in
    if ends_before ends offset f
    then (if ends_before ends offset ((f + d) % 2 ^ 32)
        then jump
        else if ltb 1 d
        then slower
        else step)
    else ok f

unfoldable pub next_file_index : ℕ → ℕ → List ℕ → Outcome ℕ
unfolding next_file_loop
next_file_index offset f ends = next_file_loop (suc (length ends)) 2 ends offset f 1

pub record NgramDocIterator (S : Type 0) : Type 0 where
  pub left_pad : ℕ
  pub right_pad : ℕ
  pub iter : S
  pub ends : List ℕ
  pub file_idx : ℕ
  pub match_count : ℕ

abbrev pub candidate : ℕ → CandidateMatch
candidate rune_offset = record {
  substr_bytes = [];
  substr_lowered = [];
  rune_offset = rune_offset;
  byte_offset = 0;
  byte_match_sz = 0;
  case_sensitive = false;
  file_name = false;
}

-- `ends[i-1]`, and 0 for the first document.
abbrev pub file_start : List ℕ → ℕ → Outcome ℕ
file_start ends zero = ok 0
file_start ends (suc i) = elim (get_elem? ends i) [ some p ↦ ok p | none ↦ panic ]

module _ {S : Type 0} (it : HitIterator S) where
  unfoldable pub next_doc_of : NgramDocIterator S → Outcome (ℕ × NgramDocIterator S)
  unfolding next_file_index
  next_doc_of i = do
    (p, s) ← it.first i.iter
    f ← next_file_index p i.file_idx i.ends
    ok (if leb (length i.ends) f then max_u32 else f, record i { iter = s; file_idx = f })

  unfoldable pub prepare_for : ℕ → NgramDocIterator S → Outcome (NgramDocIterator S)
  prepare_for d i = do
    start ← file_start i.ends d
    s ←
        (if ltb 0 start
          then it.next ((start + i.left_pad + 2 ^ 32 - 1) % 2 ^ 32) i.iter
          else ok i.iter)
    ok (record i { iter = s; file_idx = d })

  -- The loop of `candidates`. Each round that goes on drops a hit.
  unfoldable pub candidates_loop : ℕ → ℕ → ℕ → ℕ → ℕ → S → Outcome (List CandidateMatch × S)
  candidates_loop zero left_pad right_pad start stop s = diverges
  candidates_loop (suc fuel) left_pad right_pad start stop s = it.first s >>= λ r.
      let p = r.0 in
      let more = it.next p r.1 >>= λ s2.
      candidates_loop fuel left_pad right_pad start stop s2 >>= λ rest. ok (
        if ltb p ((left_pad + start) % 2 ^ 32) || ltb stop ((p + right_pad) % 2 ^ 32)
        then rest
        else (candidate ((p + 2 ^ 32 + 2 ^ 32 - start - left_pad) % 2 ^ 32) ∷ rest.0, rest.1)) in
      if p == max_u32 || leb stop p then ok ([], r.1) else more

  unfoldable pub candidates_in :
      NgramDocIterator S → ℕ → ℕ → Outcome (List CandidateMatch × NgramDocIterator S)
  unfolding candidates_loop
  candidates_in i start stop = do
    (cs, s) ← candidates_loop (2 ^ 33) i.left_pad i.right_pad start stop i.iter
    ok (cs, record i { iter = s; match_count = i.match_count + length cs })

  unfoldable pub candidates_of :
      NgramDocIterator S → Outcome (List CandidateMatch × NgramDocIterator S)
  candidates_of i =
      if leb (length i.ends) i.file_idx
      then ok ([], i)
      else (file_start i.ends i.file_idx >>= λ start.
          candidates_in i start (end_at i.ends i.file_idx))

  abbrev pub ngram_doc_iterator : MatchIterator (NgramDocIterator S)
  ngram_doc_iterator = record {
    next_doc_of = next_doc_of;
    prepare_for = prepare_for;
    candidates_of = candidates_of;
  }

-- `ngramIterationResults`: the candidates get the pattern's bytes.
pub record NgramIterationResults : Type 0 where
  pub case_sensitive : Bool
  pub file_name : Bool
  pub substr_bytes : List ℕ
  pub substr_lowered : List ℕ

abbrev pub with_pattern : NgramIterationResults → CandidateMatch → CandidateMatch
with_pattern r c = record c {
  case_sensitive = r.case_sensitive;
  file_name = r.file_name;
  substr_bytes = r.substr_bytes;
  substr_lowered = r.substr_lowered;
}

abbrev pub ngram_iteration_results :
    {I : Type 0} → NgramIterationResults → MatchIterator I → MatchIterator I
ngram_iteration_results r it = record {
  next_doc_of = it.next_doc_of;
  prepare_for = it.prepare_for;
  candidates_of = λ i. it.candidates_of i >>= λ c. ok (map (with_pattern r) c.0, c.1);
}
