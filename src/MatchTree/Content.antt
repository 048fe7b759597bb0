-- ===== src/MatchTree/Content.antt =====
-- Candidate matches (index/matchiter.go), the bytes that they are compared with, and the search for
-- words (index/matchtree.go). Bytes are numbers below 256.
use zoekt.Prelude.{
  ℕ, zero, suc, ◌+◌, ◌-◌, ◌%◌, ◌^◌, ltb, leb, ◌==◌, ◌&&◌, ◌||◌, if◌then◌else◌, Bool, true, false,
}
use zoekt.Prelude.{List, [], ◌∷◌, length, take, drop, get_elem?, Option, none, some}
use zoekt.Outcome.{Outcome, ok, panic, diverges, ◌>>=◌}

-- A Go slice of bytes: its length, and the bytes up to its capacity.
pub record Slice : Type 0 where
  pub bytes : List ℕ
  pub len : ℕ

abbrev pub contents : Slice → List ℕ
contents s = take s.len s.bytes

-- What the match tree uses of libraries: `utf8.DecodeRune` (the rune and its size),
-- `unicode.ToLower` and, for the compiled expressions by number, `FindAllIndex` without a limit.
pub record Libraries : Type 0 where
  pub decode_rune : List ℕ → ℕ × ℕ
  pub to_lower : ℕ → ℕ
  pub find_all_index : ℕ → List ℕ → List (ℕ × ℕ)

-- What the content provider says of the document at hand: its number, its name (`true`) or content
-- (`false`), and the byte offset of a rune.
pub record ContentProvider : Type 0 where
  pub idx : ℕ
  pub content_of : Bool → Slice
  pub find_offset : Bool → ℕ → ℕ

pub record CandidateMatch : Type 0 where
  pub substr_bytes : List ℕ
  pub substr_lowered : List ℕ
  pub rune_offset : ℕ
  pub byte_offset : ℕ
  pub byte_match_sz : ℕ
  pub case_sensitive : Bool
  pub file_name : Bool

abbrev pub bytes_equal : List ℕ → List ℕ → Bool
bytes_equal [] [] = true
bytes_equal [] (y ∷ ys) = false
bytes_equal (x ∷ xs) [] = false
bytes_equal (x ∷ xs) (y ∷ ys) = x == y && bytes_equal xs ys

-- `s[a:b]`, which may reach beyond the length up to the capacity.
unfoldable pub slice : Slice → ℕ → ℕ → Outcome (List ℕ)
slice s a b =
    if leb a b && leb b (length s.bytes) then ok (take (b - a) (drop a s.bytes)) else panic

-- `s[a:]`
unfoldable pub slice_from : Slice → ℕ → Outcome (List ℕ)
slice_from s a = if leb a s.len then ok (drop a (contents s)) else panic

-- The loop of `caseFoldingEqualsRunes`. A rune takes a byte at least, so the length of `lower` is
-- enough fuel.
unfoldable pub case_folding_loop : Libraries → ℕ → List ℕ → List ℕ → ℕ → Outcome (ℕ × Bool)
case_folding_loop e fuel [] mixed total = ok (total, true)
case_folding_loop e fuel (l ∷ ls) [] total = ok (total, false)
case_folding_loop e zero (l ∷ ls) (m ∷ ms) total = diverges
case_folding_loop e (suc fuel) (l ∷ ls) (m ∷ ms) total =
    let lower = e.decode_rune (l ∷ ls) in
    let mixed = e.decode_rune (m ∷ ms) in
    let more =
      case_folding_loop e fuel (drop lower.1 (l ∷ ls)) (drop mixed.1 (m ∷ ms)) (total + mixed.1) in
    if lower.0 == e.to_lower mixed.0 then more else ok (0, false)

unfoldable pub case_folding_equals_runes : Libraries → List ℕ → List ℕ → Outcome (ℕ × Bool)
unfolding case_folding_loop
case_folding_equals_runes e lower mixed = case_folding_loop e (length lower) lower mixed 0

-- `matchContent`: the answer, and the candidate with its size.
unfoldable pub match_content : Libraries → CandidateMatch → Slice → Outcome (Bool × CandidateMatch)
unfolding slice slice_from case_folding_equals_runes
match_content e m content =
    if m.case_sensitive
    then (slice content m.byte_offset ((m.byte_offset + length m.substr_bytes) % 2 ^ 32) >>= λ part.
        ok (bytes_equal m.substr_bytes part, record m { byte_match_sz = length m.substr_bytes }))
    else (slice_from content m.byte_offset >>= λ rest.
        case_folding_equals_runes e m.substr_lowered rest >>= λ r.
        ok (r.1, record m { byte_match_sz = r.0 }))

-- `characterClass`
abbrev pub character_class : ℕ → Bool
character_class c =
    (leb b'a' c && leb c b'z')
    || (leb b'A' c && leb c b'Z')
    || (leb b'0' c && leb c b'9')
    || c == b'_'

abbrev pub is_prefix : List ℕ → List ℕ → Bool
is_prefix [] ys = true
is_prefix (x ∷ xs) [] = false
is_prefix (x ∷ xs) (y ∷ ys) = x == y && is_prefix xs ys

-- `bytes.Index`, with `none` for -1.
unfoldable pub index_of : List ℕ → List ℕ → Option ℕ
index_of word [] = if is_prefix word [] then some 0 else none
index_of word (y ∷ ys) =
    if is_prefix word (y ∷ ys)
    then some 0
    else elim (index_of word ys) [ some i ↦ some (suc i) | none ↦ none ]

-- Whether the byte before the offset `i`, and the byte at it, are outside a word.
abbrev pub start_boundary : List ℕ → ℕ → Bool
start_boundary text zero = ltb 0 (length text)
start_boundary text (suc i) =
    ltb (suc i) (length text)
    && elim (get_elem? text i) [ some c ↦ if character_class c then false else true | none ↦ true ]

abbrev pub end_boundary : List ℕ → ℕ → Bool
end_boundary text i =
    ltb 0 i
    && (i == length text || elim (get_elem? text i) [
      | some c ↦ if character_class c then false else true
      | none ↦ true
    ])

abbrev pub found_at : ℕ → ℕ → Bool → CandidateMatch
found_at offset size file_name = record {
  substr_bytes = [];
  substr_lowered = [];
  rune_offset = 0;
  byte_offset = offset % 2 ^ 32;
  byte_match_sz = size % 2 ^ 32;
  case_sensitive = false;
  file_name = file_name;
}

-- The loop of `wordMatchTree.matches` at an offset. An empty word would be found again and again.
unfoldable pub word_loop : ℕ → List ℕ → List ℕ → Bool → ℕ → Outcome (List CandidateMatch)
unfolding index_of
word_loop zero word text file_name offset = diverges
word_loop (suc fuel) word text file_name offset = elim (index_of word (drop offset text)) [
  | none ↦ ok []
  | some idx ↦
      let start = offset + idx in
      let stop = start + length word in
      word_loop fuel word text file_name stop >>= λ found. ok (
        if start_boundary text start && end_boundary text stop
        then found_at start (length word) file_name ∷ found
        else found)
]
