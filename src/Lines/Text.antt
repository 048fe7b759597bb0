-- ===== src/Lines/Text.antt =====
-- The lines of a text (index/contentprovider.go).
use zoekt.Prelude.{
  ℕ, zero, suc, ◌+◌, ◌-◌, ◌^◌, ◌≤◌, ◌<◌, ◌==◌, ◌&&◌, leb, le→leb, leb→le, leb-false→lt, if_true,
  if_false, if_cases, Bool-cases, inl, inr, if◌then◌else◌,
}
use zoekt.Prelude.{
  ◌≡◌, refl, sym, ap, ap₂, ◌∙◌, List, [], ◌∷◌, ◌++◌, append_assoc, length, length-append, take,
  drop, arith,
}
use zoekt.Outcome.{ok}
use zoekt.MatchTree.Content.{slice}
use zoekt.MatchTree.NgramDoc.{end_at}
use zoekt.Lines.{Newlines, line_start, get_lines}

-- A byte in front of the first line.
unfoldable pub in_first : ℕ → List (List ℕ) → List (List ℕ)
in_first x [] = (x ∷ []) ∷ []
in_first x (l ∷ ls) = (x ∷ l) ∷ ls

-- The lines of a text, each with its line end but the last one, which has none and may be empty.
unfoldable pub lines : List ℕ → List (List ℕ)
unfolding in_first
lines [] = [] ∷ []
lines (x ∷ xs) = let ls = lines xs in if x == 10 then (x ∷ []) ∷ ls else in_first x ls

-- The offsets of the line ends of a text that begins at the offset `k`.
unfoldable pub ends_of : ℕ → List ℕ → List ℕ
ends_of k [] = []
ends_of k (x ∷ xs) = let es = ends_of (suc k) xs in if x == 10 then k ∷ es else es

abbrev pub newlines_of : List ℕ → Newlines
newlines_of content = record { locs = ends_of 0 content; file_size = length content }

abbrev pub concat : List (List ℕ) → List ℕ
concat [] = []
concat (l ∷ ls) = l ++ concat ls

-- The bytes of the first lines.
abbrev size : ℕ → List (List ℕ) → ℕ
size i ls = length (concat (take i ls))

take-nil : (n : ℕ) → take {A = List ℕ} n [] ≡ []
take-nil zero = refl
take-nil (suc n) = refl

concat-take-drop :
    (i n : ℕ) (ls : List (List ℕ))
    → concat (take (i + n) ls) ≡ concat (take i ls) ++ concat (take n (drop i ls))
concat-take-drop zero n ls = let e : zero + n ≡ n = omega arith in ap (λ k. concat (take k ls)) e
concat-take-drop (suc i) n [] =
    let e : suc i + n ≡ suc (i + n) = omega arith in
    ap (λ k. concat (take k [])) e ∙ ap concat (sym (take-nil n))
concat-take-drop (suc i) n (l ∷ ls) =
    let e : suc i + n ≡ suc (i + n) = omega arith in
    ap (λ k. concat (take k (l ∷ ls))) e
    ∙ ap (λ r. l ++ r) (concat-take-drop i n ls)
    ∙ sym (append_assoc l (concat (take i ls)) (concat (take n (drop i ls))))

concat-split : (i : ℕ) (ls : List (List ℕ)) → concat ls ≡ concat (take i ls) ++ concat (drop i ls)
concat-split zero ls = refl
concat-split (suc i) [] = refl
concat-split (suc i) (l ∷ ls) =
    ap (λ r. l ++ r) (concat-split i ls)
    ∙ sym (append_assoc l (concat (take i ls)) (concat (drop i ls)))

in_first-concat : (x : ℕ) (ls : List (List ℕ)) → concat (in_first x ls) ≡ x ∷ concat ls
unfolding in_first
in_first-concat x [] = refl
in_first-concat x (l ∷ ls) = refl

concat-lines : (xs : List ℕ) → concat (lines xs) ≡ xs
unfolding lines
concat-lines [] = refl
concat-lines (x ∷ xs) =
    if_cases (λ ls. concat ls ≡ x ∷ xs) (x == 10) _ _ (λ e. ap (λ r. x ∷ r) (concat-lines xs))
      (λ e. in_first-concat x (lines xs) ∙ ap (λ r. x ∷ r) (concat-lines xs))

-- How a text that begins at `k` has its line ends at the sizes of its first lines.
record Marked (k : ℕ) (ls : List (List ℕ)) (es : List ℕ) (n : ℕ) : Type 0 where
  at : (j : ℕ) → j < length es → suc (end_at es j) ≡ k + size (suc j) ls
  behind : (j : ℕ) → length es ≤ j → size (suc j) ls ≡ n
  some_line : 0 < length ls

Marked-cons :
    (k n x : ℕ) (ls : List (List ℕ)) (es : List ℕ)
    → Marked (suc k) ls es n
    → Marked k ((x ∷ []) ∷ ls) (k ∷ es) (suc n)
Marked-cons k n x ls es m = record { at = at_end; behind = behind_end; some_line = omega arith }
  where
    at_end :
        (j : ℕ) → j < suc (length es) → suc (end_at (k ∷ es) j) ≡ k + size (suc j) ((x ∷ []) ∷ ls)
    at_end zero h = omega arith
    at_end (suc j) h = let a = m.at j (omega arith) in omega arith

    behind_end : (j : ℕ) → suc (length es) ≤ j → size (suc j) ((x ∷ []) ∷ ls) ≡ suc n
    behind_end zero h = absurd (omega arith)
    behind_end (suc j) h = ap suc (m.behind j (omega arith))

Marked-in_first :
    (k n x : ℕ) (ls : List (List ℕ)) (es : List ℕ)
    → Marked (suc k) ls es n
    → Marked k (in_first x ls) es (suc n)
unfolding in_first
Marked-in_first k n x [] es m = absurd (let z = m.some_line in omega arith)
Marked-in_first k n x (l ∷ ls) es m = record {
  at = λ j h. let a = m.at j h in omega arith;
  behind = λ j h. ap suc (m.behind j h);
  some_line = omega arith;
}

lines-Marked : (k : ℕ) (xs : List ℕ) → Marked k (lines xs) (ends_of k xs) (length xs)
unfolding lines ends_of
lines-Marked k [] = record {
  at = λ j h. absurd (omega arith);
  behind = λ j h. empty j;
  some_line = omega arith;
}
  where
    empty : (j : ℕ) → size (suc j) ([] ∷ []) ≡ 0
    empty zero = refl
    empty (suc j) = refl
lines-Marked k (x ∷ xs) = elim (Bool-cases (x == 10)) [
  | inl e ↦
      rw e (Marked-cons k (length xs) x (lines xs) (ends_of (suc k) xs) (lines-Marked (suc k) xs))
  | inr e ↦
      rw e
        (Marked-in_first k (length xs) x (lines xs) (ends_of (suc k) xs) (lines-Marked (suc k) xs))
]

size-le : (i : ℕ) (content : List ℕ) → size i (lines content) ≤ length content
size-le i content =
    let e = ap length (concat-split i (lines content)) in
    let f = ap length (concat-lines content) in
    let g = length-append (concat (take i (lines content))) (concat (drop i (lines content))) in
    omega arith

-- Where a line starts: behind the lines in front of it.
line_start-size :
    (content : List ℕ) (i : ℕ)
    → length content < 2 ^ 32
    → line_start (newlines_of content) (suc i) ≡ size i (lines content)
unfolding line_start
line_start-size content zero small = refl
line_start-size content (suc i) small =
    let m = lines-Marked 0 content in
    elim (Bool-cases (leb (length (ends_of 0 content)) i)) [
      | inl e ↦ if_true _ _ _ e ∙ sym (m.behind i (leb→le _ _ e))
      | inr e ↦
          let at = m.at i (leb-false→lt _ _ e) in
          let fits = size-le (suc i) content in if_false _ _ _ e ∙ (let f = fits in omega arith)
    ]

drop-append : (xs ys : List ℕ) → drop (length xs) (xs ++ ys) ≡ ys
drop-append [] ys = refl
drop-append (x ∷ xs) ys = drop-append xs ys

take-append : (xs ys : List ℕ) → take (length xs) (xs ++ ys) ≡ xs
take-append [] ys = refl
take-append (x ∷ xs) ys = ap (λ l. x ∷ l) (take-append xs ys)

-- A slice of the bytes between two parts of a text.
slice_part :
    (xs ys zs bytes : List ℕ) (len a b : ℕ)
    → bytes ≡ xs ++ (ys ++ zs)
    → a ≡ length xs
    → b ≡ length xs + length ys
    → slice (record { bytes = bytes; len = len }) a b ≡ ok ys
unfolding slice
slice_part xs ys zs bytes len a b whole start stop =
    let l = length-append xs (ys ++ zs) in
    let m = length-append ys zs in
    let w = ap length whole in
    let n : b - a ≡ length ys = omega arith in
    if_true (leb a b && leb b (length bytes)) _ _
      (ap₂ (λ x y. x && y) (le→leb a b (omega arith)) (le→leb b (length bytes) (omega arith)))
    ∙ ap₂ (λ k r. ok (take k r)) n (ap₂ (λ k r. drop k r) start whole ∙ drop-append xs (ys ++ zs))
    ∙ ap ok (take-append ys zs)

-- The parts of a text in front of its lines from `i` on, `n` of these, and behind them.
text_parts :
    (content spare : List ℕ) (i n : ℕ)
    → content ++ spare
      ≡ concat (take i (lines content))
        ++ (concat (take n (drop i (lines content)))
            ++ (concat (drop (i + n) (lines content)) ++ spare))
text_parts content spare i n =
    let ls = lines content in
    let x = concat (take i ls) in
    let y = concat (take n (drop i ls)) in
    let z = concat (drop (i + n) ls) in
    ap (λ c. c ++ spare)
      (sym (concat-lines content)
        ∙ concat-split (i + n) ls
        ∙ ap (λ r. r ++ z) (concat-take-drop i n ls))
    ∙ append_assoc (x ++ y) z spare
    ∙ append_assoc x y (z ++ spare)

-- `getLines` does not panic, and gives of the lines of a text, cut behind each line end, those from
-- `low` up to `high`, counted from 1: all of them that the text has, and none where `high` is not
-- above `low`. The line ends are those of the text, whose size fits 32 bits and which stands at the
-- start of the slice's bytes.
pub get_lines-lines :
    (content spare : List ℕ) (len low high : ℕ)
    → length content < 2 ^ 32
    → 1 ≤ low
    → get_lines (newlines_of content) (record { bytes = content ++ spare; len = len }) low high
      ≡ ok (concat (take (high - low) (drop (low - 1) (lines content))))
unfolding get_lines
get_lines-lines content spare len zero high small h = absurd (omega arith)
get_lines-lines content spare len (suc i) high small h =
    let ls = lines content in
    let n = high - suc i in
    let front : suc i - 1 ≡ i = omega arith in
    elim (Bool-cases (leb high (suc i))) [
      | inl e ↦
          let none' : n ≡ 0 = let d = leb→le _ _ e in omega arith in
          if_true _ _ _ e ∙ ap (λ k. ok (concat (take k (drop (suc i - 1) ls)))) (sym none')
      | inr e ↦
          let next : high ≡ suc (i + n) = let d = leb-false→lt _ _ e in omega arith in
          let both = ap length (concat-take-drop i n ls) in
          let sum = length-append (concat (take i ls)) (concat (take n (drop i ls))) in
          if_false _ _ _ e
          ∙ slice_part (concat (take i ls)) (concat (take n (drop i ls)))
              (concat (drop (i + n) ls) ++ spare) (content ++ spare) len _ _
              (text_parts content spare i n) (line_start-size content i small)
              (ap (line_start (newlines_of content)) next
                ∙ line_start-size content (i + n) small
                ∙ both
                ∙ sum)
          ∙ ap (λ k. ok (concat (take n (drop k ls)))) (sym front)
    ]
