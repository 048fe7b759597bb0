-- ===== src/NgramIndex/Encoding.antt =====
-- Big-endian numbers, and lists of them.
use zoekt.Prelude.{
  ℕ, zero, suc, ◌+◌, ◌-◌, ◌*◌, ◌/◌, ◌%◌, ◌≤◌, List, [], ◌∷◌, ◌++◌, length, length-append, take,
  drop, get_elem?, All, some,
}
use zoekt.Prelude.{◌≡◌, refl, sym, ap, ap₂, ◌∙◌, arith}
use native.Mathlib.Nat.{suc-mul, zero-mul}
use zoekt.NgramIndex.{be_uint, section_ngrams}

-- A number in `w` bytes.
abbrev pub big_endian : ℕ → ℕ → List ℕ
big_endian zero n = []
big_endian (suc w) n = big_endian w (n / 256) ++ n % 256 ∷ []

-- The number needs no more bytes.
abbrev pub Fits : ℕ → ℕ → Type 0
Fits zero n = n ≡ 0
Fits (suc w) n = Fits w (n / 256)

pub length-big_endian : (w n : ℕ) → length (big_endian w n) ≡ w
length-big_endian zero n = refl
length-big_endian (suc w) n =
    omega
      (arith, length-append (big_endian w (n / 256)) (n % 256 ∷ []), length-big_endian w (n / 256))

be_uint-snoc : (a : ℕ) (bs : List ℕ) (b : ℕ) → be_uint a (bs ++ b ∷ []) ≡ be_uint a bs * 256 + b
be_uint-snoc a [] b = refl
be_uint-snoc a (c ∷ bs) b = be_uint-snoc (a * 256 + c) bs b

pub be_uint-big_endian : (w n : ℕ) → Fits w n → be_uint 0 (big_endian w n) ≡ n
be_uint-big_endian zero n h = sym h
be_uint-big_endian (suc w) n h =
    be_uint-snoc 0 (big_endian w (n / 256)) (n % 256)
    ∙ ap (λ m. m * 256 + n % 256) (be_uint-big_endian w (n / 256) h)
    ∙ omega arith

abbrev pub encode : ℕ → List ℕ → List ℕ
encode w [] = []
encode w (n ∷ ns) = big_endian w n ++ encode w ns

pub length-encode : (w : ℕ) (ns : List ℕ) → length (encode w ns) ≡ length ns * w
length-encode w [] = sym (zero-mul w)
length-encode w (n ∷ ns) =
    let more = suc-mul (length ns) w in
    omega (
      arith,
      length-append (big_endian w n) (encode w ns),
      length-big_endian w n,
      length-encode w ns,
    )

take-exact : (n : ℕ) (xs ys : List ℕ) → length xs ≡ n → take n (xs ++ ys) ≡ xs
take-exact zero [] ys h = refl
take-exact zero (x ∷ xs) ys h = absurd (omega arith)
take-exact (suc n) [] ys h = absurd (omega arith)
take-exact (suc n) (x ∷ xs) ys h = ap (λ l. x ∷ l) (take-exact n xs ys (omega arith))

drop-more : (n k m : ℕ) (xs ys : List ℕ) → length xs ≡ n → m ≡ n + k → drop m (xs ++ ys) ≡ drop k ys
drop-more n k zero [] ys h e = let e' : 0 ≡ k = omega arith in ap (λ j. drop j ys) e'
drop-more n k (suc m) [] ys h e = let e' : suc m ≡ k = omega arith in ap (λ j. drop j ys) e'
drop-more n k zero (x ∷ xs) ys h e = absurd (omega arith)
drop-more n k (suc m) (x ∷ xs) ys h e = drop-more (n - 1) k m xs ys (omega arith) (omega arith)

-- The number at an index.
pub be_uint-encode :
    (w : ℕ) (ns : List ℕ) (i n : ℕ)
    → All (Fits w) ns
    → get_elem? ns i ≡ some n
    → be_uint 0 (take w (drop (i * w) (encode w ns))) ≡ n
be_uint-encode w [] i n f e = cc
be_uint-encode w (m ∷ ns) zero n f e =
    let same : m ≡ n = cc in
    ap (λ k. be_uint 0 (take w (drop k (big_endian w m ++ encode w ns)))) (zero-mul w)
    ∙ ap (be_uint 0) (take-exact w (big_endian w m) (encode w ns) (length-big_endian w m))
    ∙ be_uint-big_endian w m f.0
    ∙ same
be_uint-encode w (m ∷ ns) (suc i) n f e =
    let more = suc-mul i w in
    ap (λ l. be_uint 0 (take w l))
      (drop-more w (i * w) (suc i * w) (big_endian w m) (encode w ns) (length-big_endian w m)
        (omega arith))
    ∙ be_uint-encode w ns i n f.1 e

-- The ngrams of a section come back.
pub section_ngrams-encode :
    (ns : List ℕ) → All (Fits 8) ns → section_ngrams (length ns) (encode 8 ns) ≡ ns
unfolding section_ngrams
section_ngrams-encode [] f = refl
section_ngrams-encode (n ∷ ns) f =
    ap₂ (λ x xs. x ∷ xs)
      (ap (be_uint 0) (take-exact 8 (big_endian 8 n) (encode 8 ns) (length-big_endian 8 n))
        ∙ be_uint-big_endian 8 n f.0)
      (ap (section_ngrams (length ns))
          (drop-more 8 0 8 (big_endian 8 n) (encode 8 ns) (length-big_endian 8 n) refl)
        ∙ section_ngrams-encode ns f.1)

-- Parts of a part of a list.
pub take-take : (a b : ℕ) (xs : List ℕ) → a ≤ b → take a (take b xs) ≡ take a xs
take-take zero b xs h = refl
take-take (suc a) zero xs h = absurd (omega arith)
take-take (suc a) (suc b) [] h = refl
take-take (suc a) (suc b) (x ∷ xs) h = ap (λ l. x ∷ l) (take-take a b xs (omega arith))

take-nil : (a : ℕ) → take {A = ℕ} a [] ≡ []
take-nil zero = refl
take-nil (suc a) = refl

pub drop-take : (d s : ℕ) (xs : List ℕ) → drop d (take s xs) ≡ take (s - d) (drop d xs)
drop-take zero s xs = let e : s ≡ s - 0 = omega arith in ap (λ j. take j xs) e
drop-take (suc d) zero xs =
    let e : 0 ≡ 0 - suc d = omega arith in ap (λ j. take j (drop (suc d) xs)) e
drop-take (suc d) (suc s) [] = sym (take-nil (suc s - suc d))
drop-take (suc d) (suc s) (x ∷ xs) =
    let e : s - d ≡ suc s - suc d = omega arith in drop-take d s xs ∙ ap (λ j. take j (drop d xs)) e
