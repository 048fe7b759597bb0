-- ===== src/Limit/Take.antt =====
-- Prefixes of concatenated lists.
use zoekt.Prelude.{
  ℕ, zero, suc, ◌-◌, ◌≤◌, List, [], ◌∷◌, ◌++◌, length, take, length-take, length-append, ◌≡◌, refl,
  sym, ap, ◌∙◌, arith,
}

module _ {ℓ} {A : Type ℓ} where
  pub take-append :
      (n : ℕ) (xs ys : List A) → take n (xs ++ ys) ≡ take n xs ++ take (n - length xs) ys
  take-append zero xs ys = rw (none (length xs)) refl
    where
      none : (k : ℕ) → take (zero - k) ys ≡ []
      none k = let e : zero - k ≡ zero = omega arith in ap (λ m. take m ys) e
  take-append (suc n) [] ys = let e : suc n - 0 ≡ suc n = omega arith in ap (λ m. take m ys) (sym e)
  take-append (suc n) (x ∷ xs) ys =
      let e : suc n - suc (length xs) ≡ n - length xs = omega arith in
      ap (◌∷◌ x) (take-append n xs ys ∙ ap (λ m. take n xs ++ take m ys) (sym e))

  pub take_all : (n : ℕ) (xs : List A) → length xs ≤ n → take n xs ≡ xs
  take_all zero [] h = refl
  take_all zero (x ∷ xs) h = absurd (omega arith)
  take_all (suc n) [] h = refl
  take_all (suc n) (x ∷ xs) h = ap (◌∷◌ x) (take_all n xs (omega arith))

  -- A prefix that is full ends there, and another one goes on with what is left.
  pub take_full :
      (n : ℕ) (xs ys : List A)
      → length (take n xs) ≡ n
      → (take n xs ++ [] ≡ take n (xs ++ ys)) × (0 ≡ n - length (xs ++ ys))
  take_full n xs ys h =
      let l = length-take n xs in
      let a = length-append xs ys in
      let e : n - length xs ≡ 0 = omega arith in
      (sym (take-append n xs ys ∙ ap (λ m. take n xs ++ take m ys) e), omega arith)

  pub take_short :
      (n : ℕ) (xs ys : List A)
      → (take n xs ++ take (n - length (take n xs)) ys ≡ take n (xs ++ ys))
        × (n - length (take n xs) - length ys ≡ n - length (xs ++ ys))
  take_short n xs ys =
      let l = length-take n xs in
      let a = length-append xs ys in
      let e : n - length xs ≡ n - length (take n xs) = omega arith in
      (sym (take-append n xs ys ∙ ap (λ m. take n xs ++ take m ys) e), omega arith)

-- The elements of all parts.
module _ {ℓ κ} {A : Type ℓ} {X : Type κ} (parts : A → List X) where
  abbrev pub all_of : List A → List X
  all_of [] = []
  all_of (a ∷ as') = parts a ++ all_of as'
