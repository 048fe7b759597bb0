-- ===== src/Hits/Merging/Union.antt =====
-- The union of ascending lists.
use zoekt.Prelude.{ℕ, ◌+◌, ◌≤◌, ◌<◌, ltb, if◌then◌else◌, List, [], ◌∷◌}
use zoekt.Prelude.{inl, inr, ◌⊎◌, ◌≡◌, refl, sym, ap, ap₂, ◌∙◌, arith}
use native.Mathlib.Decide.{dec_lt}
use Prim.Native.Nat.{compare, Ordering}
use zoekt.Hits.Lists.{
  Above, Above-weaken, IsHits, head_or_max, drop_through, drop_through_le, drop_through_behind,
}

-- A hit in both lists is taken once.
unfoldable pub union : List ℕ → List ℕ → List ℕ
union [] ys = ys
union (x ∷ xs) [] = x ∷ xs
union (x ∷ xs) (y ∷ ys) = elim (compare x y) [
  | Ordering.lt ↦ x ∷ union xs (y ∷ ys)
  | Ordering.eq ↦ x ∷ union xs ys
  | Ordering.gt ↦ y ∷ union (x ∷ xs) ys
]

abbrev pub lesser : ℕ → ℕ → ℕ
lesser a b = if ltb b a then b else a

pub union-nil : (xs : List ℕ) → union xs [] ≡ xs
unfolding union
union-nil [] = refl
union-nil (x ∷ xs) = refl

pub union_lt : (x y : ℕ) (xs ys : List ℕ) → x < y → union (x ∷ xs) (y ∷ ys) ≡ x ∷ union xs (y ∷ ys)
unfolding union
union_lt x y xs ys h = ground arith

pub union_eq : (x y : ℕ) (xs ys : List ℕ) → x ≡ y → union (x ∷ xs) (y ∷ ys) ≡ x ∷ union xs ys
unfolding union
union_eq x y xs ys h = ground arith

pub union_gt : (x y : ℕ) (xs ys : List ℕ) → y < x → union (x ∷ xs) (y ∷ ys) ≡ y ∷ union (x ∷ xs) ys
unfolding union
union_gt x y xs ys h = ground arith

-- How two numbers compare, with the proof.
trichotomy : (x y : ℕ) → (x < y) ⊎ ((x ≡ y) ⊎ (y < x))
trichotomy x y = elim (dec_lt x y) [
  | yes h ↦ inl h
  | no h ↦ elim (dec_lt y x) [ yes k ↦ inr (inr k) | no k ↦ inr (inl (omega arith)) ]
]

pub union-Above : (lo : ℕ) (xs ys : List ℕ) → Above lo xs → Above lo ys → Above lo (union xs ys)
union-Above lo [] ys ha hb = unfold union in hb
union-Above lo (x ∷ xs) [] ha hb = rw union-nil ha
union-Above lo (x ∷ xs) (y ∷ ys) ha hb = elim (trichotomy x y) [
  | inl h ↦
      rw (union_lt x y xs ys h)
        (ha.0, ha.1, union-Above (x + 1) xs (y ∷ ys) ha.2 (omega arith, hb.1, hb.2))
  | inr (inl h) ↦ rw (union_eq x y xs ys h) (
    ha.0,
    ha.1,
    union-Above (x + 1) xs ys ha.2 (Above-weaken (y + 1) (x + 1) ys (omega arith) hb.2),
  )
  | inr (inr h) ↦
      rw (union_gt x y xs ys h)
        (hb.0, hb.1, union-Above (y + 1) (x ∷ xs) ys (omega arith, ha.1, ha.2) hb.2)
]

pub head-union :
    (xs ys : List ℕ)
    → IsHits xs
    → IsHits ys
    → head_or_max (union xs ys) ≡ lesser (head_or_max xs) (head_or_max ys)
unfolding union
head-union [] [] ha hb = refl
head-union [] (y ∷ ys) ha hb = let small = hb.1 in ground arith
head-union (x ∷ xs) [] ha hb = let small = ha.1 in ground arith
head-union (x ∷ xs) (y ∷ ys) ha hb = ground arith

-- Behind the limit already.
drop_nothing :
    (limit : ℕ) (xs ys : List ℕ)
    → Above (limit + 1) xs
    → Above (limit + 1) ys
    → drop_through limit (union xs ys) ≡ union (drop_through limit xs) (drop_through limit ys)
drop_nothing limit xs ys ha hb =
    rw
      (
        drop_through_behind limit (limit + 1) xs (omega arith) ha,
        drop_through_behind limit (limit + 1) ys (omega arith) hb,
      )
      (drop_through_behind limit (limit + 1) (union xs ys) (omega arith)
        (union-Above (limit + 1) xs ys ha hb))

pub drop_through-union :
    (limit lo : ℕ) (xs ys : List ℕ)
    → Above lo xs
    → Above lo ys
    → drop_through limit (union xs ys) ≡ union (drop_through limit xs) (drop_through limit ys)
drop_through-union limit lo [] ys ha hb = unfold union drop_through in refl
drop_through-union limit lo (x ∷ xs) [] ha hb =
    unfold union drop_through in sym (union-nil (drop_through limit (x ∷ xs)))
drop_through-union limit lo (x ∷ xs) (y ∷ ys) ha hb = elim (trichotomy x y) [
  | inl h ↦ elim (dec_lt limit x) [
    | yes k ↦
        drop_nothing limit (x ∷ xs) (y ∷ ys) (omega arith, ha.1, ha.2) (omega arith, hb.1, hb.2)
    | no k ↦
        let le : x ≤ limit = omega arith in
        ap (drop_through limit) (union_lt x y xs ys h)
        ∙ drop_through_le limit x (union xs (y ∷ ys)) le
        ∙ drop_through-union limit (x + 1) xs (y ∷ ys) ha.2 (omega arith, hb.1, hb.2)
        ∙ ap (λ l. union l (drop_through limit (y ∷ ys))) (sym (drop_through_le limit x xs le))
  ]
  | inr (inl h) ↦ elim (dec_lt limit x) [
    | yes k ↦
        drop_nothing limit (x ∷ xs) (y ∷ ys) (omega arith, ha.1, ha.2) (omega arith, hb.1, hb.2)
    | no k ↦
        let le : x ≤ limit = omega arith in
        let le' : y ≤ limit = omega arith in
        ap (drop_through limit) (union_eq x y xs ys h)
        ∙ drop_through_le limit x (union xs ys) le
        ∙ drop_through-union limit (x + 1) xs ys ha.2
            (Above-weaken (y + 1) (x + 1) ys (omega arith) hb.2)
        ∙ ap₂ union (sym (drop_through_le limit x xs le)) (sym (drop_through_le limit y ys le'))
  ]
  | inr (inr h) ↦ elim (dec_lt limit y) [
    | yes k ↦
        drop_nothing limit (x ∷ xs) (y ∷ ys) (omega arith, ha.1, ha.2) (omega arith, hb.1, hb.2)
    | no k ↦
        let le : y ≤ limit = omega arith in
        ap (drop_through limit) (union_gt x y xs ys h)
        ∙ drop_through_le limit y (union (x ∷ xs) ys) le
        ∙ drop_through-union limit (y + 1) (x ∷ xs) ys (omega arith, ha.1, ha.2) hb.2
        ∙ ap (union (drop_through limit (x ∷ xs))) (sym (drop_through_le limit y ys le))
  ]
]
