-- ===== src/Hits/Distance/Common.antt =====
-- The hits of one ascending list that have a hit of another at distance `d`.
use zoekt.Prelude.{
  ℕ, ◌+◌, ◌^◌, ◌≤◌, ◌<◌, leb, ◌==◌, ◌||◌, if◌then◌else◌, if_cases, List, [], ◌∷◌, Bool, false,
  Bool-cases, inl, inr,
}
use zoekt.Prelude.{leb→le, ◌≡◌, refl, sym, ap, ◌∙◌, arith}
use native.Mathlib.Decide.{dec_lt}
use zoekt.Hits.Lists.{Above, Above-weaken, drop_through, drop_through_le, drop_through_behind}

unfoldable pub elem : ℕ → List ℕ → Bool
elem x [] = false
elem x (y ∷ ys) = x == y || elem x ys

unfoldable pub common : ℕ → List ℕ → List ℕ → List ℕ
unfolding elem
common d [] ys = []
common d (p ∷ ps) ys = let rest = common d ps ys in if elem (p + d) ys then p ∷ rest else rest

-- The distance leads to an offset of 32 bits from each hit.
abbrev pub Fits : ℕ → List ℕ → Type 0
Fits d [] = Unit {0}
Fits d (p ∷ ps) = (p + d < 2 ^ 32) × Fits d ps

pub Fits-drop_through : (d limit : ℕ) (ps : List ℕ) → Fits d ps → Fits d (drop_through limit ps)
unfolding drop_through
Fits-drop_through d limit [] h = tt
Fits-drop_through d limit (p ∷ ps) h =
    if_cases (Fits d) (leb p limit) _ _ (λ e. Fits-drop_through d limit ps h.1) (λ e. h)

elem_below : (x lo : ℕ) (ys : List ℕ) → Above lo ys → x < lo → elem x ys ≡ false
unfolding elem
elem_below x lo [] a h = refl
elem_below x lo (y ∷ ys) a h =
    let r = elem_below x (y + 1) ys a.2 (let g = a.0 in omega arith) in let g = a.0 in ground arith

elem-drop_through :
    (x limit : ℕ) (ys : List ℕ) → limit < x → elem x (drop_through limit ys) ≡ elem x ys
unfolding elem drop_through
elem-drop_through x limit [] h = refl
elem-drop_through x limit (y ∷ ys) h = ground (arith, elem-drop_through x limit ys h)

pub common-Above : (d lo : ℕ) (ps ys : List ℕ) → Above lo ps → Above lo (common d ps ys)
unfolding common
common-Above d lo [] ys a = tt
common-Above d lo (p ∷ ps) ys a =
    let r = common-Above d (p + 1) ps ys a.2 in
    if_cases (Above lo) (elem (p + d) ys) _ _ (λ e. (a.0, a.1, r))
      (λ e. Above-weaken (p + 1) lo _ (let g = a.0 in omega arith) r)

pub common-nil : (d : ℕ) (ps : List ℕ) → common d ps [] ≡ []
unfolding common
common-nil d [] = refl
common-nil d (p ∷ ps) = common-nil d ps

-- Hits of the second list that lie before every shifted hit of the first do not count.
pub common_drop_right :
    (d lo limit : ℕ) (ps ys : List ℕ)
    → Above lo ps
    → limit < lo + d
    → common d ps (drop_through limit ys) ≡ common d ps ys
unfolding common
common_drop_right d lo limit [] ys a h = refl
common_drop_right d lo limit (p ∷ ps) ys a h =
    let g = a.0 in
    rw (
      elem-drop_through (p + d) limit ys (omega arith),
      common_drop_right d (p + 1) limit ps ys a.2 (omega arith),
    )

-- Hits of the first list that lie, shifted, before the second do not count.
pub common_drop_left :
    (d lo limit : ℕ) (ps ys : List ℕ)
    → Above lo ys
    → limit + d < lo
    → common d (drop_through limit ps) ys ≡ common d ps ys
unfolding common drop_through
common_drop_left d lo limit [] ys a h = refl
common_drop_left d lo limit (p ∷ ps) ys a h = elim (Bool-cases (leb p limit)) [
  | inl e ↦
      let l = leb→le _ _ e in
      rw (e, elem_below (p + d) lo ys a (omega arith)) (common_drop_left d lo limit ps ys a h)
  | inr e ↦ rw e
]

pub drop_through-common :
    (d lo limit : ℕ) (ps ys : List ℕ)
    → Above lo ps
    → drop_through limit (common d ps ys) ≡ common d (drop_through limit ps) ys
drop_through-common d lo limit [] ys a = unfold common drop_through in refl
drop_through-common d lo limit (p ∷ ps) ys a = elim (dec_lt limit p) [
  | yes h ↦
      let a' : Above p (p ∷ ps) = (omega arith, a.1, a.2) in
      drop_through_behind limit p (common d (p ∷ ps) ys) h (common-Above d p (p ∷ ps) ys a')
      ∙ ap (λ l. common d l ys) (sym (drop_through_behind limit p (p ∷ ps) h a'))
  | no h ↦
      let le : p ≤ limit = omega arith in
      skip p le
      ∙ drop_through-common d (p + 1) limit ps ys a.2
      ∙ ap (λ l. common d l ys) (sym (drop_through_le limit p ps le))
]
  where
    skip :
        (q : ℕ)
        → q ≤ limit
        → drop_through limit (common d (q ∷ ps) ys) ≡ drop_through limit (common d ps ys)
    skip q le =
        unfold common in
        if_cases (λ l. drop_through limit l ≡ drop_through limit (common d ps ys)) (elem (q + d) ys)
          _ _ (λ e. drop_through_le limit q (common d ps ys) le) (λ e. refl)

pub common_match :
    (d p : ℕ) (ps ys : List ℕ) → common d (p ∷ ps) ((p + d) ∷ ys) ≡ p ∷ common d ps ((p + d) ∷ ys)
unfolding common
common_match d p ps ys = ground arith
