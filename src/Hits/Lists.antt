-- ===== src/Hits/Lists.antt =====
-- Ascending lists of hits, the specification of the iterators.
use zoekt.Prelude.{ℕ, suc, ◌+◌, ◌≤◌, ◌<◌, leb, if◌then◌else◌, if_cases}
use zoekt.Prelude.{leb→le, le→leb, leb-false→lt}
use zoekt.Prelude.{List, [], ◌∷◌, length, ◌≡◌, refl, arith}

-- `math.MaxUint32`
abbrev pub max_u32 : ℕ
max_u32 = 4294967295

-- Strictly ascending, from `lo` on, and below math.MaxUint32.
abbrev pub Above : ℕ → List ℕ → Type 0
Above lo [] = Unit {0}
Above lo (p ∷ ps) = (lo ≤ p) × (p < max_u32) × Above (p + 1) ps

abbrev pub IsHits : List ℕ → Type 0
IsHits ps = Above 0 ps

abbrev pub head_or_max : List ℕ → ℕ
head_or_max [] = max_u32
head_or_max (p ∷ ps) = p

unfoldable pub drop_through : ℕ → List ℕ → List ℕ
drop_through limit [] = []
drop_through limit (p ∷ ps) =
    let rest = drop_through limit ps in if leb p limit then rest else p ∷ ps

pub Above-weaken : (lo lo' : ℕ) (ps : List ℕ) → lo' ≤ lo → Above lo ps → Above lo' ps
Above-weaken lo lo' [] h a = tt
Above-weaken lo lo' (p ∷ ps) h a = (omega arith, a.1, a.2)

pub drop_through_le :
    (limit p : ℕ) (ps : List ℕ) → p ≤ limit → drop_through limit (p ∷ ps) ≡ drop_through limit ps
unfolding drop_through
drop_through_le limit p ps h = rw (le→leb _ _ h)

-- Nothing is dropped from a list that begins behind the limit.
pub drop_through_behind :
    (limit lo : ℕ) (ps : List ℕ) → limit < lo → Above lo ps → drop_through limit ps ≡ ps
unfolding drop_through
drop_through_behind limit lo [] h a = refl
drop_through_behind limit lo (p ∷ ps) h a =
    if_cases (λ x. x ≡ p ∷ ps) (leb p limit) _ _
      (λ e. let l = leb→le _ _ e in let g = a.0 in absurd (omega arith)) (λ e. refl)

-- What is left lies behind the limit.
pub drop_through-Above :
    (limit lo : ℕ) (ps : List ℕ)
    → Above lo ps
    → Above (limit + 1) (drop_through limit ps) × Above lo (drop_through limit ps)
unfolding drop_through
drop_through-Above limit lo [] a = (tt, tt)
drop_through-Above limit lo (p ∷ ps) a =
    if_cases (λ x. Above (limit + 1) x × Above lo x) (leb p limit) _ _
      (λ e.
        let (b, c) = drop_through-Above limit (p + 1) ps a.2 in
        (b, Above-weaken (p + 1) lo _ (let g = a.0 in omega arith) c))
      (λ e. let l = leb-false→lt _ _ e in ((omega arith, a.1, a.2), a))

pub drop_through-IsHits : (limit : ℕ) (ps : List ℕ) → IsHits ps → IsHits (drop_through limit ps)
drop_through-IsHits limit ps a = (drop_through-Above limit 0 ps a).1

-- Above math.MaxUint32 there is no hit.
pub Above-max : (lo : ℕ) (ps : List ℕ) → max_u32 ≤ lo → Above lo ps → ps ≡ []
Above-max lo [] h a = refl
Above-max lo (p ∷ ps) h a = absurd (let g = a.0 in let k = a.1 in omega arith)

pub drop_through_max :
    (limit : ℕ) (ps : List ℕ) → max_u32 ≤ limit → IsHits ps → drop_through limit ps ≡ []
drop_through_max limit ps h a =
    Above-max (limit + 1) _ (omega arith) (drop_through-Above limit 0 ps a).0

-- There are fewer than 2 ^ 32 hits.
pub length-Above : (lo : ℕ) (ps : List ℕ) → lo ≤ max_u32 → Above lo ps → length ps + lo ≤ max_u32
length-Above lo [] h a = omega arith
length-Above lo (p ∷ ps) h a =
    let r = length-Above (p + 1) ps (omega arith) a.2 in let g = a.0 in omega arith

pub length-drop_through : (limit : ℕ) (ps : List ℕ) → length (drop_through limit ps) ≤ length ps
unfolding drop_through
length-drop_through limit [] = omega arith
length-drop_through limit (p ∷ ps) =
    if_cases (λ x. length x ≤ suc (length ps)) (leb p limit) (drop_through limit ps) (p ∷ ps)
      (λ e. let r = length-drop_through limit ps in omega arith) (λ e. omega arith)
