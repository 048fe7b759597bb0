-- ===== src/Limit/Matches.antt =====
-- `limitMatches` keeps the first matches of all files.
use zoekt.Prelude.{ℕ, ◌-◌, ◌≤◌, ◌<◌, ◌==◌, true, false, Bool-cases, inl, inr}
use zoekt.Prelude.{
  List, [], ◌∷◌, ◌++◌, length, take, length-append, ◌≡◌, refl, sym, ap, ap₂, ◌∙◌, arith, ==_iff,
  All,
}
use zoekt.Outcome.{Outcome, ok}
use zoekt.Limit.{FileMatch, limit_loop}
use zoekt.Limit.Take.{take-append, take_all, all_of}

-- A limiter keeps the first hits of a good file, and says how many more there may be.
abbrev pub Limits :
    {X : Type 0}
    → (FileMatch → List X)
    → (FileMatch → Type 0)
    → (ℕ → FileMatch → Outcome (FileMatch × ℕ))
    → Type 0
Limits hits Good limiter =
    (limit : ℕ) (file : FileMatch)
    → Good file
    → 0 < limit
    → (cut : FileMatch) × (left : ℕ) × (limiter limit file ≡ ok (cut, left))
      × (hits cut ≡ take limit (hits file))
      × (left ≡ limit - length (hits file))

module _ {X : Type 0} (hits : FileMatch → List X) (Good : FileMatch → Type 0)
    (limiter : ℕ → FileMatch → Outcome (FileMatch × ℕ)) (law : Limits hits Good limiter) where
  stop :
      (limit left : ℕ) (xs ys zs : List X)
      → zs ≡ take limit xs
      → left ≡ limit - length xs
      → (left == 0) ≡ true
      → (zs ++ [] ≡ take limit (xs ++ ys)) × (0 ≡ limit - length (xs ++ ys))
  stop limit left xs ys zs e l z =
      let n : left ≡ 0 = (==_iff left 0).0 z in
      let a = length-append xs ys in
      (ap₂ (λ u m. u ++ take m ys) e (sym n ∙ l) ∙ sym (take-append limit xs ys), omega arith)

  go_on :
      (limit left r : ℕ) (xs ys zs us : List X)
      → zs ≡ take limit xs
      → left ≡ limit - length xs
      → us ≡ take left ys
      → r ≡ left - length ys
      → (zs ++ us ≡ take limit (xs ++ ys)) × (r ≡ limit - length (xs ++ ys))
  go_on limit left r xs ys zs us e l u k =
      let a = length-append xs ys in
      (
        ap₂ (λ v w. v ++ w) e (u ∙ ap (λ m. take m ys) l) ∙ sym (take-append limit xs ys),
        omega arith,
      )

  positive : (left : ℕ) → (left == 0) ≡ false → 0 < left
  positive left h = ground arith

  pub limit_loop_lem :
      (limit : ℕ) (files : List FileMatch)
      → All Good files
      → 0 < limit
      → (r : List FileMatch × ℕ) × (limit_loop limiter limit files ≡ ok r)
        × (all_of hits r.0 ≡ take limit (all_of hits files))
        × (r.1 ≡ limit - length (all_of hits files))
        × (length r.0 ≤ length files)
  unfolding limit_loop
  limit_loop_lem limit [] w h =
      (([], limit), refl, sym (take_all limit [] (omega arith)), omega arith, omega arith)
  limit_loop_lem limit (file ∷ files) w h =
      let (cut, left, p, e, l) = law limit file w.0 h in
      elim (Bool-cases (left == 0)) [
        | inl z ↦
            let (a, b) = stop limit left (hits file) (all_of hits files) (hits cut) e l z in
            ((cut ∷ [], 0), rw (p, z) refl, a, b, omega arith)
        | inr z ↦
            let (r, q, u, k, m) = limit_loop_lem left files w.1 (positive left z) in
            let (a, b) =
              go_on limit left r.1 (hits file) (all_of hits files) (hits cut) (all_of hits r.0) e l
                u k in
            ((cut ∷ r.0, r.1), rw (p, z, q) refl, a, b, omega arith)
      ]
