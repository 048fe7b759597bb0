-- ===== src/Hits/Distance/FindNext.antt =====
-- `findNext` ends at the first pair of hits at the distance.
use zoekt.Prelude.{ℕ, zero, suc, ◌+◌, ◌-◌, ◌%◌, ◌^◌, ◌<◌, ◌≤◌, ◌==◌, ◌||◌, true, false}
use zoekt.Prelude.{
  List, [], ◌∷◌, length, ◌≡◌, refl, sym, ap, subst, ◌∙◌, arith, lt→ltb, le→ltb_false,
}
use native.Mathlib.Decide.{dec_lt}
use zoekt.Outcome.{Outcome, ok, ◌>>=◌}
use zoekt.Hits.{HitIterator, IsLawful}
use zoekt.Hits.Lists.{max_u32, Above, head_or_max, drop_through, drop_through_le}
use zoekt.Hits.Lists.{drop_through_max, length-drop_through}
use zoekt.Hits.Distance.{before_match, before_shifted, find_next}
use zoekt.Hits.Distance.Common.{common, Fits, Fits-drop_through, common-nil}
use zoekt.Hits.Distance.Common.{common_drop_right, common_drop_left, common_match}

-- What the rounds compute with, without wrap-around.
match_limit : (p q d : ℕ) → p + d < q → q < 2 ^ 32 → before_match q d ≡ q - d - 1
match_limit p q d h small = omega arith

shifted_before : (p q d : ℕ) → q < p + d → p + d < 2 ^ 32 → before_shifted p d ≡ p + d - 1
shifted_before p q d h small = omega arith

not_spent : (p q : ℕ) → p < max_u32 → q < max_u32 → (p == max_u32 || q == max_u32) ≡ false
not_spent p q h k = ground arith

spent_right : (p : ℕ) → (p == max_u32 || max_u32 == max_u32) ≡ true
spent_right p = ground arith

module _ {S T : Type 0} {D1 : S → List ℕ → Type 0} {D2 : T → List ℕ → Type 0} (it1 : HitIterator S)
    (law1 : IsLawful it1 D1) (it2 : HitIterator T) (law2 : IsLawful it2 D2) where
  -- The pair at which `findNext` stops has the hits at the distance that the pair before had, and
  -- its first hit is the first of these.
  pub record Aligned (d : ℕ) (ps qs : List ℕ) (o : Outcome (S × T)) : Type 0 where
    pub j1 : S
    pub j2 : T
    pub ps' : List ℕ
    pub qs' : List ℕ
    pub result : o ≡ ok (j1, j2)
    pub left : D1 j1 ps'
    pub right : D2 j2 qs'
    pub fits : Fits d ps'
    pub same : common d ps' qs' ≡ common d ps qs
    pub head : head_or_max ps' ≡ head_or_max (common d ps qs)

  Aligned-from :
      (d : ℕ) (ps qs ps' qs' : List ℕ) (o : Outcome (S × T))
      → common d ps' qs' ≡ common d ps qs
      → Aligned d ps' qs' o
      → Aligned d ps qs o
  Aligned-from d ps qs ps' qs' o e a = record {
    j1 = a.j1;
    j2 = a.j2;
    ps' = a.ps';
    qs' = a.qs';
    result = a.result;
    left = a.left;
    right = a.right;
    fits = a.fits;
    same = a.same ∙ e;
    head = a.head ∙ ap head_or_max e;
  }

  -- One side is spent: the first iterator is run to its end.
  find_next_spent :
      (d : ℕ) (i1 : S) (i2 : T) (ps qs : List ℕ)
      → D1 i1 ps
      → D2 i2 qs
      → common d ps qs ≡ []
      → Aligned d ps qs (it1.next max_u32 i1 >>= λ j. ok (j, i2))
  find_next_spent d i1 i2 ps qs dp dq e =
      let (k1, e1, dk) = law1.next_lem max_u32 i1 ps (omega arith) dp in
      let gone : drop_through max_u32 ps ≡ [] =
        drop_through_max max_u32 ps (omega arith) (law1.denotes-IsHits i1 ps dp) in
      record {
        j1 = k1;
        j2 = i2;
        ps' = [];
        qs' = qs;
        result = rw e1 refl;
        left = subst (D1 k1) gone dk;
        right = dq;
        fits = tt;
        same = unfold common in sym e;
        head = ap head_or_max (sym e);
      }

  -- What a round that goes on may use of the rounds behind it.
  abbrev Later : ℕ → ℕ → Type 0
  Later fuel d =
      (i1 : S) (i2 : T) (ps qs : List ℕ)
      → length ps + length qs < fuel
      → D1 i1 ps
      → D2 i2 qs
      → Fits d ps
      → Aligned d ps qs (find_next it1 it2 fuel d i1 i2)

  advance_left :
      (fuel d p q : ℕ) (ps qs : List ℕ) (i1 : S) (i2 : T)
      → length (p ∷ ps) + length (q ∷ qs) < suc fuel
      → D1 i1 (p ∷ ps)
      → D2 i2 (q ∷ qs)
      → Fits d (p ∷ ps)
      → p + d < q
      → Later fuel d
      → Aligned d
          (p ∷ ps)
          (q ∷ qs)
          (it1.next (before_match q d) i1 >>= λ j. find_next it1 it2 fuel d j i2)
  advance_left fuel d p q ps qs i1 i2 h dp dq f l later =
      let aq = law2.denotes-IsHits i2 (q ∷ qs) dq in
      let limit = before_match q d in
      let m : limit ≡ q - d - 1 = match_limit p q d l (let g = aq.1 in omega arith) in
      let (k1, e, dk) = law1.next_lem limit i1 (p ∷ ps) (omega arith) dp in
      let drops : drop_through limit (p ∷ ps) ≡ drop_through limit ps =
        drop_through_le limit p ps (omega arith) in
      let shorter : length (drop_through limit (p ∷ ps)) ≤ length ps =
        rw drops (length-drop_through limit ps) in
      let aq' : Above q (q ∷ qs) = (omega arith, aq.1, aq.2) in
      rw e (
        Aligned-from d (p ∷ ps) (q ∷ qs) (drop_through limit (p ∷ ps)) (q ∷ qs) _
          (common_drop_left d q limit (p ∷ ps) (q ∷ qs) aq' (omega arith))
          (later k1 i2 (drop_through limit (p ∷ ps)) (q ∷ qs) (omega arith) dk dq
            (Fits-drop_through d limit (p ∷ ps) f)))

  advance_right :
      (fuel d p q : ℕ) (ps qs : List ℕ) (i1 : S) (i2 : T)
      → length (p ∷ ps) + length (q ∷ qs) < suc fuel
      → D1 i1 (p ∷ ps)
      → D2 i2 (q ∷ qs)
      → Fits d (p ∷ ps)
      → q < p + d
      → Later fuel d
      → Aligned d
          (p ∷ ps)
          (q ∷ qs)
          (it2.next (before_shifted p d) i2 >>= λ j. find_next it1 it2 fuel d i1 j)
  advance_right fuel d p q ps qs i1 i2 h dp dq f l later =
      let al = law1.denotes-IsHits i1 (p ∷ ps) dp in
      let limit = before_shifted p d in
      let m : limit ≡ p + d - 1 = shifted_before p q d l f.0 in
      let (k2, e, dk) = law2.next_lem limit i2 (q ∷ qs) (omega arith) dq in
      let drops : drop_through limit (q ∷ qs) ≡ drop_through limit qs =
        drop_through_le limit q qs (omega arith) in
      let shorter : length (drop_through limit (q ∷ qs)) ≤ length qs =
        rw drops (length-drop_through limit qs) in
      let al' : Above p (p ∷ ps) = (omega arith, al.1, al.2) in
      rw e (
        Aligned-from d (p ∷ ps) (q ∷ qs) (p ∷ ps) (drop_through limit (q ∷ qs)) _
          (common_drop_right d p limit (p ∷ ps) (q ∷ qs) al' (omega arith))
          (later i1 k2 (p ∷ ps) (drop_through limit (q ∷ qs)) (omega arith) dp dk f))

  arrived :
      (d p q : ℕ) (ps qs : List ℕ) (i1 : S) (i2 : T)
      → D1 i1 (p ∷ ps)
      → D2 i2 (q ∷ qs)
      → Fits d (p ∷ ps)
      → p + d ≡ q
      → Aligned d (p ∷ ps) (q ∷ qs) (ok (i1, i2))
  arrived d p q ps qs i1 i2 dp dq f e = record {
    j1 = i1;
    j2 = i2;
    ps' = p ∷ ps;
    qs' = q ∷ qs;
    result = refl;
    left = dp;
    right = dq;
    fits = f;
    same = refl;
    head =
        subst (λ x. p ≡ head_or_max (common d (p ∷ ps) (x ∷ qs))) e (rw (common_match d p ps qs));
  }

  pub find_next_lem :
      (fuel d : ℕ) (i1 : S) (i2 : T) (ps qs : List ℕ)
      → length ps + length qs < fuel
      → D1 i1 ps
      → D2 i2 qs
      → Fits d ps
      → Aligned d ps qs (find_next it1 it2 fuel d i1 i2)
  unfolding find_next
  find_next_lem zero d i1 i2 ps qs h dp dq f = absurd (omega arith)
  find_next_lem (suc fuel) d i1 i2 [] qs h dp dq f =
      let (j1, e1, dp') = law1.first_lem i1 [] dp in
      let (j2, e2, dq') = law2.first_lem i2 qs dq in
      rw (e1, e2) (find_next_spent d j1 j2 [] qs dp' dq' (unfold common in refl))
  find_next_lem (suc fuel) d i1 i2 (p ∷ ps) [] h dp dq f =
      let (j1, e1, dp') = law1.first_lem i1 (p ∷ ps) dp in
      let (j2, e2, dq') = law2.first_lem i2 [] dq in
      rw (e1, e2, spent_right p)
        (find_next_spent d j1 j2 (p ∷ ps) [] dp' dq' (common-nil d (p ∷ ps)))
  find_next_lem (suc fuel) d i1 i2 (p ∷ ps) (q ∷ qs) h dp dq f =
      let (j1, e1, dp') = law1.first_lem i1 (p ∷ ps) dp in
      let (j2, e2, dq') = law2.first_lem i2 (q ∷ qs) dq in
      let ap' = law1.denotes-IsHits i1 (p ∷ ps) dp in
      let aq' = law2.denotes-IsHits i2 (q ∷ qs) dq in
      let sum : (p + d) % 2 ^ 32 ≡ p + d = let g = f.0 in omega arith in
      rw (e1, e2, not_spent p q ap'.1 aq'.1, sum)
        (elim (dec_lt (p + d) q) [
          | yes l ↦
              rw (lt→ltb (p + d) q l)
                (advance_left fuel d p q ps qs j1 j2 h dp' dq' f l (find_next_lem fuel d))
          | no l ↦ rw (le→ltb_false (p + d) q (omega arith)) (elim (dec_lt q (p + d)) [
            | yes k ↦
                rw (lt→ltb q (p + d) k)
                  (advance_right fuel d p q ps qs j1 j2 h dp' dq' f k (find_next_lem fuel d))
            | no k ↦
                rw (le→ltb_false q (p + d) (omega arith))
                  (arrived d p q ps qs j1 j2 dp' dq' f (omega arith))
          ])
        ])
