-- ===== src/Hits/Distance/Lawful.antt =====
-- A distance iterator hands out the hits of its first iterator that have a hit of the second at the
-- distance.
use zoekt.Prelude.{ℕ, ◌+◌, ◌^◌, ◌<◌, ◌≤◌, if◌then◌else◌, Bool, true, false}
use zoekt.Prelude.{List, [], ◌∷◌, ◌≡◌, ◌⊎◌, inl, inr, refl, sym, ap, ◌∙◌, arith, Bool-cases}
use native.Mathlib.Decide.{dec_lt}
use zoekt.Outcome.{Outcome, ok, ◌>>=◌}
use zoekt.Hits.{HitIterator, IsLawful}
use zoekt.Hits.Lists.{Above, IsHits, head_or_max, drop_through}
use zoekt.Hits.Lists.{drop_through-Above, length-Above}
use zoekt.Hits.Distance.{
  DistanceHitIterator, shifted_limit, find_next, find_next_in, begin, first, next, distance,
}
use zoekt.Hits.Distance.Common.{common, Fits, Fits-drop_through, common-Above}
use zoekt.Hits.Distance.Common.{common_drop_right, drop_through-common}
use zoekt.Hits.Distance.FindNext.{Aligned, find_next_lem}

shifted_limit_cases :
    (limit d : ℕ)
    → limit < 2 ^ 32
    → d < 2 ^ 32
    → ((limit + d < 2 ^ 32) × (shifted_limit limit d ≡ limit + d)) ⊎ (2 ^ 32 ≤ limit + d)
shifted_limit_cases limit d h k = elim (dec_lt (limit + d) (2 ^ 32)) [
  | yes l ↦ inl (l, ground arith)
  | no l ↦ inr (omega arith)
]

shifted_limit-lt : (limit d : ℕ) → shifted_limit limit d < 2 ^ 32
shifted_limit-lt limit d = ground arith

none : (d : ℕ) (qs : List ℕ) → common d [] qs ≡ []
unfolding common
none d qs = refl

-- Beyond 32 bits no hit fits the distance.
too_far : (d lo : ℕ) (ps : List ℕ) → Above lo ps → Fits d ps → 2 ^ 32 ≤ lo + d → ps ≡ []
too_far d lo [] a f h = refl
too_far d lo (p ∷ ps) a f h = absurd (let g = a.0 in let k = f.0 in omega arith)

-- Dropping on both sides, as `next` does, drops from the common hits.
common-shifted_limit :
    (limit d : ℕ) (ps qs : List ℕ)
    → limit < 2 ^ 32
    → d < 2 ^ 32
    → IsHits ps
    → Fits d ps
    → common d (drop_through limit ps) (drop_through (shifted_limit limit d) qs)
      ≡ drop_through limit (common d ps qs)
common-shifted_limit limit d ps qs h k a f =
    let behind = (drop_through-Above limit 0 ps a).0 in
    let drops = drop_through-common d 0 limit ps qs a in
    elim (shifted_limit_cases limit d h k) [
      | inl (l, e) ↦
          common_drop_right d (limit + 1) (shifted_limit limit d) (drop_through limit ps) qs behind
            (omega arith)
          ∙ sym drops
      | inr l ↦
          let gone : drop_through limit ps ≡ [] =
            too_far d (limit + 1) (drop_through limit ps) behind (Fits-drop_through d limit ps f)
              (omega arith) in
          ap (λ l. common d l (drop_through (shifted_limit limit d) qs)) gone
          ∙ none d (drop_through (shifted_limit limit d) qs)
          ∙ sym (none d qs)
          ∙ ap (λ l. common d l qs) (sym gone)
          ∙ sym drops
    ]

module _ {S T : Type 0} (D1 : S → List ℕ → Type 0) (D2 : T → List ℕ → Type 0) where
  -- The hits to come. Once started, the first hit of the first iterator is one of them.
  pub record Pair (i : DistanceHitIterator S T) (hits : List ℕ) : Type 0 where
    ps : List ℕ
    qs : List ℕ
    left : D1 i.i1 ps
    right : D2 i.i2 qs
    fits : Fits i.distance ps
    small : i.distance < 2 ^ 32
    hits_eq : hits ≡ common i.distance ps qs
    aligned : i.started ≡ true → head_or_max ps ≡ head_or_max hits

module _ {S T : Type 0} {D1 : S → List ℕ → Type 0} {D2 : T → List ℕ → Type 0} (it1 : HitIterator S)
    (law1 : IsLawful it1 D1) (it2 : HitIterator T) (law2 : IsLawful it2 D2) where
  Pair-IsHits : (i : DistanceHitIterator S T) (hits : List ℕ) → Pair D1 D2 i hits → IsHits hits
  Pair-IsHits i hits d =
      rw d.hits_eq (common-Above i.distance 0 d.ps d.qs (law1.denotes-IsHits i.i1 d.ps d.left))

  abbrev Round : DistanceHitIterator S T → List ℕ → List ℕ → Type 0
  Round i ps qs =
      Aligned it1 law1 it2 law2 i.distance ps qs (find_next it1 it2 (2 ^ 33) i.distance i.i1 i.i2)

  -- The iterator after `findNext`, and after `first` has started it.
  abbrev aligned_pair :
      (i : DistanceHitIterator S T) (ps qs : List ℕ) → Round i ps qs → DistanceHitIterator S T
  aligned_pair i ps qs a = record i { i1 = a.j1; i2 = a.j2 }

  abbrev started_pair :
      (i : DistanceHitIterator S T) (ps qs : List ℕ) → Round i ps qs → DistanceHitIterator S T
  started_pair i ps qs a = record i { i1 = a.j1; i2 = a.j2; started = true }

  all_rounds :
      (i : DistanceHitIterator S T) (ps qs : List ℕ)
      → D1 i.i1 ps
      → D2 i.i2 qs
      → Fits i.distance ps
      → Round i ps qs
  all_rounds i ps qs dp dq f =
      let few1 = length-Above 0 ps (omega arith) (law1.denotes-IsHits i.i1 ps dp) in
      let few2 = length-Above 0 qs (omega arith) (law2.denotes-IsHits i.i2 qs dq) in
      find_next_lem it1 law1 it2 law2 (2 ^ 33) i.distance i.i1 i.i2 ps qs (omega arith) dp dq f

  find_next_in-Round :
      (i : DistanceHitIterator S T) (ps qs : List ℕ) (a : Round i ps qs)
      → find_next_in it1 it2 i ≡ ok (aligned_pair i ps qs a)
  unfolding find_next_in
  find_next_in-Round i ps qs a = rw a.result refl

  Round-Pair :
      (i : DistanceHitIterator S T) (ps qs hits : List ℕ) (a : Round i ps qs)
      → i.distance < 2 ^ 32
      → hits ≡ common i.distance ps qs
      → Pair D1 D2 (aligned_pair i ps qs a) hits × Pair D1 D2 (started_pair i ps qs a) hits
  Round-Pair i ps qs hits a small e = (
    record {
      ps = a.ps';
      qs = a.qs';
      left = a.left;
      right = a.right;
      fits = a.fits;
      small = small;
      hits_eq = e ∙ sym a.same;
      aligned = λ _. a.head ∙ ap head_or_max (sym e);
    },
    record {
      ps = a.ps';
      qs = a.qs';
      left = a.left;
      right = a.right;
      fits = a.fits;
      small = small;
      hits_eq = e ∙ sym a.same;
      aligned = λ _. a.head ∙ ap head_or_max (sym e);
    },
  )

  begin_started :
      (b : Bool) (i : DistanceHitIterator S T) (o : Outcome (DistanceHitIterator S T))
      → b ≡ true
      → (if b then ok i else o) ≡ ok i
  begin_started b i o e = rw e refl

  begin_fresh :
      (b : Bool) (i j : DistanceHitIterator S T) (o : Outcome (DistanceHitIterator S T))
      → b ≡ false
      → o ≡ ok j
      → (if b then ok i else (o >>= λ k. ok (record k { started = true })))
        ≡ ok (record j { started = true })
  begin_fresh b i j o e p = rw (e, p) refl

  begin_lem :
      (i : DistanceHitIterator S T) (hits : List ℕ)
      → Pair D1 D2 i hits
      → (j : DistanceHitIterator S T) × (begin it1 it2 i ≡ ok j)
        × Pair D1 D2 j hits
        × (j.started ≡ true)
  unfolding begin
  begin_lem i hits d = elim (Bool-cases i.started) [
    | inl e ↦ (i, begin_started i.started i _ e, d, e)
    | inr e ↦
        let a = all_rounds i d.ps d.qs d.left d.right d.fits in
        (
          started_pair i d.ps d.qs a,
          begin_fresh i.started i (aligned_pair i d.ps d.qs a) _ e
              (find_next_in-Round i d.ps d.qs a),
          (Round-Pair i d.ps d.qs hits a d.small d.hits_eq).1,
          refl,
        )
  ]

  -- A distance iterator over lawful iterators is lawful: it stands for the hits p of the first one
  -- for which p + distance is a hit of the second, where no such sum leaves 32 bits.
  pub distance-IsLawful : IsLawful (distance it1 it2) (Pair D1 D2)
  unfolding first next
  distance-IsLawful = record {
    denotes-IsHits = Pair-IsHits;
    first_lem = λ i hits d.
        let (j, p, d', s) = begin_lem i hits d in
        let (j1, q, l) = law1.first_lem j.i1 d'.ps d'.left in
        (
          record j { i1 = j1 },
          rw (p, q, d'.aligned s),
          record {
            ps = d'.ps;
            qs = d'.qs;
            left = l;
            right = d'.right;
            fits = d'.fits;
            small = d'.small;
            hits_eq = d'.hits_eq;
            aligned = d'.aligned;
          },
        );
    next_lem = λ limit i hits h d.
        let qs' = drop_through (shifted_limit limit i.distance) d.qs in
        let (k1, e1, l) = law1.next_lem limit i.i1 d.ps h d.left in
        let (k2, e2, r) =
          law2.next_lem (shifted_limit limit i.distance) i.i2 d.qs
            (shifted_limit-lt limit i.distance) d.right in
        let k : DistanceHitIterator S T = record i { i1 = k1; i2 = k2 } in
        let a =
          all_rounds k (drop_through limit d.ps) qs' l r
            (Fits-drop_through i.distance limit d.ps d.fits) in
        let same =
          common-shifted_limit limit i.distance d.ps d.qs h d.small
            (law1.denotes-IsHits i.i1 d.ps d.left) d.fits in
        (
          aligned_pair k (drop_through limit d.ps) qs' a,
          rw (e1, e2, find_next_in-Round k (drop_through limit d.ps) qs' a),
          (Round-Pair k (drop_through limit d.ps) qs' (drop_through limit hits) a d.small
              (ap (drop_through limit) d.hits_eq ∙ sym same)).0,
        );
  }
