-- ===== src/MatchTree/NgramDoc/InFile.antt =====
-- The candidates that a list of hits has in a document, and the loop that collects them.
use zoekt.Prelude.{
  ℕ, zero, suc, ◌+◌, ◌-◌, ◌%◌, ◌^◌, ◌<◌, ◌≤◌, ltb, leb, ◌==◌, ◌&&◌, ◌||◌, if◌then◌else◌, if_cases,
  Bool, true, false,
}
use zoekt.Prelude.{List, [], ◌∷◌, length, ◌≡◌, refl, sym, ap, subst, ◌∙◌, arith, leb→le}
use native.Mathlib.Decide.{dec_lt}
use zoekt.Outcome.{Outcome, ok, ◌>>=◌}
use zoekt.Hits.{HitIterator, IsLawful}
use zoekt.Hits.Lists.{max_u32, Above, drop_through, drop_through_le, drop_through_behind}
use zoekt.MatchTree.Content.{CandidateMatch}
use zoekt.MatchTree.NgramDoc.{candidate, candidates_loop}

-- The hits at which the pattern, with its padding, lies between `start` and `stop`.
unfoldable pub in_file : ℕ → ℕ → ℕ → ℕ → List ℕ → List CandidateMatch
in_file left right start stop [] = []
in_file left right start stop (p ∷ ps) =
    let rest = in_file left right start stop ps in
    if leb (left + start) p && leb (p + right) stop && ltb p stop
    then candidate (p - start - left) ∷ rest
    else rest

outside :
    (left right start stop p : ℕ) (ps : List ℕ)
    → (leb (left + start) p && leb (p + right) stop && ltb p stop) ≡ false
    → in_file left right start stop (p ∷ ps) ≡ in_file left right start stop ps
unfolding in_file
outside left right start stop p ps h = rw h

too_early :
    (left right start stop p : ℕ)
    → p < left + start
    → (leb (left + start) p && leb (p + right) stop && ltb p stop) ≡ false
too_early left right start stop p h = ground arith

too_late :
    (left right start stop p : ℕ)
    → stop ≤ p
    → (leb (left + start) p && leb (p + right) stop && ltb p stop) ≡ false
too_late left right start stop p h = ground arith

-- Hits in front of the document do not count.
pub in_file-drop_through :
    (left right start stop limit : ℕ) (ps : List ℕ)
    → limit < left + start
    → in_file left right start stop (drop_through limit ps) ≡ in_file left right start stop ps
unfolding drop_through
in_file-drop_through left right start stop limit [] h = refl
in_file-drop_through left right start stop limit (p ∷ ps) h =
    if_cases (λ x. in_file left right start stop x ≡ in_file left right start stop (p ∷ ps))
      (leb p limit) _ _
      (λ e.
        let l = leb→le _ _ e in
        in_file-drop_through left right start stop limit ps h
        ∙ sym
            (outside left right start stop p ps (too_early left right start stop p (omega arith))))
      (λ e. refl)

-- Nor do those behind it.
pub in_file-Above :
    (left right start stop lo : ℕ) (ps : List ℕ)
    → stop ≤ lo
    → Above lo ps
    → in_file left right start stop ps ≡ []
in_file-Above left right start stop lo [] h a = unfold in_file in refl
in_file-Above left right start stop lo (p ∷ ps) h a =
    let g = a.0 in
    outside left right start stop p ps (too_late left right start stop p (omega arith))
    ∙ in_file-Above left right start stop (p + 1) ps (omega arith) a.2

-- The test that the code makes, with its sums of 32 bits.
same_test :
    (left right start stop p : ℕ) (c : CandidateMatch) (rest : List CandidateMatch)
    → left + start < 2 ^ 32
    → right + stop < 2 ^ 32
    → p < stop
    → (if ltb p ((left + start) % 2 ^ 32) || ltb stop ((p + right) % 2 ^ 32)
        then rest
        else c ∷ rest)
      ≡ (if leb (left + start) p && leb (p + right) stop && ltb p stop then c ∷ rest else rest)
same_test left right start stop p c rest h k l =
    let a : (left + start) % 2 ^ 32 ≡ left + start = omega arith in
    let b : (p + right) % 2 ^ 32 ≡ p + right = omega arith in rw (a, b) (ground arith)

same_offset :
    (left right start stop p : ℕ) (rest : List CandidateMatch)
    → stop < 2 ^ 32
    → p < stop
    → (if leb (left + start) p && leb (p + right) stop && ltb p stop
        then candidate ((p + 2 ^ 32 + 2 ^ 32 - start - left) % 2 ^ 32) ∷ rest
        else rest)
      ≡ (if leb (left + start) p && leb (p + right) stop && ltb p stop
          then candidate (p - start - left) ∷ rest
          else rest)
same_offset left right start stop p rest h k = elim (dec_lt p (left + start)) [
  | yes early ↦ rw (too_early left right start stop p early) refl
  | no late ↦
      let e : (p + 2 ^ 32 + 2 ^ 32 - start - left) % 2 ^ 32 ≡ p - start - left = omega arith in
      rw e refl
]

in_file_cons :
    (left right start stop p : ℕ) (ps : List ℕ)
    → (if leb (left + start) p && leb (p + right) stop && ltb p stop
        then candidate (p - start - left) ∷ in_file left right start stop ps
        else in_file left right start stop ps)
      ≡ in_file left right start stop (p ∷ ps)
unfolding in_file
in_file_cons left right start stop p ps = refl

pair_if :
    {A B : Type 0} (b : Bool) (c : A) (rest : List A) (s : B)
    → ◌≡◌ {A = List A × B}
        (if b then (rest, s) else (c ∷ rest, s))
        (if b then rest else c ∷ rest, s)
pair_if true c rest s = refl
pair_if false c rest s = refl

stops : (q stop : ℕ) → q < max_u32 → stop ≤ q → (q == max_u32 || leb stop q) ≡ true
stops q stop h k = ground arith

goes_on : (q stop : ℕ) → q < max_u32 → q < stop → (q == max_u32 || leb stop q) ≡ false
goes_on q stop h k = ground arith

module _ {S : Type 0} {D : S → List ℕ → Type 0} (it : HitIterator S) (law : IsLawful it D) where
  -- What the loop collects, and the hits that it leaves: all that documents behind `stop` need.
  pub record Collected (left right start stop : ℕ) (ps : List ℕ)
      (o : Outcome (List CandidateMatch × S)) : Type 0 where
    pub after : S
    pub hits : List ℕ
    pub result : o ≡ ok (in_file left right start stop ps, after)
    pub denotes : D after hits
    pub kept :
        (start' stop' : ℕ)
        → stop ≤ start'
        → in_file left right start' stop' hits ≡ in_file left right start' stop' ps

  ended :
      (left right start stop : ℕ) (ps : List ℕ) (s : S)
      → D s ps
      → in_file left right start stop ps ≡ []
      → Collected left right start stop ps (ok ([], s))
  ended left right start stop ps s d e = record {
    after = s;
    hits = ps;
    result = ap (λ cs. ok (cs, s)) (sym e);
    denotes = d;
    kept = λ a b c. refl;
  }

  -- A hit in front of `stop`, with what the rest of the loop collects.
  collect :
      (left right start stop p : ℕ) (ps : List ℕ) (o : Outcome (List CandidateMatch × S))
      → left + start < 2 ^ 32
      → right + stop < 2 ^ 32
      → p < stop
      → Collected left right start stop ps o
      → Collected left right start stop (p ∷ ps) (
          o >>= λ rest. ok (
            if ltb p ((left + start) % 2 ^ 32) || ltb stop ((p + right) % 2 ^ 32)
            then rest
            else (candidate ((p + 2 ^ 32 + 2 ^ 32 - start - left) % 2 ^ 32) ∷ rest.0, rest.1)))
  collect left right start stop p ps o h k l c = record {
    after = c.after;
    hits = c.hits;
    result = rw c.result (
        ap ok (
          pair_if _ (candidate ((p + 2 ^ 32 + 2 ^ 32 - start - left) % 2 ^ 32))
            (in_file left right start stop ps) c.after
          ∙ ap (λ cs. (cs, c.after))
              (same_test left right start stop p
                  (candidate ((p + 2 ^ 32 + 2 ^ 32 - start - left) % 2 ^ 32))
                  (in_file left right start stop ps) h k l
                ∙ same_offset left right start stop p (in_file left right start stop ps)
                    (omega arith) l
                ∙ in_file_cons left right start stop p ps)));
    denotes = c.denotes;
    kept = λ start' stop' a.
        c.kept start' stop' a
        ∙ sym (
            outside left right start' stop' p ps
              (too_early left right start' stop' p (omega arith)));
  }

  pub candidates_loop_lem :
      (fuel left right start stop : ℕ) (s : S) (ps : List ℕ)
      → length ps < fuel
      → left + start < 2 ^ 32
      → right + stop < 2 ^ 32
      → D s ps
      → Collected left right start stop ps (candidates_loop it fuel left right start stop s)
  unfolding candidates_loop
  candidates_loop_lem zero left right start stop s ps f h k d = absurd (omega arith)
  candidates_loop_lem (suc fuel) left right start stop s [] f h k d =
      let (s1, p, d1) = law.first_lem s [] d in
      rw (p) (ended left right start stop [] s1 d1 (unfold in_file in refl))
  candidates_loop_lem (suc fuel) left right start stop s (q ∷ ps) f h k d =
      let (s1, p, d1) = law.first_lem s (q ∷ ps) d in
      let above = law.denotes-IsHits s1 (q ∷ ps) d1 in
      let above' : Above q (q ∷ ps) = (omega arith, above.1, above.2) in
      elim (dec_lt q stop) [
        | no past ↦
            rw (p, stops q stop above.1 (omega arith))
              (ended left right start stop (q ∷ ps) s1 d1
                (in_file-Above left right start stop q (q ∷ ps) (omega arith) above'))
        | yes on ↦
            let (s2, p2, d2) = law.next_lem q s1 (q ∷ ps) (let g = above.1 in omega arith) d1 in
            let dropped =
              drop_through_le q q ps (omega arith)
              ∙ drop_through_behind q (q + 1) ps (omega arith) above.2 in
            let c =
              candidates_loop_lem fuel left right start stop s2 ps (omega arith) h k
                (subst (D s2) dropped d2) in
            rw (p, goes_on q stop above.1 on, p2) (collect left right start stop q ps _ h k on c)
      ]
