-- ===== src/MatchTree/Found.antt =====
-- The search of a shard (`indexData.Search` of index/eval.go) finds what it is to find.
use zoekt.Prelude.{
  ℕ, zero, suc, ◌+◌, ◌-◌, ◌^◌, ◌<◌, ◌≤◌, if◌then◌else◌, if_cases, Bool, true, false, ◌&&◌, ◌||◌,
  Bool-cases, inl, inr,
}
use zoekt.Prelude.{
  List, [], ◌∷◌, ◌≡◌, refl, sym, ap, subst, ◌∙◌, arith, if_true, if_false, le→leb, lt→leb_false,
  and_false, or_true,
}
use native.Mathlib.Decide.{dec_lt}
use zoekt.Outcome.{ok}
use zoekt.MatchTree.Content.{Libraries, ContentProvider, CandidateMatch}
use zoekt.MatchTree.Leaf.{
  Leaf, no_match, brute_force, doc, branch, regexp, word, substr, LeafState, start_doc,
}
use zoekt.MatchTree.Tree.{MatchTree}
use zoekt.MatchTree.Verdict.{Verdict}
use zoekt.MatchTree.Value.{value, negate, IsLabelled}
use zoekt.MatchTree.Decide.{decide-value}
use zoekt.MatchTree.Docs.{MatchIterator, Leaves, greater}
use zoekt.MatchTree.Facts.{IsMatchIterator, Says, StartsAt}
use zoekt.MatchTree.Skip.{IsNamed, IterAt, AreTrue, IsReady, next_doc-skips}
use zoekt.MatchTree.Prepare.{occurs, IsLinear, prepare-Prepares}
use zoekt.MatchTree.Search.{
  IndexData, Context, Limits, Answers, Counts, no_counts, hidden, over_limit, enter_repo, stops,
  count_matches, visible_from, search_loop, search,
}
use zoekt.MatchTree.Expected.{
  expected, passes, full, ends, expected_none, expected_fails, expected_kept, expected_refused,
  expected_ends, expected_behind,
}
use zoekt.MatchTree.Counts.{
  Tracks, Tracks-full, Tracks-ends, Tracks-start, IsGrouped, Entered, enter_repo-Entered,
  count-Tracks, later-Tracks,
}

-- `visible_from` skips hidden documents only.
pub visible_from_lem :
    (left : ℕ) (hidden : ℕ → Bool) (d : ℕ)
    → (d ≤ visible_from left hidden d)
      × (visible_from left hidden d ≤ d + left)
      × ((x : ℕ) → d ≤ x → x < visible_from left hidden d → hidden x ≡ true)
      × (visible_from left hidden d < d + left → hidden (visible_from left hidden d) ≡ false)
unfolding visible_from
visible_from_lem zero hidden d =
    (omega arith, omega arith, (λ x a b. absurd (omega arith)), λ a. absurd (omega arith))
visible_from_lem (suc left) hidden d =
    let (lo, hi, skip, stop) = visible_from_lem left hidden (suc d) in
    if_cases
      (λ v.
        (d ≤ v)
        × (v ≤ d + suc left)
        × ((x : ℕ) → d ≤ x → x < v → hidden x ≡ true)
        × (v < d + suc left → hidden v ≡ false))
      (hidden d) (visible_from left hidden (suc d)) d
      (λ e. (
        omega arith,
        omega arith,
        (λ x a b. elim (dec_lt d x) [
          | yes p ↦ skip x (omega arith) b
          | no p ↦ let q : d ≡ x = omega arith in subst (λ k. hidden k ≡ true) q e
        ]),
        λ a. stop (omega arith),
      ))
      (λ e. (omega arith, omega arith, (λ x a b. absurd (omega arith)), λ a. e))

StartsAt-start :
    (l : Leaf) (s s' : LeafState) (from : ℕ)
    → start_doc s' ≡ start_doc s
    → StartsAt l s from
    → StartsAt l s' from
StartsAt-start no_match s s' from e h = tt
StartsAt-start brute_force s s' from e h = e ∙ h
StartsAt-start (doc k p) s s' from e h = e ∙ h
StartsAt-start (branch x y z) s s' from e h = e ∙ h
StartsAt-start (regexp x f) s s' from e h = e ∙ h
StartsAt-start (word x f) s s' from e h = e ∙ h
StartsAt-start (substr f) s s' from e h = tt

greater_from : (m from x : ℕ) → from ≤ x → x < greater m from → x < m
greater_from m from x a b = ground arith

greater_right : (m from : ℕ) → from ≤ greater m from
greater_right m from = ground arith

-- What is cancelled or exhausted stays so.
pub record AreLasting (a : Answers) : Type 0 where
  pub canceled : (x y : ℕ) → x ≤ y → a.canceled x ≡ true → a.canceled y ≡ true
  pub exhausted : (x y : ℕ) → x ≤ y → a.exhausted x ≡ true → a.exhausted y ≡ true

ends-later :
    (p q r p' q' : Bool)
    → (p ≡ true → p' ≡ true)
    → (q ≡ true → q' ≡ true)
    → (p || (q || r)) ≡ true
    → (p' || (q' || r)) ≡ true
ends-later true q r p' q' h k e = rw (h refl) refl
ends-later false true r true q' h k e = refl
ends-later false true r false q' h k e = rw (k refl) refl
ends-later false false true true q' h k e = refl
ends-later false false true false q' h k e = or_true q'
ends-later false false false p' q' h k e = cc

module _ {I : Type 0} {Denotes : (ℕ → List CandidateMatch) → ℕ → I → Type 0} (it : MatchIterator I)
    (sh : IndexData) (law : IsMatchIterator it sh.docs Denotes) (e : Libraries)
    (cp : ℕ → ContentProvider) (leaf_of : ℕ → Leaf) (says : ℕ → ℕ → Bool)
    (cands : ℕ → ℕ → List CandidateMatch) (truths : AreTrue it sh.docs law e cp leaf_of says cands)
    (indexed : (d : ℕ) → (cp d).idx ≡ d) (few : sh.docs < 2 ^ 32) (ctx : Context) (o : Limits)
    (a : Answers) (grouped : IsGrouped sh) (lasting : AreLasting a) (value_of : ℕ → ℕ → Bool)
    (t : MatchTree) (named : IsNamed leaf_of t) (linear : IsLinear t)
    (labelled : (d : ℕ) → d < sh.docs → IsLabelled leaf_of (says d) (value_of d) t)
    (unused : (n : ℕ) → occurs n t ≡ false → leaf_of n ≡ no_match) where
  abbrev Ready : ℕ → Leaves I → Type 0
  Ready from ls = IsReady it sh.docs law e cp leaf_of says cands from ls

  abbrev yes_to : ℕ → Bool
  yes_to d = value (says d) t

  abbrev spec : ℕ → ℕ → List ℕ → List ℕ
  spec left d seen = expected sh ctx o a yes_to left d seen

  abbrev passed : List ℕ → ℕ → Bool
  passed seen d = passes sh ctx o a yes_to seen d

  -- What the loop passes over does not pass.
  over_fails :
      (from d : ℕ) (c : Counts) (seen : List ℕ)
      → Tracks sh a from c seen
      → from ≤ d
      → d < sh.docs
      → (hidden sh ctx d || over_limit sh o c d) ≡ true
      → passed seen d ≡ false
  over_fails from d c seen k l m h =
      ap (λ b. negate (hidden sh ctx d || b) && yes_to d)
        (sym (Tracks-full sh o a ctx yes_to from d c seen k l m))
      ∙ ap (λ b. negate b && yes_to d) h

  shown_passes :
      (from d : ℕ) (c : Counts) (seen : List ℕ)
      → Tracks sh a from c seen
      → from ≤ d
      → d < sh.docs
      → (hidden sh ctx d || over_limit sh o c d) ≡ false
      → passed seen d ≡ yes_to d
  shown_passes from d c seen k l m h =
      ap (λ b. negate (hidden sh ctx d || b) && yes_to d)
        (sym (Tracks-full sh o a ctx yes_to from d c seen k l m))
      ∙ ap (λ b. negate b && yes_to d) h

  no_fails : (seen : List ℕ) (d : ℕ) → yes_to d ≡ false → passed seen d ≡ false
  no_fails seen d h =
      and_false (negate (hidden sh ctx d || full sh ctx o a yes_to seen d)) (yes_to d) h

  -- Nothing between `from` and the document that is looked at passes.
  skipped :
      (m from d x : ℕ) (c : Counts) (seen : List ℕ)
      → Tracks sh a from c seen
      → ((y : ℕ) → from ≤ y → y < m → y < sh.docs → yes_to y ≡ false)
      → ((y : ℕ) → greater m from ≤ y → y < d → (hidden sh ctx y || over_limit sh o c y) ≡ true)
      → from ≤ x
      → x < d
      → x < sh.docs
      → passed seen x ≡ false
  skipped m from d x c seen k s h p q r = elim (dec_lt x (greater m from)) [
    | yes l ↦ no_fails seen x (s x p (greater_from m from x p l) r)
    | no l ↦ over_fails from x c seen k p r (h x (omega arith) q)
  ]

  verdicts :
      (d n : ℕ) (s : LeafState)
      → d < sh.docs
      → (occurs n t ≡ true → Verdict e (cp d) (leaf_of n) s (says d n))
      → Verdict e (cp d) (leaf_of n) s (says d n)
  verdicts d n s a h = elim (Bool-cases (occurs n t)) [
    | inl x ↦ h x
    | inr x ↦
        let z = unused n x in
        subst (λ l. Verdict e (cp d) l s (says d n)) (sym z)
          (subst (λ l. Says e cp sh.docs l d (cands n d) (says d n)) z (truths.says_right n d a))
  ]

  ready :
      (from n : ℕ) (s : LeafState) (i : I)
      → (occurs n t ≡ true
          → StartsAt (leaf_of n) s from × IterAt Denotes (leaf_of n) (cands n) from i)
      → StartsAt (leaf_of n) s from × IterAt Denotes (leaf_of n) (cands n) from i
  ready from n s i h = elim (Bool-cases (occurs n t)) [
    | inl x ↦ h x
    | inr x ↦
        subst (λ l. StartsAt l s from × IterAt Denotes l (cands n) from i) (sym (unused n x))
          (tt, tt)
  ]

  -- A leaf and its iterator behind the document that was decided.
  moved_on :
      (d n : ℕ) (s s' : LeafState) (i : I)
      → start_doc s' ≡ start_doc s
      → StartsAt (leaf_of n) s (d + 1) × IterAt Denotes (leaf_of n) (cands n) (d + 1) i
      → StartsAt (leaf_of n) s' (suc d) × IterAt Denotes (leaf_of n) (cands n) (suc d) i
  moved_on d n s s' i st (p, q) =
      let one : d + 1 ≡ suc d = omega arith in
      (
        StartsAt-start (leaf_of n) s s' (suc d) st (subst (StartsAt (leaf_of n) s) one p),
        subst (λ k. IterAt Denotes (leaf_of n) (cands n) k i) one q,
      )

  -- A search that ends at `d` finds nothing from there on.
  round_ends :
      (from d : ℕ) (c : Counts) (seen : List ℕ)
      → Tracks sh a from c seen
      → stops o a c d ≡ true
      → spec (sh.docs - d) d seen ≡ []
  round_ends from d c seen k h = expected_ends sh ctx o a yes_to (sh.docs - d) d seen (λ x l.
      ends-later _ _ _ _ _ (lasting.canceled d x l) (lasting.exhausted d x l)
        (sym (Tracks-ends sh o a ctx yes_to from d c seen k) ∙ h))

  -- What a round that decides `b` on `d` hands to the next one.
  next-Tracks :
      (d : ℕ) (c : Counts) (seen : List ℕ) (b : Bool)
      → d < sh.docs
      → Entered sh a grouped d c seen
      → Tracks sh a
          (suc d)
          (if b then count_matches (a.match_count d) c else c)
          (if b then d ∷ seen else seen)
  next-Tracks d c seen true l k = count-Tracks sh a grouped d c seen l k
  next-Tracks d c seen false l k = later-Tracks sh a grouped d c seen k

  round_on :
      (d : ℕ) (seen : List ℕ) (b : Bool)
      → d < sh.docs
      → passed seen d ≡ b
      → ends sh ctx o a yes_to seen d ≡ false
      → (let files = spec (sh.docs - suc d) (suc d) (if b then d ∷ seen else seen) in
          if b then (if a.reserve d then ok (d ∷ files) else ok []) else ok files)
        ≡ ok (spec (sh.docs - d) d seen)
  round_on d seen b inside p q =
      let left : sh.docs - d ≡ suc (sh.docs - suc d) = omega arith in
      cases b p ∙ ap (λ n. ok (spec n d seen)) (sym left)
    where
      cases :
          (b' : Bool)
          → passed seen d ≡ b'
          → (let files = spec (sh.docs - suc d) (suc d) (if b' then d ∷ seen else seen) in
              if b' then (if a.reserve d then ok (d ∷ files) else ok []) else ok files)
            ≡ ok (spec (suc (sh.docs - suc d)) d seen)
      cases false h = ap ok (sym (expected_fails sh ctx o a yes_to (sh.docs - suc d) d seen h))
      cases true h = elim (Bool-cases (a.reserve d)) [
        | inl r ↦
            if_true (a.reserve d) _ _ r
            ∙ ap ok (sym (expected_kept sh ctx o a yes_to (sh.docs - suc d) d seen h q r))
        | inr r ↦
            if_false (a.reserve d) _ _ r
            ∙ ap ok (sym (expected_refused sh ctx o a yes_to (sh.docs - suc d) d seen h q r))
      ]

  search_loop-expected :
      (fuel from : ℕ) (c : Counts) (seen : List ℕ) (ls : Leaves I)
      → sh.docs < from + fuel
      → from ≤ sh.docs
      → Tracks sh a from c seen
      → Ready from ls
      → search_loop it e cp sh ctx o a t fuel from c ls ≡ ok (spec (sh.docs - from) from seen)
  unfolding search_loop
  search_loop-expected zero from c seen ls h l k r = absurd (omega arith)
  search_loop-expected (suc fuel) from c seen ls h l k r =
      let (m, ls1, p, r1, s) =
        next_doc-skips it sh.docs law e cp leaf_of says cands t from ls truths named r in
      let g = greater m from in
      let g_right = greater_right m from in
      let over = λ (x : ℕ). hidden sh ctx x || over_limit sh o c x in
      let d = visible_from (sh.docs - g) over g in
      let (lo, hi, hid, shown) = visible_from_lem (sh.docs - g) over g in
      elim (dec_lt d sh.docs) [
        | no past ↦
            rw (p, le→leb sh.docs d (omega arith))
              (ap ok (
                sym (
                  expected_behind sh ctx o a yes_to from sh.docs seen l (omega arith)
                    (λ x b q. skipped m from d x c seen k s hid b (omega arith) q)
                  ∙ expected_none sh ctx o a yes_to (sh.docs - sh.docs) sh.docs seen
                      (omega arith))))
        | yes inside ↦
            let behind : spec (sh.docs - from) from seen ≡ spec (sh.docs - d) d seen =
              expected_behind sh ctx o a yes_to from d seen (omega arith) (omega arith)
                (λ x b q. skipped m from d x c seen k s hid b q (omega arith)) in
            let c1 = enter_repo (sh.repos d) c in
            let entered = enter_repo-Entered sh a grouped from d c seen k (omega arith) inside in
            elim (Bool-cases (stops o a c1 d)) [
              | inl halt ↦
                  rw (p, lt→leb_false sh.docs d inside, halt)
                    (ap ok (sym (behind ∙ round_ends d d c1 seen entered.tracks halt)))
              | inr on ↦
                  let (ls2, q, ready2, off) =
                    prepare-Prepares it sh.docs law e cp leaf_of says cands truths indexed few t d
                      from ls1 named linear (omega arith) inside (λ n x. r1 n) in
                  let (ev, w, known, starts) =
                    decide-value e (cp d) leaf_of (says d) (value_of d) t ls2.states
                      (labelled d inside)
                      (λ n. verdicts d n (ls2.states n) inside (λ x. (ready2 n x).0)) in
                  let b = yes_to d in
                  let ih =
                    search_loop-expected fuel (suc d)
                      (if b then count_matches (a.match_count d) c1 else c1)
                      (if b then d ∷ seen else seen) (record ls2 { states = ev.leaves })
                      (omega arith) inside (next-Tracks d c1 seen b inside entered)
                      (λ n. ready (suc d) n (ev.leaves n) (ls2.iters n) (λ x.
                        moved_on d n (ls2.states n) (ev.leaves n) (ls2.iters n) (starts n)
                          (ready2 n x).1)) in
                  rw (p, lt→leb_false sh.docs d inside, on, q, w, ih)
                    (round_on d seen b inside
                        (shown_passes from d c seen k (omega arith) inside (shown (omega arith)))
                        (sym (Tracks-ends sh o a ctx yes_to d d c1 seen entered.tracks) ∙ on)
                      ∙ ap ok (sym behind))
            ]
      ]

-- The search of a shard returns, and what it returns is what it is to find, read off document by
-- document: in order, the documents that are not hidden, whose repository is below its limit of
-- matches, and of which the match tree says yes by its Boolean value over what the leaves say; up
-- to the first of them at which the context is cancelled, the budget exhausted or the limit of
-- matches reached, and before the first that the budget refuses. The limits count the matches of
-- the documents found before. So it is whatever `nextDoc` skips and the cache answers. The leaves
-- say what their texts, predicates and masks decide, no leaf occurs twice, nodes at one address are
-- one node, the iterators keep their law and stand at the first document, as do the leaves; the
-- documents of a repository stand together, in the order of the repositories, and what is cancelled
-- or exhausted stays so.
pub search-expected :
    {I : Type 0} {Denotes : (ℕ → List CandidateMatch) → ℕ → I → Type 0} (it : MatchIterator I)
    (sh : IndexData) (law : IsMatchIterator it sh.docs Denotes) (e : Libraries)
    (cp : ℕ → ContentProvider) (leaf_of : ℕ → Leaf) (says : ℕ → ℕ → Bool)
    (cands : ℕ → ℕ → List CandidateMatch) (ctx : Context) (o : Limits) (a : Answers)
    (value_of : ℕ → ℕ → Bool) (t : MatchTree) (ls : Leaves I)
    → AreTrue it sh.docs law e cp leaf_of says cands
    → ((d : ℕ) → (cp d).idx ≡ d)
    → sh.docs < 2 ^ 32
    → IsGrouped sh
    → AreLasting a
    → IsNamed leaf_of t
    → IsLinear t
    → ((d : ℕ) → d < sh.docs → IsLabelled leaf_of (says d) (value_of d) t)
    → ((n : ℕ) → occurs n t ≡ false → leaf_of n ≡ no_match)
    → IsReady it sh.docs law e cp leaf_of says cands 0 ls
    → search it e cp sh ctx o a t ls ≡ ok (expected sh ctx o a (λ d. value (says d) t) sh.docs 0 [])
unfolding search
search-expected it sh law e cp leaf_of says cands ctx o a value_of t ls truths i few grouped lasting
      named linear labelled unused r =
    let all : sh.docs - 0 ≡ sh.docs = omega arith in
    search_loop-expected it sh law e cp leaf_of says cands truths i few ctx o a grouped lasting
      value_of t named linear labelled unused (suc sh.docs) 0 no_counts [] ls (omega arith)
      (omega arith) (Tracks-start sh a) r
    ∙ ap (λ k. ok (expected sh ctx o a (λ d. value (says d) t) k 0 [])) all
