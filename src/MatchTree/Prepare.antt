-- ===== src/MatchTree/Prepare.antt =====
-- `prepare` readies each leaf of a match tree for a document.
use zoekt.Prelude.{ℕ, ◌+◌, ◌^◌, ◌<◌, ◌≤◌, ◌==◌, ==_iff, Bool, true, false, ◌||◌, ◌⊎◌, inl, inr}
use zoekt.Prelude.{List, [], ◌≡◌, refl, sym, subst, ◌∙◌, arith, if_true, if_false}
use zoekt.Outcome.{Outcome, ok}
use zoekt.MatchTree.Content.{Libraries, ContentProvider, CandidateMatch}
use zoekt.MatchTree.Leaf.{Leaf, no_match, brute_force, doc, branch, regexp, word, substr, LeafState}
use zoekt.MatchTree.Tree.{
  MatchTree, and, or, not, file_name, boost, no_visit, leaf, Children, nil, cons, update,
}
use zoekt.MatchTree.Verdict.{Verdict}
use zoekt.MatchTree.Docs.{MatchIterator, Leaves, leaf_prepare, prepare_at, prepare, prepare_all}
use zoekt.MatchTree.Facts.{
  IsMatchIterator, Says, StartsAt, leaf_prepare-Verdict, leaf_prepare-StartsAt,
}
use zoekt.MatchTree.Skip.{IsNamed, AreNamed, IterAt, AreTrue}

-- A leaf of the tree is at the address.
abbrev mutual
  pub occurs : ℕ → MatchTree → Bool
  occurs n (and k cs) = occurs_in n cs
  occurs n (or k cs) = occurs_in n cs
  occurs n (not k t) = occurs n t
  occurs n (file_name k t) = occurs n t
  occurs n (boost k t) = occurs n t
  occurs n (no_visit k t) = occurs n t
  occurs n (leaf k l) = k == n

  pub occurs_in : ℕ → Children → Bool
  occurs_in n nil = false
  occurs_in n (cons t ts) = occurs n t || occurs_in n ts

-- No leaf occurs twice.
abbrev mutual
  pub IsLinear : MatchTree → Type 0
  IsLinear (and k cs) = AreLinear cs
  IsLinear (or k cs) = AreLinear cs
  IsLinear (not k t) = IsLinear t
  IsLinear (file_name k t) = IsLinear t
  IsLinear (boost k t) = IsLinear t
  IsLinear (no_visit k t) = IsLinear t
  IsLinear (leaf k l) = Unit {0}

  pub AreLinear : Children → Type 0
  AreLinear nil = Unit {0}
  AreLinear (cons t ts) =
      ((n : ℕ) → occurs n t ≡ true → occurs_in n ts ≡ false) × IsLinear t × AreLinear ts

module _ {I : Type 0} {Denotes : (ℕ → List CandidateMatch) → ℕ → I → Type 0} (it : MatchIterator I)
    (docs : ℕ) (law : IsMatchIterator it docs Denotes) (e : Libraries) (cp : ℕ → ContentProvider)
    (leaf_of : ℕ → Leaf) (says : ℕ → ℕ → Bool) (cands : ℕ → ℕ → List CandidateMatch)
    (truths : AreTrue it docs law e cp leaf_of says cands) (indexed : (d : ℕ) → (cp d).idx ≡ d)
    (few : docs < 2 ^ 32) where
  abbrev pub ReadyAt : ℕ → ℕ → LeafState → I → Type 0
  ReadyAt from n s i = StartsAt (leaf_of n) s from × IterAt Denotes (leaf_of n) (cands n) from i

  abbrev pub PreparedAt : ℕ → ℕ → LeafState → I → Type 0
  PreparedAt d n s i = Verdict e (cp d) (leaf_of n) s (says d n) × ReadyAt (d + 1) n s i

  -- After `prepare` the leaves for which `here` holds are prepared, and the others as they were.
  abbrev pub Prepares : ℕ → (ℕ → Bool) → Leaves I → Outcome (Leaves I) → Type 0
  Prepares d here ls o =
      (ls' : Leaves I) × (o ≡ ok ls')
      × ((n : ℕ) → here n ≡ true → PreparedAt d n (ls'.states n) (ls'.iters n))
      × ((n : ℕ) → here n ≡ false → (ls'.states n ≡ ls.states n) × (ls'.iters n ≡ ls.iters n))

  updated : {A : Type 0} (n k : ℕ) (f : ℕ → A) (a : A) → (n == k) ≡ true → update f n a k ≡ a
  updated n k f a h = if_true (n == k) a (f k) h

  not_updated : {A : Type 0} (n k : ℕ) (f : ℕ → A) (a : A) → (n == k) ≡ false → update f n a k ≡ f k
  not_updated n k f a h = if_false (n == k) a (f k) h

  -- A leaf that gets a new state and maybe a new iterator.
  leaf-Prepares :
      (n d : ℕ) (ls : Leaves I) (s : LeafState) (iters : ℕ → I)
      → PreparedAt d n s (iters n)
      → ((k : ℕ) → (n == k) ≡ false → iters k ≡ ls.iters k)
      → Prepares d (λ k. n == k) ls (ok (record { states = update ls.states n s; iters = iters }))
  leaf-Prepares n d ls s iters p same = (
    record { states = update ls.states n s; iters = iters },
    refl,
    (λ k h.
        let q : n ≡ k = (==_iff n k).0 h in
        subst (λ x. PreparedAt d k x (iters k)) (sym (updated n k ls.states s h))
          (subst (λ x. PreparedAt d x s (iters x)) q p)),
    λ k h. (not_updated n k ls.states s h, same k h),
  )

  plain-Prepares :
      (n d from : ℕ) (l : Leaf) (ls : Leaves I)
      → leaf_of n ≡ l
      → d < docs
      → ((cs : List CandidateMatch)
          → leaf_prepare d l [] (ls.states n) ≡ leaf_prepare d l cs (ls.states n))
      → IterAt Denotes l (cands n) (d + 1) (ls.iters n)
      → Prepares d
          (λ k. n == k)
          ls
          (ok (record ls { states = update ls.states n (leaf_prepare d l [] (ls.states n)) }))
  plain-Prepares n d from l ls h a same i =
      leaf-Prepares n d ls (leaf_prepare d l [] (ls.states n)) ls.iters
        (
          subst (λ k. Verdict e (cp d) k (leaf_prepare d l [] (ls.states n)) (says d n)) (sym h)
              (subst (λ s. Verdict e (cp d) l s (says d n)) (sym (same (cands n d)))
                (leaf_prepare-Verdict e cp docs l d (cands n d) (says d n) (ls.states n) (indexed d)
                  (subst (λ k. Says e cp docs k d (cands n d) (says d n)) h
                    (truths.says_right n d a)))),
          (
            subst (λ k. StartsAt k (leaf_prepare d l [] (ls.states n)) (d + 1)) (sym h)
                (leaf_prepare-StartsAt l d [] (ls.states n) (omega arith)),
            subst (λ k. IterAt Denotes k (cands n) (d + 1) (ls.iters n)) (sym h) i,
          ),
        )
        (λ k x. refl)

  prepare_at-Prepares :
      (n d from : ℕ) (l : Leaf) (ls : Leaves I)
      → leaf_of n ≡ l
      → from ≤ d
      → d < docs
      → ReadyAt from n (ls.states n) (ls.iters n)
      → Prepares d (λ k. n == k) ls (prepare_at it d n l ls)
  unfolding prepare_at leaf_prepare
  prepare_at-Prepares n d from no_match ls h b a r =
      plain-Prepares n d from no_match ls h a (λ cs. refl) tt
  prepare_at-Prepares n d from brute_force ls h b a r =
      plain-Prepares n d from brute_force ls h a (λ cs. refl) tt
  prepare_at-Prepares n d from (doc k p) ls h b a r =
      plain-Prepares n d from (doc k p) ls h a (λ cs. refl) tt
  prepare_at-Prepares n d from (branch x y z) ls h b a r =
      plain-Prepares n d from (branch x y z) ls h a (λ cs. refl) tt
  prepare_at-Prepares n d from (regexp x f) ls h b a r =
      plain-Prepares n d from (regexp x f) ls h a (λ cs. refl) tt
  prepare_at-Prepares n d from (word x f) ls h b a r =
      plain-Prepares n d from (word x f) ls h a (λ cs. refl) tt
  prepare_at-Prepares n d from (substr f) ls h b a r =
      let (i1, i2, p, q, den) =
        law.candidates_lem (cands n) from d (ls.iters n)
          (subst (λ k. IterAt Denotes k (cands n) from (ls.iters n)) h r.1) b a in
      let s = leaf_prepare d (substr f) (cands n d) (ls.states n) in
      let (ls', z, on, off) =
        leaf-Prepares n d ls s (update ls.iters n i2)
          (
            subst (λ k. Verdict e (cp d) k s (says d n)) (sym h)
                (leaf_prepare-Verdict e cp docs (substr f) d (cands n d) (says d n) (ls.states n)
                  (indexed d)
                  (subst (λ k. Says e cp docs k d (cands n d) (says d n)) h
                    (truths.says_right n d a))),
            (
              subst (λ k. StartsAt k s (d + 1)) (sym h) tt,
              subst (λ k. IterAt Denotes k (cands n) (d + 1) (update ls.iters n i2 n)) (sym h)
                  (subst (λ x. Denotes (cands n) (d + 1) x)
                    (sym (updated n n ls.iters i2 ((==_iff n n).1 refl))) den),
            ),
          )
          (λ k x. not_updated n k ls.iters i2 x) in
      (ls', rw (p, q) z, on, off)

  or_left : (a b : Bool) → (a || b) ≡ false → a ≡ false
  or_left true b h = h
  or_left false b h = refl

  or_right : (a b : Bool) → (a || b) ≡ false → b ≡ false
  or_right true b h = cc
  or_right false b h = h

  or_either : (a b : Bool) → (a || b) ≡ true → (a ≡ true) ⊎ (b ≡ true)
  or_either true b h = inl refl
  or_either false b h = inr h

  absent : (a b : Bool) → (a ≡ true → b ≡ false) → b ≡ true → a ≡ false
  absent true b h k = let z = h refl in cc
  absent false b h k = refl

  present : (a b : Bool) → a ≡ true → (a || b) ≡ true
  present true b h = refl
  present false b h = cc

  present_right : (a b : Bool) → b ≡ true → (a || b) ≡ true
  present_right true b h = refl
  present_right false b h = h

  -- What is prepared first is left alone thereafter.
  two-Prepares :
      (d : ℕ) (a b : ℕ → Bool) (ls ls1 ls2 : Leaves I)
      → ((n : ℕ) → a n ≡ true → b n ≡ false)
      → ((n : ℕ) → a n ≡ true → PreparedAt d n (ls1.states n) (ls1.iters n))
      → ((n : ℕ) → a n ≡ false → (ls1.states n ≡ ls.states n) × (ls1.iters n ≡ ls.iters n))
      → ((n : ℕ) → b n ≡ true → PreparedAt d n (ls2.states n) (ls2.iters n))
      → ((n : ℕ) → b n ≡ false → (ls2.states n ≡ ls1.states n) × (ls2.iters n ≡ ls1.iters n))
      → ((n : ℕ) → (a n || b n) ≡ true → PreparedAt d n (ls2.states n) (ls2.iters n))
        × ((n : ℕ)
            → (a n || b n) ≡ false
            → (ls2.states n ≡ ls.states n) × (ls2.iters n ≡ ls.iters n))
  two-Prepares d a b ls ls1 ls2 apart on1 off1 on2 off2 = (
    λ n h. elim (or_either (a n) (b n) h) [
      | inl x ↦
          let (p, q) = off2 n (apart n x) in
          subst (λ i. PreparedAt d n (ls2.states n) i) (sym q)
            (subst (λ s. PreparedAt d n s (ls1.iters n)) (sym p) (on1 n x))
      | inr y ↦ on2 n y
    ],
    λ n h.
        let (p, q) = off2 n (or_right (a n) (b n) h) in
        let (p', q') = off1 n (or_left (a n) (b n) h) in (p ∙ p', q ∙ q'),
  )

  mutual
    unfolding prepare

    pub prepare-Prepares :
        (t : MatchTree) (d from : ℕ) (ls : Leaves I)
        → IsNamed leaf_of t
        → IsLinear t
        → from ≤ d
        → d < docs
        → ((n : ℕ) → occurs n t ≡ true → ReadyAt from n (ls.states n) (ls.iters n))
        → Prepares d (λ n. occurs n t) ls (prepare it d t ls)
    prepare-Prepares (and k cs) d from ls h l a b r = prepare_all-Prepares cs d from ls h l a b r
    prepare-Prepares (or k cs) d from ls h l a b r = prepare_all-Prepares cs d from ls h l a b r
    prepare-Prepares (not k t) d from ls h l a b r = prepare-Prepares t d from ls h l a b r
    prepare-Prepares (file_name k t) d from ls h l a b r = prepare-Prepares t d from ls h l a b r
    prepare-Prepares (boost k t) d from ls h l a b r = prepare-Prepares t d from ls h l a b r
    prepare-Prepares (no_visit k t) d from ls h l a b r = prepare-Prepares t d from ls h l a b r
    prepare-Prepares (leaf k l) d from ls h li a b r =
        prepare_at-Prepares k d from l ls h a b (r k ((==_iff k k).1 refl))

    prepare_all-Prepares :
        (cs : Children) (d from : ℕ) (ls : Leaves I)
        → AreNamed leaf_of cs
        → AreLinear cs
        → from ≤ d
        → d < docs
        → ((n : ℕ) → occurs_in n cs ≡ true → ReadyAt from n (ls.states n) (ls.iters n))
        → Prepares d (λ n. occurs_in n cs) ls (prepare_all it d cs ls)
    prepare_all-Prepares nil d from ls h l a b r = (ls, refl, (λ n x. cc), λ n x. (refl, refl))
    prepare_all-Prepares (cons t ts) d from ls h l a b r =
        let (ls1, p, on1, off1) =
          prepare-Prepares t d from ls h.0 l.1 a b
            (λ n x. r n (present (occurs n t) (occurs_in n ts) x)) in
        let (ls2, q, on2, off2) = prepare_all-Prepares ts d from ls1 h.1 l.2 a b (λ n x.
          let (u, v) = off1 n (absent (occurs n t) (occurs_in n ts) (l.0 n) x) in
          subst (λ i. ReadyAt from n (ls1.states n) i) (sym v)
            (subst (λ s. ReadyAt from n s (ls.iters n)) (sym u)
              (r n (present_right (occurs n t) (occurs_in n ts) x)))) in
        let (on, off) =
          two-Prepares d (λ n. occurs n t) (λ n. occurs_in n ts) ls ls1 ls2 l.0 on1 off1 on2 off2 in
        (ls2, rw (p, q) refl, on, off)
