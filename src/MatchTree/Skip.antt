-- ===== src/MatchTree/Skip.antt =====
-- `nextDoc` of a match tree skips documents only of which the tree says no.
use zoekt.Prelude.{ℕ, ◌<◌, ◌≤◌, ◌==◌, ==_iff, if_cases, Bool, true, false, ◌&&◌, ◌||◌}
use zoekt.Prelude.{List, [], ◌∷◌, ◌≡◌, refl, sym, ap, subst, ◌∙◌, arith}
use zoekt.Prelude.{or_assoc, and_assoc, and_true, or_false, and_false}
use native.Mathlib.Decide.{dec_lt}
use zoekt.Outcome.{Outcome, ok, ◌>>=◌}
use zoekt.Hits.Lists.{max_u32}
use zoekt.MatchTree.Content.{Libraries, ContentProvider, CandidateMatch}
use zoekt.MatchTree.Leaf.{
  Leaf, no_match, brute_force, doc, branch, regexp, word, substr, prune, non_empty,
}
use zoekt.MatchTree.Tree.{
  MatchTree, and, or, not, file_name, boost, no_visit, leaf, Children, nil, cons, update,
}
use zoekt.MatchTree.Value.{value, all_values, some_value}
use zoekt.MatchTree.Docs.{
  MatchIterator, Leaves, greater, lesser, leaf_next_doc, next_doc_at, next_doc, max_loop, min_loop,
}
use zoekt.MatchTree.Facts.{
  IsMatchIterator, IsSized, Says, Skips, StartsAt, IsPlain, leaf_next_doc-Skips,
}

abbrev mutual
  pub IsNamed : (ℕ → Leaf) → MatchTree → Type 0
  IsNamed leaf_of (and n cs) = AreNamed leaf_of cs
  IsNamed leaf_of (or n cs) = AreNamed leaf_of cs
  IsNamed leaf_of (not n t) = IsNamed leaf_of t
  IsNamed leaf_of (file_name n t) = IsNamed leaf_of t
  IsNamed leaf_of (boost n t) = IsNamed leaf_of t
  IsNamed leaf_of (no_visit n t) = IsNamed leaf_of t
  IsNamed leaf_of (leaf n l) = leaf_of n ≡ l

  pub AreNamed : (ℕ → Leaf) → Children → Type 0
  AreNamed leaf_of nil = Unit {0}
  AreNamed leaf_of (cons t ts) = IsNamed leaf_of t × AreNamed leaf_of ts

no_candidates :
    (e : Libraries) (cp : ContentProvider) (cs : List CandidateMatch) (b : Bool)
    → (ms : List CandidateMatch) × (prune e cp cs ≡ ok ms) × (b ≡ non_empty ms)
    → cs ≡ []
    → b ≡ false
unfolding prune
no_candidates e cp [] b (ms, p, h) z = let q : ms ≡ [] = cc in h ∙ ap non_empty q
no_candidates e cp (c ∷ cs) b h z = cc

greater_left : (d m best : ℕ) → d < greater m best → ¬ (d < best) → d < m
greater_left d m best h k = ground arith

lesser_left : (d m best : ℕ) → d < lesser m best → d < m
lesser_left d m best h = ground arith

lesser_right : (d m best : ℕ) → d < lesser m best → d < best
lesser_right d m best h = ground arith

-- The iterator of a substring leaf stands for its candidates.
abbrev pub IterAt :
    {I : Type 0}
    → ((ℕ → List CandidateMatch) → ℕ → I → Type 0)
    → Leaf
    → (ℕ → List CandidateMatch)
    → ℕ
    → I
    → Type 0
IterAt Denotes (substr f) cs from i = Denotes cs from i
IterAt Denotes l cs from i = Unit {0}

module _ {I : Type 0} {Denotes : (ℕ → List CandidateMatch) → ℕ → I → Type 0} (it : MatchIterator I)
    (docs : ℕ) (law : IsMatchIterator it docs Denotes) (e : Libraries) (cp : ℕ → ContentProvider)
    (leaf_of : ℕ → Leaf) (says : ℕ → ℕ → Bool) (cands : ℕ → ℕ → List CandidateMatch) where
  -- All leaves stand at the document `from`.
  abbrev pub IsReady : ℕ → Leaves I → Type 0
  IsReady from ls =
      (n : ℕ)
      → StartsAt (leaf_of n) (ls.states n) from
        × IterAt Denotes (leaf_of n) (cands n) from (ls.iters n)

  -- What the leaves say is true.
  pub record AreTrue : Type 0 where
    pub sized : (n : ℕ) → IsSized docs (leaf_of n)
    pub says_right : (n d : ℕ) → d < docs → Says e cp docs (leaf_of n) d (cands n d) (says d n)

  abbrev Jump : ℕ → (ℕ → Bool) → Outcome (ℕ × Leaves I) → Type 0
  Jump from b o =
      (m : ℕ) × (ls' : Leaves I) × (o ≡ ok (m, ls')) × IsReady from ls' × Skips docs from m b

  plain-Jump :
      (n from : ℕ) (l : Leaf) (ls : Leaves I)
      → AreTrue
      → leaf_of n ≡ l
      → IsPlain l
      → IsReady from ls
      → Jump from (λ d. says d n) (leaf_next_doc l (ls.states n) >>= λ m. ok (m, ls))
  plain-Jump n from l ls truths h pl r =
      let (m, p, s) =
        leaf_next_doc-Skips e cp docs l (ls.states n) from (λ d. says d n) (cands n) pl
          (subst (IsSized docs) h (truths.sized n))
          (subst (λ k. StartsAt k (ls.states n) from) h (r n).0)
          (λ d a.
            subst (λ k. Says e cp docs k d (cands n d) (says d n)) h (truths.says_right n d a)) in
      (m, ls, rw p refl, r, s)

  next_doc_at-Jump :
      (n from : ℕ) (l : Leaf) (ls : Leaves I)
      → AreTrue
      → leaf_of n ≡ l
      → IsReady from ls
      → Jump from (λ d. says d n) (next_doc_at it n l ls)
  unfolding next_doc_at
  next_doc_at-Jump n from no_match ls t h r = plain-Jump n from no_match ls t h tt r
  next_doc_at-Jump n from brute_force ls t h r = plain-Jump n from brute_force ls t h tt r
  next_doc_at-Jump n from (doc k p) ls t h r = plain-Jump n from (doc k p) ls t h tt r
  next_doc_at-Jump n from (branch fs ms rs) ls t h r =
      plain-Jump n from (branch fs ms rs) ls t h tt r
  next_doc_at-Jump n from (regexp re f) ls t h r = plain-Jump n from (regexp re f) ls t h tt r
  next_doc_at-Jump n from (word w f) ls t h r = plain-Jump n from (word w f) ls t h tt r
  next_doc_at-Jump n from (substr f) ls t h r =
      let (m, i, p, d', s) =
        law.next_doc_lem (cands n) from (ls.iters n)
          (subst (λ k. IterAt Denotes k (cands n) from (ls.iters n)) h (r n).1) in
      (
        m,
        record ls { iters = update ls.iters n i },
        rw p refl,
        (λ k. (
          (r k).0,
          if_cases (IterAt Denotes (leaf_of k) (cands k) from) (n == k) i (ls.iters k)
              (λ same.
                let q : n ≡ k = (==_iff n k).0 same in
                subst (λ x. IterAt Denotes (leaf_of x) (cands x) from i) q
                  (subst (λ x. IterAt Denotes x (cands n) from i) (sym h) d'))
              (λ other. (r k).1),
        )),
        λ d a b c.
            no_candidates e (cp d) (cands n d) (says d n)
              (subst (λ x. Says e cp docs x d (cands n d) (says d n)) h (t.says_right n d c))
              (s d a b c),
      )

  -- Of two numbers the greater one skips what either does, and the lesser one what both do.
  greater-Skips :
      (from m best : ℕ) (a b : ℕ → Bool) (d : ℕ)
      → Skips docs from m a
      → (d < best → b d ≡ false)
      → from ≤ d
      → d < docs
      → d < greater m best
      → (b d && a d) ≡ false
  greater-Skips from m best a b d s k x y z = elim (dec_lt d best) [
    | yes h ↦ ap (λ v. v && a d) (k h)
    | no h ↦ and_false (b d) (a d) (s d x (greater_left d m best z h) y)
  ]

  mutual
    unfolding next_doc

    next_doc-Jump :
        (t : MatchTree) (from : ℕ) (ls : Leaves I)
        → AreTrue
        → IsNamed leaf_of t
        → IsReady from ls
        → Jump from (λ d. value (says d) t) (next_doc it t ls)
    next_doc-Jump (and n cs) from ls t h r =
        max_loop-Jump cs 0 from ls (λ d. true) t h r (λ d a b c. absurd (omega arith))
    next_doc-Jump (or n cs) from ls t h r =
        min_loop-Jump cs max_u32 from ls (λ d. false) t h r (λ d a b c. refl)
    next_doc-Jump (not n x) from ls t h r = (0, ls, refl, r, λ d a b c. absurd (omega arith))
    next_doc-Jump (file_name n x) from ls t h r = next_doc-Jump x from ls t h r
    next_doc-Jump (boost n x) from ls t h r = next_doc-Jump x from ls t h r
    next_doc-Jump (no_visit n x) from ls t h r = next_doc-Jump x from ls t h r
    next_doc-Jump (leaf n l) from ls t h r = next_doc_at-Jump n from l ls t h r

    max_loop-Jump :
        (cs : Children) (best from : ℕ) (ls : Leaves I) (b : ℕ → Bool)
        → AreTrue
        → AreNamed leaf_of cs
        → IsReady from ls
        → Skips docs from best b
        → Jump from (λ d. b d && all_values (says d) cs) (max_loop it cs best ls)
    max_loop-Jump nil best from ls b t h r s =
        (best, ls, refl, r, λ d x y z. and_true (b d) true refl ∙ s d x y z)
    max_loop-Jump (cons c cs) best from ls b t h r s =
        let (m, ls', p, r', s') = next_doc-Jump c from ls t h.0 r in
        let (m2, ls2, p2, r2, s2) =
          max_loop-Jump cs (greater m best) from ls' (λ d. b d && value (says d) c) t h.1 r'
            (λ d x y z.
              greater-Skips from m best (λ k. value (says k) c) b d s' (λ y'. s d x y' z) x z y) in
        (m2, ls2, rw (p, p2) refl, r2, λ d x y z. sym (and_assoc (b d) _ _) ∙ s2 d x y z)

    min_loop-Jump :
        (cs : Children) (best from : ℕ) (ls : Leaves I) (b : ℕ → Bool)
        → AreTrue
        → AreNamed leaf_of cs
        → IsReady from ls
        → Skips docs from best b
        → Jump from (λ d. b d || some_value (says d) cs) (min_loop it cs best ls)
    min_loop-Jump nil best from ls b t h r s =
        (best, ls, refl, r, λ d x y z. or_false (b d) false refl ∙ s d x y z)
    min_loop-Jump (cons c cs) best from ls b t h r s =
        let (m, ls', p, r', s') = next_doc-Jump c from ls t h.0 r in
        let (m2, ls2, p2, r2, s2) =
          min_loop-Jump cs (lesser m best) from ls' (λ d. b d || value (says d) c) t h.1 r'
            (λ d x y z.
              or_false (b d) (value (says d) c) (s' d x (lesser_left d m best y) z)
              ∙ s d x (lesser_right d m best y) z) in
        (m2, ls2, rw (p, p2) refl, r2, λ d x y z. sym (or_assoc (b d) _ _) ∙ s2 d x y z)

  -- `nextDoc` of a tree whose leaves all stand at a document returns, and the tree says no of each
  -- document between there and the one returned; the leaves still stand where they stood.
  pub next_doc-skips :
      (t : MatchTree) (from : ℕ) (ls : Leaves I)
      → AreTrue
      → IsNamed leaf_of t
      → IsReady from ls
      → (m : ℕ) × (ls' : Leaves I) × (next_doc it t ls ≡ ok (m, ls'))
        × IsReady from ls'
        × ((d : ℕ) → from ≤ d → d < m → d < docs → value (says d) t ≡ false)
  next_doc-skips t from ls truths h r = next_doc-Jump t from ls truths h r
