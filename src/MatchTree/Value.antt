-- ===== src/MatchTree/Value.antt =====
-- What a match tree says of a document, and the states of an evaluation that agree with it.
use zoekt.Prelude.{ℕ, ◌==◌, ==_iff, if_cases, Bool, true, false, ◌&&◌, ◌||◌, inl, inr}
use zoekt.Prelude.{Option, none, some, ◌≡◌, refl, sym, ap, subst, ◌∙◌}
use zoekt.Outcome.{Outcome, ok}
use zoekt.MatchTree.Content.{Libraries, ContentProvider}
use zoekt.MatchTree.Leaf.{
  MatchesState, requires_higher_cost, found, none_found, matches_state_pred, Leaf, start_doc,
}
use zoekt.MatchTree.Tree.{
  MatchTree, and, or, not, file_name, boost, no_visit, leaf, Children, nil, cons, node,
}
use zoekt.MatchTree.Tree.{Evaluation, update, remember, look_up, eval_node}
use zoekt.MatchTree.Verdict.{Answers, Verdict}

abbrev pub negate : Bool → Bool
negate true = false
negate false = true

-- The Boolean value of a tree whose leaves have the values `says`.
abbrev mutual
  pub value : (ℕ → Bool) → MatchTree → Bool
  value says (and n cs) = all_values says cs
  value says (or n cs) = some_value says cs
  value says (not n t) = negate (value says t)
  value says (file_name n t) = value says t
  value says (boost n t) = value says t
  value says (no_visit n t) = value says t
  value says (leaf n l) = says n

  pub all_values : (ℕ → Bool) → Children → Bool
  all_values says nil = true
  all_values says (cons t ts) = value says t && all_values says ts

  pub some_value : (ℕ → Bool) → Children → Bool
  some_value says nil = false
  some_value says (cons t ts) = value says t || some_value says ts

-- Nodes with one address are one node: `leaf_of` and `value_of` say which leaf it is, and what it
-- says.
abbrev mutual
  pub IsLabelled : (ℕ → Leaf) → (ℕ → Bool) → (ℕ → Bool) → MatchTree → Type 0
  IsLabelled leaf_of says value_of (and n cs) =
      (value_of n ≡ all_values says cs) × AreLabelled leaf_of says value_of cs
  IsLabelled leaf_of says value_of (or n cs) =
      (value_of n ≡ some_value says cs) × AreLabelled leaf_of says value_of cs
  IsLabelled leaf_of says value_of (not n t) =
      (value_of n ≡ negate (value says t)) × IsLabelled leaf_of says value_of t
  IsLabelled leaf_of says value_of (file_name n t) =
      (value_of n ≡ value says t) × IsLabelled leaf_of says value_of t
  IsLabelled leaf_of says value_of (boost n t) =
      (value_of n ≡ value says t) × IsLabelled leaf_of says value_of t
  IsLabelled leaf_of says value_of (no_visit n t) =
      (value_of n ≡ value says t) × IsLabelled leaf_of says value_of t
  IsLabelled leaf_of says value_of (leaf n l) = (value_of n ≡ says n) × (leaf_of n ≡ l)

  pub AreLabelled : (ℕ → Leaf) → (ℕ → Bool) → (ℕ → Bool) → Children → Type 0
  AreLabelled leaf_of says value_of nil = Unit {0}
  AreLabelled leaf_of says value_of (cons t ts) =
      IsLabelled leaf_of says value_of t × AreLabelled leaf_of says value_of ts

pub value-node :
    (leaf_of : ℕ → Leaf) (says value_of : ℕ → Bool) (t : MatchTree)
    → IsLabelled leaf_of says value_of t
    → value_of (node t) ≡ value says t
value-node leaf_of says value_of (and n cs) l = l.0
value-node leaf_of says value_of (or n cs) l = l.0
value-node leaf_of says value_of (not n t) l = l.0
value-node leaf_of says value_of (file_name n t) l = l.0
value-node leaf_of says value_of (boost n t) l = l.0
value-node leaf_of says value_of (no_visit n t) l = l.0
value-node leaf_of says value_of (leaf n k) l = l.0

module _ (e : Libraries) (cp : ContentProvider) (leaf_of : ℕ → Leaf) (says value_of : ℕ → Bool)
    (starts : ℕ → ℕ) where
  -- What is known is right, and each leaf will say what it stands for.
  pub record IsConsistent (s : Evaluation) : Type 0 where
    pub known_right : (n : ℕ) (b : Bool) → s.known n ≡ some b → b ≡ value_of n
    pub leaves_right : (n : ℕ) → Verdict e cp (leaf_of n) (s.leaves n) (says n)
    pub starts_right : (n : ℕ) → start_doc (s.leaves n) ≡ starts n

  pub record Step (cost : ℕ) (b : Bool) (o : Outcome (MatchesState × Evaluation)) : Type 0 where
    pub answer : MatchesState
    pub after : Evaluation
    pub result : o ≡ ok (answer, after)
    pub consistent : IsConsistent after
    pub right : Answers cost answer b

  known-update :
      (s : Evaluation) (n : ℕ) (v : Bool)
      → IsConsistent s
      → v ≡ value_of n
      → IsConsistent (record s { known = update s.known n (some v) })
  known-update s n v c h = record {
    known_right = λ m b.
        if_cases (λ k. k ≡ some b → b ≡ value_of m) (n == m) (some v) (s.known m)
          (λ same p.
            let q : n ≡ m = (==_iff n m).0 same in
            subst (λ k. b ≡ value_of k) q (the_value b p ∙ h))
          (λ other p. c.known_right m b p);
    leaves_right = c.leaves_right;
    starts_right = c.starts_right;
  }
    where
      the_value : (b : Bool) → some v ≡ some b → b ≡ v
      the_value b p = cc

  remember-IsConsistent :
      (cost n : ℕ) (ms : MatchesState) (s : Evaluation) (b : Bool)
      → IsConsistent s
      → Answers cost ms b
      → value_of n ≡ b
      → IsConsistent (remember n ms s)
  remember-IsConsistent cost n requires_higher_cost s b c r h = c
  remember-IsConsistent cost n found s true c r h = known-update s n true c (sym h)
  remember-IsConsistent cost n found s false c (inl r) h = cc
  remember-IsConsistent cost n found s false c (inr r) h = cc (r.0)
  remember-IsConsistent cost n none_found s false c r h = known-update s n false c (sym h)
  remember-IsConsistent cost n none_found s true c (inl r) h = cc
  remember-IsConsistent cost n none_found s true c (inr r) h = cc (r.0)

  -- `evalMatchTree` answers as `matches` does.
  pub eval_node-Step :
      (cost n : ℕ) (b : Bool) (f : Evaluation → Outcome (MatchesState × Evaluation))
      (s : Evaluation)
      → value_of n ≡ b
      → IsConsistent s
      → Step cost b (f s)
      → Step cost b (eval_node n f s)
  eval_node-Step cost n b f s h c t = cached (s.known n) refl
    where
      cached : (k : Option Bool) → s.known n ≡ k → Step cost b (look_up k n f s)
      cached (some v) p = record {
        answer = matches_state_pred v;
        after = s;
        result = refl;
        consistent = c;
        right = inl (ap matches_state_pred (c.known_right n v p ∙ h));
      }
      cached none p = record {
        answer = t.answer;
        after = remember n t.answer t.after;
        result = rw t.result refl;
        consistent = remember-IsConsistent cost n t.answer t.after b t.consistent t.right h;
        right = t.right;
      }
