-- ===== src/MatchTree/Decide.antt =====
-- The evaluation of a match tree decides each document, and rightly.
use zoekt.Prelude.{
  ℕ, zero, suc, ◌+◌, ◌<◌, ◌==◌, ==_iff, if_cases, Bool, true, false, ◌&&◌, ◌||◌, inl, inr,
}
use zoekt.Prelude.{none, some, ◌≡◌, refl, sym, ap, subst, ◌∙◌, arith}
use zoekt.Prelude.{or_true, or_assoc, and_assoc, and_true, and_none, or_false}
use zoekt.Outcome.{Outcome, ok, ◌>>=◌}
use zoekt.MatchTree.Content.{Libraries, ContentProvider}
use zoekt.MatchTree.Leaf.{
  MatchesState, requires_higher_cost, found, none_found, matches_state_pred, cost_regexp, Leaf,
  LeafState, leaf_matches, start_doc,
}
use zoekt.MatchTree.Tree.{
  MatchTree, and, or, not, file_name, boost, no_visit, leaf, Children, nil, cons, node,
}
use zoekt.MatchTree.Tree.{
  Evaluation, update, eval_node, invert, and_state, or_state, and_next, matches, and_loop, or_loop,
}
use zoekt.MatchTree.Tree.{eval_match_tree, after_cost, decide_loop, decide}
use zoekt.MatchTree.Verdict.{Answers, Verdict, leaf_matches_lem}
use zoekt.MatchTree.Value.{
  negate, value, all_values, some_value, IsLabelled, AreLabelled, value-node, IsConsistent, Step,
  eval_node-Step,
}

-- What each answer says of the value.
abbrev Sure : ℕ → MatchesState → Bool → Type 0
Sure cost requires_higher_cost b = cost < cost_regexp
Sure cost found b = b ≡ true
Sure cost none_found b = b ≡ false

sure : (cost : ℕ) (ms : MatchesState) (b : Bool) → Answers cost ms b → Sure cost ms b
sure cost requires_higher_cost true (inl h) = cc
sure cost requires_higher_cost false (inl h) = cc
sure cost requires_higher_cost b (inr h) = h.1
sure cost found true h = refl
sure cost found false (inl h) = cc
sure cost found false (inr h) = cc (h.0)
sure cost none_found false h = refl
sure cost none_found true (inl h) = cc
sure cost none_found true (inr h) = cc (h.0)

answers : (cost : ℕ) (ms : MatchesState) (b : Bool) → Sure cost ms b → Answers cost ms b
answers cost requires_higher_cost b h = inr (refl, h)
answers cost found b h = inl (ap matches_state_pred (sym h))
answers cost none_found b h = inl (ap matches_state_pred (sym h))

invert-Sure :
    (cost : ℕ) (ms : MatchesState) (b : Bool) → Sure cost ms b → Sure cost (invert ms) (negate b)
invert-Sure cost requires_higher_cost b h = h
invert-Sure cost found b h = ap negate h
invert-Sure cost none_found b h = ap negate h

-- The state of an Or's loop answers for the children so far.
or_state-Sure :
    (cost : ℕ) (state ms : MatchesState) (a b : Bool)
    → Sure cost state a
    → Sure cost ms b
    → Sure cost (or_state state ms) (a || b)
or_state-Sure cost requires_higher_cost requires_higher_cost a b h k = h
or_state-Sure cost found requires_higher_cost a b h k = k
or_state-Sure cost none_found requires_higher_cost a b h k = k
or_state-Sure cost requires_higher_cost found a b h k = h
or_state-Sure cost found found a b h k = ap (λ x. a || x) k ∙ or_true a
or_state-Sure cost none_found found a b h k = ap (λ x. a || x) k ∙ or_true a
or_state-Sure cost requires_higher_cost none_found a b h k = h
or_state-Sure cost found none_found a b h k = or_false a b k ∙ h
or_state-Sure cost none_found none_found a b h k = or_false a b k ∙ h

module _ (e : Libraries) (cp : ContentProvider) (leaf_of : ℕ → Leaf) (says value_of : ℕ → Bool)
    (starts : ℕ → ℕ) where
  abbrev Good : Evaluation → Type 0
  Good s = IsConsistent e cp leaf_of says value_of starts s

  abbrev Steps : ℕ → Bool → Outcome (MatchesState × Evaluation) → Type 0
  Steps cost b o = Step e cp leaf_of says value_of starts cost b o

  leaf-Steps :
      (cost n : ℕ) (l : Leaf) (s : Evaluation)
      → leaf_of n ≡ l
      → Good s
      → Steps cost (says n) (
          leaf_matches e cp cost l (s.leaves n) >>= λ r.
          ok (r.0, record s { leaves = update s.leaves n r.1 }))
  leaf-Steps cost n l s h c =
      let t =
        leaf_matches_lem e cp cost l (s.leaves n) (says n)
          (subst (λ k. Verdict e cp k (s.leaves n) (says n)) h (c.leaves_right n)) in
      record {
        answer = t.answer;
        after = record s { leaves = update s.leaves n t.after };
        result = rw t.result refl;
        consistent = record {
          known_right = c.known_right;
          leaves_right = λ m.
              if_cases (λ k. Verdict e cp (leaf_of m) k (says m)) (n == m) t.after (s.leaves m)
                (λ same.
                  let q : n ≡ m = (==_iff n m).0 same in
                  subst (λ k. Verdict e cp (leaf_of k) t.after (says k)) q
                    (subst (λ k. Verdict e cp k t.after (says n)) (sym h) t.verdict))
                (λ other. c.leaves_right m);
          starts_right = λ m.
              if_cases (λ k. start_doc k ≡ starts m) (n == m) t.after (s.leaves m)
                (λ same.
                  let q : n ≡ m = (==_iff n m).0 same in
                  subst (λ k. start_doc t.after ≡ starts k) q (t.kept ∙ c.starts_right n))
                (λ other. c.starts_right m);
        };
        right = t.right;
      }

  -- What follows a step.
  then-Steps :
      (cost : ℕ) (b d : Bool) (o : Outcome (MatchesState × Evaluation))
      (f : MatchesState × Evaluation → Outcome (MatchesState × Evaluation))
      → Steps cost b o
      → ((ms : MatchesState) (s : Evaluation)
          → Good s
          → Answers cost ms b
          → Steps cost d (f (ms, s)))
      → Steps cost d (o >>= f)
  then-Steps cost b d o f t k =
      let u = k t.answer t.after t.consistent t.right in
      record {
        answer = u.answer;
        after = u.after;
        result = rw t.result u.result;
        consistent = u.consistent;
        right = u.right;
      }

  done-Steps :
      (cost : ℕ) (b : Bool) (ms : MatchesState) (s : Evaluation)
      → Good s
      → Answers cost ms b
      → Steps cost b (ok (ms, s))
  done-Steps cost b ms s c r = record {
    answer = ms;
    after = s;
    result = refl;
    consistent = c;
    right = r;
  }

  child-Steps :
      (cost : ℕ) (t : MatchTree) (s : Evaluation)
      → IsLabelled leaf_of says value_of t
      → Good s
      → Steps cost (value says t) (matches e cp cost t s)
      → Steps cost (value says t) (eval_node (node t) (matches e cp cost t) s)
  child-Steps cost t s l c r =
      eval_node-Step e cp leaf_of says value_of starts cost (node t) (value says t)
        (matches e cp cost t) s (value-node leaf_of says value_of t l) c r

  -- An And's loop goes on with the new state, or ends.
  and_next-Steps :
      (cost : ℕ) (a b d : Bool) (state ms : MatchesState) (s : Evaluation)
      (f : MatchesState → Evaluation → Outcome (MatchesState × Evaluation))
      → Good s
      → Sure cost state a
      → Sure cost ms b
      → ((state' : MatchesState)
          → Sure cost state' (a && b)
          → Steps cost ((a && b) && d) (f state' s))
      → Steps cost (a && (b && d)) (and_next (and_state state ms) s f)
  and_next-Steps cost a b d state ms s f c h k next =
      subst (λ v. Steps cost v (and_next (and_state state ms) s f)) (and_assoc a b d) (go ms k)
    where
      go :
          (m : MatchesState)
          → Sure cost m b
          → Steps cost ((a && b) && d) (and_next (and_state state m) s f)
      go requires_higher_cost l = next requires_higher_cost l
      go found l = next state (subst (Sure cost state) (sym (and_true a b l)) h)
      go none_found l =
          subst (λ v. Steps cost v (ok (none_found, s))) (sym (and_none a b d l))
            (done-Steps cost false none_found s c (inl refl))

  mutual
    unfolding matches

    matches-Steps :
        (cost : ℕ) (t : MatchTree) (s : Evaluation)
        → IsLabelled leaf_of says value_of t
        → Good s
        → Steps cost (value says t) (matches e cp cost t s)
    matches-Steps cost (and n cs) s l c = and_loop-Steps cost cs found true s l.1 c refl
    matches-Steps cost (or n cs) s l c = or_loop-Steps cost cs none_found false s l.1 c refl
    matches-Steps cost (not n t) s l c =
        then-Steps cost (value says t) (negate (value says t)) _ _
          (child-Steps cost t s l.1 c (matches-Steps cost t s l.1 c))
          (λ ms s' c' r.
            done-Steps cost _ (invert ms) s' c'
              (answers cost (invert ms) _ (invert-Sure cost ms (value says t) (sure cost ms _ r))))
    matches-Steps cost (file_name n t) s l c =
        child-Steps cost t s l.1 c (matches-Steps cost t s l.1 c)
    matches-Steps cost (boost n t) s l c = child-Steps cost t s l.1 c (matches-Steps cost t s l.1 c)
    matches-Steps cost (no_visit n t) s l c = matches-Steps cost t s l.1 c
    matches-Steps cost (leaf n k) s l c = leaf-Steps cost n k s l.1 c

    and_loop-Steps :
        (cost : ℕ) (cs : Children) (state : MatchesState) (a : Bool) (s : Evaluation)
        → AreLabelled leaf_of says value_of cs
        → Good s
        → Sure cost state a
        → Steps cost (a && all_values says cs) (and_loop e cp cost cs state s)
    and_loop-Steps cost nil state a s l c r =
        subst (λ v. Steps cost v (ok (state, s))) (sym (and_true a true refl))
          (done-Steps cost a state s c (answers cost state a r))
    and_loop-Steps cost (cons t ts) state a s l c r =
        then-Steps cost (value says t) (a && (value says t && all_values says ts)) _ _
          (child-Steps cost t s l.0 c (matches-Steps cost t s l.0 c))
          (λ ms s' c' r'.
            and_next-Steps cost a (value says t) (all_values says ts) state ms s' _ c' r
              (sure cost ms _ r')
              (λ state' k. and_loop-Steps cost ts state' (a && value says t) s' l.1 c' k))

    or_loop-Steps :
        (cost : ℕ) (cs : Children) (state : MatchesState) (b : Bool) (s : Evaluation)
        → AreLabelled leaf_of says value_of cs
        → Good s
        → Sure cost state b
        → Steps cost (b || some_value says cs) (or_loop e cp cost cs state s)
    or_loop-Steps cost nil state b s l c r =
        subst (λ v. Steps cost v (ok (state, s))) (sym (or_false b false refl))
          (done-Steps cost b state s c (answers cost state b r))
    or_loop-Steps cost (cons t ts) state b s l c r =
        then-Steps cost (value says t) (b || (value says t || some_value says ts)) _ _
          (child-Steps cost t s l.0 c (matches-Steps cost t s l.0 c))
          (λ ms s' c' r'.
            subst (λ v. Steps cost v (or_loop e cp cost ts (or_state state ms) s'))
              (or_assoc b (value says t) (some_value says ts))
              (or_loop-Steps cost ts (or_state state ms) (b || value says t) s' l.1 c'
                (or_state-Sure cost state ms b (value says t) r (sure cost ms _ r'))))

  pub eval_match_tree-Steps :
      (cost : ℕ) (t : MatchTree) (s : Evaluation)
      → IsLabelled leaf_of says value_of t
      → Good s
      → Steps cost (value says t) (eval_match_tree e cp cost t s)
  unfolding eval_match_tree
  eval_match_tree-Steps cost t s l c = child-Steps cost t s l c (matches-Steps cost t s l c)

  abbrev Decides : MatchTree → Outcome (Bool × Evaluation) → Type 0
  Decides t o = (s : Evaluation) × (o ≡ ok (value says t, s)) × Good s

  -- What the loop makes of an answer at a cost.
  after_cost-Decides :
      (left cost : ℕ) (t : MatchTree) (ms : MatchesState) (s : Evaluation)
      (more : Outcome (Bool × Evaluation))
      → left + cost ≡ cost_regexp
      → Good s
      → Sure cost ms (value says t)
      → (value says t ≡ true → left ≡ 0 → Decides t more)
      → (0 < left → Decides t more)
      → Decides t (after_cost e cp ms left s more)
  after_cost-Decides zero cost t requires_higher_cost s more h c k last next = absurd (omega arith)
  after_cost-Decides (suc left) cost t requires_higher_cost s more h c k last next =
      next (omega arith)
  after_cost-Decides zero cost t found s more h c k last next = last k refl
  after_cost-Decides (suc left) cost t found s more h c k last next = next (omega arith)
  after_cost-Decides left cost t none_found s more h c k last next =
      (s, ap (λ b. ok (b, s)) (sym k), c)

  decide_loop-Decides :
      (left cost : ℕ) (t : MatchTree) (s : Evaluation)
      → left + cost ≡ cost_regexp
      → IsLabelled leaf_of says value_of t
      → Good s
      → Decides t (decide_loop e cp left cost t s)
  unfolding decide_loop
  decide_loop-Decides zero cost t s h l c =
      let u = eval_match_tree-Steps cost t s l c in
      let (s', p, g) =
        after_cost-Decides zero cost t u.answer u.after (ok (true, u.after)) h u.consistent
          (sure cost u.answer _ u.right)
          (λ v z. (u.after, ap (λ b. ok (b, u.after)) (sym v), u.consistent))
          (λ z. absurd (omega arith)) in
      (s', rw u.result p, g)
  decide_loop-Decides (suc left) cost t s h l c =
      let u = eval_match_tree-Steps cost t s l c in
      let more = decide_loop-Decides left (suc cost) t u.after (omega arith) l u.consistent in
      let (s', p, g) =
        after_cost-Decides (suc left) cost t u.answer u.after _ h u.consistent
          (sure cost u.answer _ u.right) (λ v z. more) (λ z. more) in
      (s', rw u.result p, g)

-- For a document the costs are tried in turn until the match tree is decided: this returns, without
-- the panic for a tree that is not decided at the highest cost, and the answer is the Boolean value
-- of the tree over what its leaves say, whatever was cached and skipped on the way; what is cached
-- is right, and the leaves stay at their document. Nodes at one address are one node, and each leaf
-- is ready to say what it stands for.
pub decide-value :
    (e : Libraries) (cp : ContentProvider) (leaf_of : ℕ → Leaf) (says value_of : ℕ → Bool)
    (t : MatchTree) (leaves : ℕ → LeafState)
    → IsLabelled leaf_of says value_of t
    → ((n : ℕ) → Verdict e cp (leaf_of n) (leaves n) (says n))
    → (s : Evaluation) × (decide e cp t leaves ≡ ok (value says t, s))
      × ((n : ℕ) (b : Bool) → s.known n ≡ some b → b ≡ value_of n)
      × ((n : ℕ) → start_doc (s.leaves n) ≡ start_doc (leaves n))
unfolding decide
decide-value e cp leaf_of says value_of t leaves l h =
    let (s, p, c) =
      decide_loop-Decides e cp leaf_of says value_of (λ n. start_doc (leaves n)) cost_regexp 0 t
        (record { known = λ n. none; leaves = leaves }) (omega arith) l
        (record { known_right = λ n b q. cc; leaves_right = h; starts_right = λ n. refl }) in
    (s, p, c.known_right, c.starts_right)
