-- ===== src/MatchTree/Tree.antt =====
-- Match trees, and the evaluation of one for a document (index/matchtree.go, index/eval.go).
use zoekt.Prelude.{ℕ, zero, suc, ◌==◌, if◌then◌else◌, Bool, true, false, Option, none, some}
use zoekt.Outcome.{Outcome, ok, panic, ◌>>=◌}
use zoekt.MatchTree.Content.{Libraries, ContentProvider}
use zoekt.MatchTree.Leaf.{MatchesState, requires_higher_cost, found, none_found, matches_state_pred}
use zoekt.MatchTree.Leaf.{Leaf, LeafState, leaf_matches, cost_regexp}

-- Each node has a number for its address; leaves that are cached for several queries may occur at
-- several places. `boostMatchTree` is kept without its weight.
mutual
  pub data MatchTree : Type 0 where
    and : ℕ → Children → MatchTree
    or : ℕ → Children → MatchTree
    not : ℕ → MatchTree → MatchTree
    file_name : ℕ → MatchTree → MatchTree
    boost : ℕ → MatchTree → MatchTree
    no_visit : ℕ → MatchTree → MatchTree
    leaf : ℕ → Leaf → MatchTree

  pub data Children : Type 0 where
    nil : Children
    cons : MatchTree → Children → Children

abbrev pub node : MatchTree → ℕ
node (and n cs) = n
node (or n cs) = n
node (not n t) = n
node (file_name n t) = n
node (boost n t) = n
node (no_visit n t) = n
node (leaf n l) = n

-- `known`, and the states of the leaves, both by address.
pub record Evaluation : Type 0 where
  pub known : ℕ → Option Bool
  pub leaves : ℕ → LeafState

abbrev pub update : {A : Type 0} → (ℕ → A) → ℕ → A → ℕ → A
update f n a m = if n == m then a else f m

-- `known[mt] = ms == matchesFound`, unless a higher cost is required.
abbrev pub remember : ℕ → MatchesState → Evaluation → Evaluation
remember n requires_higher_cost s = s
remember n found s = record s { known = update s.known n (some true) }
remember n none_found s = record s { known = update s.known n (some false) }

-- `evalMatchTree` for the node `n`, whose `matches` is given.
abbrev pub look_up :
    Option Bool
    → ℕ
    → (Evaluation → Outcome (MatchesState × Evaluation))
    → Evaluation
    → Outcome (MatchesState × Evaluation)
look_up (some v) n matches s = ok (matches_state_pred v, s)
look_up none n matches s = do (ms, s') ← matches s; ok (ms, remember n ms s')

abbrev pub eval_node :
    ℕ
    → (Evaluation → Outcome (MatchesState × Evaluation))
    → Evaluation
    → Outcome (MatchesState × Evaluation)
eval_node n matches s = look_up (s.known n) n matches s

-- `notMatchTree.matches` with its child's answer.
abbrev pub invert : MatchesState → MatchesState
invert requires_higher_cost = requires_higher_cost
invert found = none_found
invert none_found = found

-- How the answer of a child changes `state`: in an And, where `none` ends the loop, and in an Or.
abbrev pub and_state : MatchesState → MatchesState → Option MatchesState
and_state state requires_higher_cost = some requires_higher_cost
and_state state found = some state
and_state state none_found = none

abbrev pub or_state : MatchesState → MatchesState → MatchesState
or_state state requires_higher_cost = requires_higher_cost
or_state requires_higher_cost found = requires_higher_cost
or_state found found = found
or_state none_found found = found
or_state state none_found = state

-- The rest of an And's loop.
abbrev pub and_next :
    Option MatchesState
    → Evaluation
    → (MatchesState → Evaluation → Outcome (MatchesState × Evaluation))
    → Outcome (MatchesState × Evaluation)
and_next (some state) s rest = rest state s
and_next none s rest = ok (none_found, s)

module _ (e : Libraries) (cp : ContentProvider) where
  unfoldable mutual
    unfolding leaf_matches

    -- The methods `matches`. `noVisitMatchTree` embeds its child and has the child's method.
    pub matches : ℕ → MatchTree → Evaluation → Outcome (MatchesState × Evaluation)
    matches cost (and n cs) s = and_loop cost cs found s
    matches cost (or n cs) s = or_loop cost cs none_found s
    matches cost (not n t) s = eval_node (node t) (matches cost t) s >>= λ r. ok (invert r.0, r.1)
    matches cost (file_name n t) s = eval_node (node t) (matches cost t) s
    matches cost (boost n t) s = eval_node (node t) (matches cost t) s
    matches cost (no_visit n t) s = matches cost t s
    matches cost (leaf n l) s = leaf_matches e cp cost l (s.leaves n) >>= λ r.
        ok (r.0, record s { leaves = update s.leaves n r.1 })

    pub and_loop : ℕ → Children → MatchesState → Evaluation → Outcome (MatchesState × Evaluation)
    and_loop cost nil state s = ok (state, s)
    and_loop cost (cons t ts) state s = eval_node (node t) (matches cost t) s >>= λ r.
        and_next (and_state state r.0) r.1 (λ state' s'. and_loop cost ts state' s')

    pub or_loop : ℕ → Children → MatchesState → Evaluation → Outcome (MatchesState × Evaluation)
    or_loop cost nil state s = ok (state, s)
    or_loop cost (cons t ts) state s =
        eval_node (node t) (matches cost t) s >>= λ r. or_loop cost ts (or_state state r.0) r.1

  unfoldable pub eval_match_tree : ℕ → MatchTree → Evaluation → Outcome (MatchesState × Evaluation)
  unfolding matches
  eval_match_tree cost t s = eval_node (node t) (matches cost t) s

  -- The loop of `Search` over the costs, from `cost` on with `left` to follow: whether the document
  -- matches. At the highest cost the code panics if a higher one is required.
  abbrev pub after_cost :
      MatchesState → ℕ → Evaluation → Outcome (Bool × Evaluation) → Outcome (Bool × Evaluation)
  after_cost requires_higher_cost zero s more = panic
  after_cost requires_higher_cost (suc left) s more = more
  after_cost found left s more = more
  after_cost none_found left s more = ok (false, s)

  unfoldable pub decide_loop : ℕ → ℕ → MatchTree → Evaluation → Outcome (Bool × Evaluation)
  unfolding eval_match_tree
  decide_loop zero cost t s = do
    (ms, s') ← eval_match_tree cost t s
    after_cost ms zero s' (ok (true, s'))
  decide_loop (suc left) cost t s = do
    (ms, s') ← eval_match_tree cost t s
    after_cost ms (suc left) s' (decide_loop left (suc cost) t s')

  unfoldable pub decide : MatchTree → (ℕ → LeafState) → Outcome (Bool × Evaluation)
  unfolding decide_loop
  decide t leaves = decide_loop cost_regexp 0 t (record { known = λ n. none; leaves = leaves })
