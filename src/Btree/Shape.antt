-- ===== src/Btree/Shape.antt =====
-- The shape of b-trees: a node has one child more than keys.
use zoekt.Prelude.{ℕ, zero, suc, ◌≤◌, length, ◌≡◌, refl, ap, arith}
use zoekt.Outcome.{ok}
use zoekt.Btree.{
  Node, leaf, inner, Nodes, nil, cons, nodes_length, nodes_take, nodes_drop, nodes_append, node_at,
  set_node, height, height_list,
}

-- A tree of a height up to `n`.
unfoldable mutual
  pub IsShaped : ℕ → Node → Type 0
  IsShaped zero t = ⊥
  IsShaped (suc n) (leaf b) = Unit {0}
  IsShaped (suc n) (inner ks cs) = (nodes_length cs ≡ suc (length ks)) × AllShaped n cs

  pub AllShaped : ℕ → Nodes → Type 0
  AllShaped n nil = Unit {0}
  AllShaped n (cons c cs) = IsShaped n c × AllShaped n cs

-- The height is the least such number.
mutual
  unfolding IsShaped height

  IsShaped-height : (n m : ℕ) (t : Node) → IsShaped n t → height t ≤ m → IsShaped m t
  IsShaped-height zero m t h l = absurd h
  IsShaped-height (suc n) zero (leaf b) h l = absurd (omega arith)
  IsShaped-height (suc n) (suc m) (leaf b) h l = tt
  IsShaped-height (suc n) zero (inner ks cs) h l = absurd (omega arith)
  IsShaped-height (suc n) (suc m) (inner ks cs) h l =
      (h.0, AllShaped-height n m cs h.1 (omega arith))

  AllShaped-height : (n m : ℕ) (cs : Nodes) → AllShaped n cs → height_list cs ≤ m → AllShaped m cs
  AllShaped-height n m nil h l = tt
  AllShaped-height n m (cons c cs) h l =
      (IsShaped-height n m c h.0 (omega arith), AllShaped-height n m cs h.1 (omega arith))

-- A tree has its height for enough fuel.
pub height-IsShaped : (n : ℕ) (t : Node) → IsShaped n t → IsShaped (height t) t
height-IsShaped n t h = IsShaped-height n (height t) t h (omega arith)

pub AllShaped-append :
    (n : ℕ) (cs ds : Nodes) → AllShaped n cs → AllShaped n ds → AllShaped n (nodes_append cs ds)
unfolding IsShaped
AllShaped-append n nil ds h g = g
AllShaped-append n (cons c cs) ds h g = (h.0, AllShaped-append n cs ds h.1 g)

pub AllShaped-nodes_take : (n i : ℕ) (cs : Nodes) → AllShaped n cs → AllShaped n (nodes_take i cs)
unfolding IsShaped
AllShaped-nodes_take n zero cs h = tt
AllShaped-nodes_take n (suc i) nil h = tt
AllShaped-nodes_take n (suc i) (cons c cs) h = (h.0, AllShaped-nodes_take n i cs h.1)

pub AllShaped-nodes_drop : (n i : ℕ) (cs : Nodes) → AllShaped n cs → AllShaped n (nodes_drop i cs)
unfolding IsShaped
AllShaped-nodes_drop n zero cs h = h
AllShaped-nodes_drop n (suc i) nil h = tt
AllShaped-nodes_drop n (suc i) (cons c cs) h = AllShaped-nodes_drop n i cs h.1

-- Children with one more behind them.
abbrev pub snoc : Nodes → Node → Nodes
snoc cs c = nodes_append cs (cons c nil)

pub last_child :
    (n : ℕ) (cs : Nodes)
    → nodes_length cs ≡ suc n
    → (ds : Nodes) × (c : Node) × (cs ≡ snoc ds c) × (nodes_length ds ≡ n)
last_child n nil h = absurd (omega arith)
last_child n (cons c nil) h = (nil, c, refl, omega arith)
last_child zero (cons c (cons d ds)) h = absurd (omega arith)
last_child (suc n) (cons c (cons d ds)) h =
    let (es, e, same, l) = last_child n (cons d ds) (omega arith) in
    (cons c es, e, ap (cons c) same, omega arith)

pub node_at-snoc :
    (i : ℕ) (ds : Nodes) (c : Node) → nodes_length ds ≡ i → node_at (snoc ds c) i ≡ ok c
node_at-snoc zero nil c h = refl
node_at-snoc (suc i) nil c h = absurd (omega arith)
node_at-snoc zero (cons d ds) c h = absurd (omega arith)
node_at-snoc (suc i) (cons d ds) c h = node_at-snoc i ds c (omega arith)

pub set_node-snoc :
    (i : ℕ) (ds : Nodes) (c d : Node) → nodes_length ds ≡ i → set_node (snoc ds c) i d ≡ snoc ds d
set_node-snoc zero nil c d h = refl
set_node-snoc (suc i) nil c d h = absurd (omega arith)
set_node-snoc zero (cons x ds) c d h = absurd (omega arith)
set_node-snoc (suc i) (cons x ds) c d h = ap (cons x) (set_node-snoc i ds c d (omega arith))

pub nodes_take-snoc :
    (i : ℕ) (ds : Nodes) (c : Node) → nodes_length ds ≡ i → nodes_take i (snoc ds c) ≡ ds
nodes_take-snoc zero nil c h = refl
nodes_take-snoc (suc i) nil c h = absurd (omega arith)
nodes_take-snoc zero (cons x ds) c h = absurd (omega arith)
nodes_take-snoc (suc i) (cons x ds) c h = ap (cons x) (nodes_take-snoc i ds c (omega arith))

pub nodes_drop-snoc :
    (i : ℕ) (ds : Nodes) (c : Node) → nodes_length ds ≡ i → nodes_drop (suc i) (snoc ds c) ≡ nil
nodes_drop-snoc zero nil c h = refl
nodes_drop-snoc (suc i) nil c h = absurd (omega arith)
nodes_drop-snoc zero (cons x ds) c h = absurd (omega arith)
nodes_drop-snoc (suc i) (cons x ds) c h = nodes_drop-snoc i ds c (omega arith)

-- Two children behind the others.
pub snoc-snoc :
    (ds : Nodes) (c d : Node) → nodes_append ds (cons c (cons d nil)) ≡ snoc (snoc ds c) d
snoc-snoc nil c d = refl
snoc-snoc (cons x ds) c d = ap (cons x) (snoc-snoc ds c d)

pub nodes_length-snoc : (ds : Nodes) (c : Node) → nodes_length (snoc ds c) ≡ suc (nodes_length ds)
nodes_length-snoc nil c = refl
nodes_length-snoc (cons x ds) c = ap suc (nodes_length-snoc ds c)

pub AllShaped-snoc :
    (n : ℕ) (ds : Nodes) (c : Node) → AllShaped n (snoc ds c) → AllShaped n ds × IsShaped n c
unfolding IsShaped
AllShaped-snoc n nil c h = (tt, h.0)
AllShaped-snoc n (cons x ds) c h = let (a, b) = AllShaped-snoc n ds c h.1 in ((h.0, a), b)
