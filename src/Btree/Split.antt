-- ===== src/Btree/Split.antt =====
-- Splitting a node of a b-tree keeps what it holds.
use zoekt.Prelude.{
  ℕ, zero, suc, ◌-◌, ◌*◌, ◌/◌, ◌≤◌, ◌<◌, ltb, ltb→lt, ltb-false→le, lt→ltb, le→ltb_false, if_true,
  if_false, Bool-cases,
}
use zoekt.Prelude.{
  List, [], ◌∷◌, ◌++◌, length, take, drop, get_elem?, All, none, some, append_assoc, append-nil,
  ◌≡◌, refl, sym, subst, ap, ◌∙◌, ◌⊎◌, inl, inr, arith,
}
use zoekt.Outcome.{ok}
use zoekt.Btree.{
  Opts, Bucket, Node, leaf, inner, Nodes, nil, cons, nodes_length, nodes_take, nodes_drop,
  new_bucket, halves, split_inner, maybe_split,
}
use zoekt.Btree.Shape.{IsShaped, AllShaped-nodes_take, AllShaped-nodes_drop}
use zoekt.Btree.Flat.{
  bucket, key, flat, flat_list, IsBelow, All-append, flat-NotNil, push, push-append,
}

-- Buckets have an even size, and inner nodes a positive number of children.
pub record IsOpts (opts : Opts) : Type 0 where
  pub even : opts.bucket_size ≡ opts.bucket_size / 2 * 2
  pub positive : 1 ≤ opts.bucket_size / 2
  pub v-positive : 1 ≤ opts.v

-- A leaf with a free slot, or an inner node.
abbrev pub HasRoom : Opts → Node → Type 0
HasRoom opts (leaf b) = b.bucket_size < opts.bucket_size
HasRoom opts (inner ks cs) = Unit {0}

pub key_at : (u : ℕ) (ks : List ℕ) → u < length ks → (k : ℕ) × (get_elem? ks u ≡ some k)
key_at zero [] h = absurd (omega arith)
key_at (suc u) [] h = absurd (omega arith)
key_at zero (k ∷ ks) h = (k, refl)
key_at (suc u) (k ∷ ks) h = key_at u ks (omega arith)

pub length-drop : (n : ℕ) (ks : List ℕ) → length (drop n ks) ≡ length ks - n
length-drop zero ks = omega arith
length-drop (suc n) [] = omega arith
length-drop (suc n) (k ∷ ks) = omega (arith, length-drop n ks)

pub length-take_le : (n : ℕ) (ks : List ℕ) → n ≤ length ks → length (take n ks) ≡ n
length-take_le zero ks h = refl
length-take_le (suc n) [] h = absurd (omega arith)
length-take_le (suc n) (k ∷ ks) h = omega (arith, length-take_le n ks)

nodes_length-drop : (n : ℕ) (cs : Nodes) → nodes_length (nodes_drop n cs) ≡ nodes_length cs - n
nodes_length-drop zero cs = omega arith
nodes_length-drop (suc n) nil = omega arith
nodes_length-drop (suc n) (cons c cs) = omega (arith, nodes_length-drop n cs)

nodes_length-take : (n : ℕ) (cs : Nodes) → n ≤ nodes_length cs → nodes_length (nodes_take n cs) ≡ n
nodes_length-take zero cs h = refl
nodes_length-take (suc n) nil h = absurd (omega arith)
nodes_length-take (suc n) (cons c cs) h = omega (arith, nodes_length-take n cs)

flat_list-split :
    (u : ℕ) (ks : List ℕ) (cs : Nodes) (k : ℕ)
    → get_elem? ks u ≡ some k
    → nodes_length cs ≡ suc (length ks)
    → flat_list ks cs
      ≡ flat_list (take u ks) (nodes_take (suc u) cs)
        ++ key k ∷ flat_list (drop (suc u) ks) (nodes_drop (suc u) cs)
unfolding flat
flat_list-split u [] cs k e l = cc
flat_list-split u (x ∷ ks) nil k e l = absurd (omega arith)
flat_list-split zero (x ∷ ks) (cons c cs) k e l =
    let same : x ≡ k = cc in
    ap (λ y. flat c ++ key y ∷ flat_list ks cs) same
    ∙ ap (λ l. l ++ key k ∷ flat_list ks cs) (sym (append-nil (flat c)))
flat_list-split (suc u) (x ∷ ks) (cons c cs) k e l =
    ap (λ l. flat c ++ key x ∷ l) (flat_list-split u ks cs k e (omega arith))
    ∙ sym (append_assoc (flat c) (key x ∷ flat_list (take u ks) (nodes_take (suc u) cs)) _)

-- What a split of `c` makes: halves that hold together what `c` holds, of which the right one has
-- room.
pub record SplitsTo (opts : Opts) (ng n : ℕ) (c l r : Node) (k : ℕ) : Type 0 where
  pub result : maybe_split opts c ≡ ok (some (l, r, k))
  pub same : push opts ng (flat c) ≡ flat l ++ key k ∷ push opts ng (flat r)
  pub room : HasRoom opts r
  pub left-IsShaped : IsShaped n l
  pub right-IsShaped : IsShaped n r
  pub key-le : k ≤ ng
  pub left-below : All (IsBelow ng) (flat l)
  pub below : All (IsBelow ng) (flat r)

abbrev pub HasSplit : Opts → ℕ → ℕ → Node → Type 0
HasSplit opts ng n c =
    ((maybe_split opts c ≡ ok none) × HasRoom opts c)
    ⊎ ((l : Node) × (r : Node) × (k : ℕ) × SplitsTo opts ng n c l r k)

leaf-HasSplit :
    (opts : Opts) (ng n : ℕ) (b : Bucket)
    → IsOpts opts
    → b.split_key ≤ ng
    → HasSplit opts ng (suc n) (leaf b)
unfolding maybe_split flat push IsShaped
leaf-HasSplit opts ng n b o h = elim (Bool-cases (ltb b.bucket_size opts.bucket_size)) [
  | inl room ↦ inl (if_true _ _ _ room, ltb→lt _ _ room)
  | inr full ↦
      let half = opts.bucket_size / 2 in
      let even = o.even in
      let positive = o.positive in
      let less : half < opts.bucket_size = omega arith in
      inr (
        leaf (new_bucket half),
        leaf (new_bucket half),
        b.split_key,
        record {
          result = if_false _ _ _ full;
          same =
              if_false _ _ _ full
              ∙ ap (λ l. bucket (new_bucket half) ∷ key b.split_key ∷ l)
                  (sym (if_true _ _ _ (lt→ltb _ _ less)));
          room = less;
          left-IsShaped = tt;
          right-IsShaped = tt;
          key-le = h;
          left-below = (omega arith, tt);
          below = (omega arith, tt);
        },
      )
]

halves-SplitsTo :
    (opts : Opts) (ng n u : ℕ) (ks : List ℕ) (cs : Nodes)
    → opts.v ≡ suc u
    → IsShaped (suc n) (inner ks cs)
    → All (IsBelow ng) (flat_list ks cs)
    → suc u * 2 ≤ nodes_length cs
    → (l : Node) × (r : Node) × (k : ℕ) × SplitsTo opts ng (suc n) (inner ks cs) l r k
unfolding maybe_split flat IsShaped
halves-SplitsTo opts ng n u ks cs v h below full =
    let size = h.0 in
    let (k, at) = key_at u ks (omega arith) in
    let left = inner (take u ks) (nodes_take (suc u) cs) in
    let right = inner (drop (suc u) ks) (nodes_drop (suc u) cs) in
    let whole = flat_list-split u ks cs k at h.0 in
    let parts =
      All-append (IsBelow ng) (flat left) (key k ∷ flat right)
        (subst (All (IsBelow ng)) whole below) in
    let right-shape : IsShaped (suc n) right = (
      omega (arith, length-drop (suc u) ks, nodes_length-drop (suc u) cs),
      AllShaped-nodes_drop n (suc u) cs h.1,
    ) in
    (
      left,
      right,
      k,
      record {
        result =
            if_false _ _ _ (le→ltb_false (nodes_length cs) (2 * opts.v) (omega arith))
            ∙ ap (λ w. split_inner w ks cs) v
            ∙ ap (halves u ks cs) at;
        same =
            ap (push opts ng) whole
            ∙ push-append opts ng (flat left) (key k ∷ flat right) tt
            ∙ ap (λ l. flat left ++ l)
                (push-append opts ng (key k ∷ []) (flat right)
                  (flat-NotNil (suc n) right right-shape));
        room = tt;
        left-IsShaped = (
          omega (arith, length-take_le u ks, nodes_length-take (suc u) cs),
          AllShaped-nodes_take n (suc u) cs h.1,
        );
        right-IsShaped = right-shape;
        key-le = parts.1.0;
        left-below = parts.0;
        below = parts.1.1;
      },
    )

inner-HasSplit :
    (opts : Opts) (ng n : ℕ) (ks : List ℕ) (cs : Nodes)
    → IsOpts opts
    → IsShaped (suc n) (inner ks cs)
    → All (IsBelow ng) (flat_list ks cs)
    → HasSplit opts ng (suc n) (inner ks cs)
unfolding maybe_split
inner-HasSplit opts ng n ks cs o h below = elim (Bool-cases (ltb (nodes_length cs) (2 * opts.v))) [
  | inl few ↦ inl (if_true _ _ _ few, tt)
  | inr full ↦
      let many = ltb-false→le _ _ full in
      let positive = o.v-positive in
      inr (halves-SplitsTo opts ng n (opts.v - 1) ks cs (omega arith) h below (omega arith))
]

-- `maybeSplit` of a node does not panic; it leaves a node with room, or splits the node.
pub maybe_split-HasSplit :
    (opts : Opts) (ng n : ℕ) (c : Node)
    → IsOpts opts
    → IsShaped n c
    → All (IsBelow ng) (flat c)
    → HasSplit opts ng n c
unfolding flat IsShaped
maybe_split-HasSplit opts ng zero c o h below = absurd h
maybe_split-HasSplit opts ng (suc n) (leaf b) o h below = leaf-HasSplit opts ng n b o below.0
maybe_split-HasSplit opts ng (suc n) (inner ks cs) o h below =
    inner-HasSplit opts ng n ks cs o h below
