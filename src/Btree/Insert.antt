-- ===== src/Btree/Insert.antt =====
-- Inserting an ngram that is above all others changes the last bucket only.
use zoekt.Prelude.{
  ℕ, zero, suc, ◌+◌, ◌-◌, ◌≤◌, leb, le→leb, lt→ltb, if_true, List, [], ◌∷◌, ◌++◌, length, take,
  drop, All, none, some,
}
use zoekt.Prelude.{
  append_assoc, length-append, ◌≡◌, refl, sym, subst, ap, ap₂, ◌∙◌, inl, inr, arith,
}
use zoekt.Outcome.{Outcome, ok, ◌>>=◌}
use zoekt.Btree.{
  Opts, Node, leaf, inner, Nodes, nil, cons, nodes_length, nodes_append, node_at, set_node,
  maybe_split, fill, or_last, placed, insert,
}
use zoekt.Btree.Shape.{
  IsShaped, AllShaped, AllShaped-append, AllShaped-snoc, snoc, last_child, node_at-snoc,
  set_node-snoc, nodes_take-snoc, nodes_drop-snoc, snoc-snoc, nodes_length-snoc,
}
use zoekt.Btree.Flat.{
  Item, key, flat, flat_list, flat_front, flat_list-snoc, flat_front-snoc, flat-NotNil, IsBelow,
  All-append, first_above-IsBelow, push, push-append,
}
use zoekt.Btree.Split.{IsOpts, HasRoom, maybe_split-HasSplit}

take-length : (ks ls : List ℕ) → take (length ks) (ks ++ ls) ≡ ks
take-length [] ls = refl
take-length (k ∷ ks) ls = ap (λ l. k ∷ l) (take-length ks ls)

take-all : (ks : List ℕ) → take (length ks) ks ≡ ks
take-all [] = refl
take-all (k ∷ ks) = ap (λ l. k ∷ l) (take-all ks)

drop-all : (ks : List ℕ) → drop (length ks) ks ≡ []
drop-all [] = refl
drop-all (k ∷ ks) = drop-all ks

-- What `insert` makes of a node.
abbrev pub Inserts : Opts → ℕ → ℕ → Node → Outcome Node → Type 0
Inserts opts ng n t o =
    (t' : Node) × (o ≡ ok t') × (flat t' ≡ push opts ng (flat t)) × IsShaped n t'

-- The children behind a split of the last one.
placed-last :
    (ng : ℕ) (ks : List ℕ) (ds : Nodes) (c l r : Node) (k : ℕ)
    → nodes_length ds ≡ length ks
    → k ≤ ng
    → placed (some (l, r, k)) ng (length ks) ks (snoc ds c)
      ≡ (ks ++ k ∷ [], snoc (snoc ds l) r, length ks + 1)
placed-last ng ks ds c l r k same h =
    let keys = ap₂ (λ a b. a ++ k ∷ b) (take-all ks) (drop-all ks) in
    let children =
      ap₂ (λ a b. nodes_append a (cons l (cons r b))) (nodes_take-snoc (length ks) ds c same)
        (nodes_drop-snoc (length ks) ds c same)
      ∙ snoc-snoc ds l r in
    let index = if_true (leb k ng) (length ks + 1) (length ks) (le→leb k ng h) in
    λ i. (keys i, children i, index i)

-- `insert` of an inner node at the child `i`.
abbrev at_child : ℕ → Opts → ℕ → List ℕ → Nodes → ℕ → Outcome Node
at_child n opts ng ks cs i = node_at cs i >>= λ c. maybe_split opts c >>= λ split.
    let (ks', cs', j) = placed split ng i ks cs in
    node_at cs' j >>= λ d. insert n opts ng d >>= λ d'. ok (inner ks' (set_node cs' j d'))

-- The child of an inner node with the key behind each other one is the last one.
insert-at_child :
    (n : ℕ) (opts : Opts) (ng : ℕ) (ks : List ℕ) (ds : Nodes) (c : Node)
    → nodes_length ds ≡ length ks
    → All (IsBelow ng) (flat_list ks (snoc ds c))
    → insert (suc n) opts ng (inner ks (snoc ds c)) ≡ at_child n opts ng ks (snoc ds c) (length ks)
unfolding insert
insert-at_child n opts ng ks ds c same below =
    let size = nodes_length-snoc ds c in
    let none' = first_above-IsBelow ng ks (snoc ds c) (omega arith) below in
    let last : nodes_length (snoc ds c) - 1 ≡ length ks = omega arith in
    ap (at_child n opts ng ks (snoc ds c))
      (ap (λ o. or_last o (nodes_length (snoc ds c) - 1)) none' ∙ last)

insert-unsplit :
    (n : ℕ) (opts : Opts) (ng : ℕ) (ks : List ℕ) (ds : Nodes) (c c' : Node)
    → nodes_length ds ≡ length ks
    → maybe_split opts c ≡ ok none
    → insert n opts ng c ≡ ok c'
    → at_child n opts ng ks (snoc ds c) (length ks) ≡ ok (inner ks (snoc ds c'))
insert-unsplit n opts ng ks ds c c' same e f =
    rw (node_at-snoc (length ks) ds c same, e)
      (rw (node_at-snoc (length ks) ds c same, f)
        (ap (λ cs. ok (inner ks cs)) (set_node-snoc (length ks) ds c c' same)))

insert-split :
    (n : ℕ) (opts : Opts) (ng : ℕ) (ks : List ℕ) (ds : Nodes) (c l r r' : Node) (k : ℕ)
    → nodes_length ds ≡ length ks
    → k ≤ ng
    → maybe_split opts c ≡ ok (some (l, r, k))
    → insert n opts ng r ≡ ok r'
    → at_child n opts ng ks (snoc ds c) (length ks)
      ≡ ok (inner (ks ++ k ∷ []) (snoc (snoc ds l) r'))
insert-split n opts ng ks ds c l r r' k same le e f =
    let size : nodes_length (snoc ds l) ≡ length ks + 1 = omega (arith, nodes_length-snoc ds l) in
    rw (node_at-snoc (length ks) ds c same, e)
      (ap
          (λ (p : List ℕ × Nodes × ℕ). node_at p.1 p.2 >>= λ d.
            insert n opts ng d >>= λ d'. ok (inner p.0 (set_node p.1 p.2 d')))
          (placed-last ng ks ds c l r k same le)
        ∙ rw (node_at-snoc (length ks + 1) (snoc ds l) r size, f)
            (ap (λ cs. ok (inner (ks ++ k ∷ []) cs))
              (set_node-snoc (length ks + 1) (snoc ds l) r r' size)))

-- The buckets in front of the last child stay as they are.
flat-last :
    (opts : Opts) (ng n : ℕ) (ks : List ℕ) (ds : Nodes) (c : Node) (ys : List Item)
    → nodes_length ds ≡ length ks
    → IsShaped n c
    → ys ≡ push opts ng (flat c)
    → flat_front ks ds ++ ys ≡ push opts ng (flat_list ks (snoc ds c))
flat-last opts ng n ks ds c ys same h e =
    ap (λ l. flat_front ks ds ++ l) e
    ∙ sym (push-append opts ng (flat_front ks ds) (flat c) (flat-NotNil n c h))
    ∙ ap (push opts ng) (sym (flat_list-snoc ks ds c same))

flat-split :
    (ks : List ℕ) (ds : Nodes) (l r' : Node) (k : ℕ) (ys : List Item)
    → nodes_length ds ≡ length ks
    → flat r' ≡ ys
    → flat_list (ks ++ k ∷ []) (snoc (snoc ds l) r') ≡ flat_front ks ds ++ (flat l ++ key k ∷ ys)
flat-split ks ds l r' k ys same e =
    flat_list-snoc (ks ++ k ∷ []) (snoc ds l) r'
      (omega (arith, nodes_length-snoc ds l, length-append ks (k ∷ [])))
    ∙ ap₂ ◌++◌ (flat_front-snoc ks ds l k same) e
    ∙ append_assoc (flat_front ks ds) (flat l ++ key k ∷ []) ys
    ∙ ap (λ z. flat_front ks ds ++ z) (append_assoc (flat l) (key k ∷ []) ys)

snoc-Inserts :
    (n : ℕ) (opts : Opts) (ng : ℕ) (ks : List ℕ) (ds : Nodes) (c : Node)
    → IsOpts opts
    → nodes_length ds ≡ length ks
    → AllShaped n (snoc ds c)
    → All (IsBelow ng) (flat_list ks (snoc ds c))
    → ((d : Node)
        → IsShaped n d
        → HasRoom opts d
        → All (IsBelow ng) (flat d)
        → Inserts opts ng n d (insert n opts ng d))
    → Inserts opts ng (suc n) (inner ks (snoc ds c)) (insert (suc n) opts ng (inner ks (snoc ds c)))
unfolding flat IsShaped
snoc-Inserts n opts ng ks ds c o same shaped below more =
    let (front, last) = AllShaped-snoc n ds c shaped in
    let at = insert-at_child n opts ng ks ds c same below in
    let below-c =
      (All-append (IsBelow ng) (flat_front ks ds) (flat c)
        (subst (All (IsBelow ng)) (flat_list-snoc ks ds c same) below)).1 in
    elim (maybe_split-HasSplit opts ng n c o last below-c) [
      | inl (e, room) ↦
          let (c', f, g, s) = more c last room below-c in
          (
            inner ks (snoc ds c'),
            at ∙ insert-unsplit n opts ng ks ds c c' same e f,
            flat_list-snoc ks ds c' same ∙ flat-last opts ng n ks ds c (flat c') same last g,
            (
              nodes_length-snoc ds c' ∙ ap suc same,
              AllShaped-append n ds (cons c' nil) front (s, tt),
            ),
          )
      | inr (l, r, k, x) ↦
          let (r', f, g, s) = more r x.right-IsShaped x.room x.below in
          (
            inner (ks ++ k ∷ []) (snoc (snoc ds l) r'),
            at ∙ insert-split n opts ng ks ds c l r r' k same x.key-le x.result f,
            flat-split ks ds l r' k (push opts ng (flat r)) same g
                ∙ flat-last opts ng n ks ds c (flat l ++ key k ∷ push opts ng (flat r)) same last
                    (sym x.same),
            (
              omega (
                arith,
                nodes_length-snoc (snoc ds l) r',
                nodes_length-snoc ds l,
                length-append ks (k ∷ []),
              ),
              AllShaped-append n (snoc ds l) (cons r' nil)
                  (AllShaped-append n ds (cons l nil) front (x.left-IsShaped, tt)) (s, tt),
            ),
          )
    ]

-- `insert` returns on a shaped node with room, for an ngram above all that is there: it changes the
-- last bucket, and splits it if it is full.
pub insert-Inserts :
    (n : ℕ) (opts : Opts) (ng : ℕ) (t : Node)
    → IsOpts opts
    → IsShaped n t
    → HasRoom opts t
    → All (IsBelow ng) (flat t)
    → Inserts opts ng n t (insert n opts ng t)
unfolding insert flat push IsShaped
insert-Inserts zero opts ng t o h room below = absurd h
insert-Inserts (suc n) opts ng (leaf b) o h room below =
    (leaf (fill opts ng b), refl, sym (if_true _ _ _ (lt→ltb _ _ room)), tt)
insert-Inserts (suc n) opts ng (inner ks cs) o h room below =
    let (ds, c, same, size) = last_child (length ks) cs h.0 in
    subst (λ x. Inserts opts ng (suc n) (inner ks x) (insert (suc n) opts ng (inner ks x)))
      (sym same)
      (snoc-Inserts n opts ng ks ds c o size (subst (AllShaped n) same h.1)
        (subst (λ x. All (IsBelow ng) (flat_list ks x)) same below)
        (λ d a b e. insert-Inserts n opts ng d o a b e))
