-- ===== src/Btree/Flat.antt =====
-- A b-tree read from left to right: its buckets, and the keys between them.
use zoekt.Prelude.{
  ℕ, zero, suc, ◌≤◌, ◌/◌, ltb, le→ltb_false, if_false, if◌then◌else◌, List, [], ◌∷◌, ◌++◌, length,
  All, none,
}
use zoekt.Prelude.{append_assoc, append-nil, ◌≡◌, refl, sym, ap, ◌∙◌, arith}
use zoekt.Btree.{
  Opts, Bucket, Node, leaf, inner, Nodes, nil, cons, nodes_length, new_bucket, fill, first_above,
  next_index,
}
use zoekt.Btree.Shape.{IsShaped, snoc}

pub data Item : Type 0 where
  bucket : Bucket → Item
  key : ℕ → Item

unfoldable mutual
  pub flat : Node → List Item
  flat (leaf b) = bucket b ∷ []
  flat (inner ks cs) = flat_list ks cs

  pub flat_list : List ℕ → Nodes → List Item
  flat_list ks nil = []
  flat_list [] (cons c cs) = flat c ++ flat_list [] cs
  flat_list (k ∷ ks) (cons c cs) = flat c ++ key k ∷ flat_list ks cs

-- All children but the last, with the keys behind them.
unfoldable pub flat_front : List ℕ → Nodes → List Item
unfolding flat
flat_front ks nil = []
flat_front [] (cons c cs) = []
flat_front (k ∷ ks) (cons c cs) = flat c ++ key k ∷ flat_front ks cs

pub flat_list-snoc :
    (ks : List ℕ) (ds : Nodes) (c : Node)
    → nodes_length ds ≡ length ks
    → flat_list ks (snoc ds c) ≡ flat_front ks ds ++ flat c
unfolding flat flat_front
flat_list-snoc [] nil c h = append-nil (flat c)
flat_list-snoc (k ∷ ks) nil c h = absurd (omega arith)
flat_list-snoc [] (cons d ds) c h = absurd (omega arith)
flat_list-snoc (k ∷ ks) (cons d ds) c h =
    ap (λ l. flat d ++ key k ∷ l) (flat_list-snoc ks ds c (omega arith))
    ∙ sym (append_assoc (flat d) (key k ∷ flat_front ks ds) (flat c))

pub flat_front-snoc :
    (ks : List ℕ) (ds : Nodes) (c : Node) (k : ℕ)
    → nodes_length ds ≡ length ks
    → flat_front (ks ++ k ∷ []) (snoc ds c) ≡ flat_front ks ds ++ (flat c ++ key k ∷ [])
unfolding flat flat_front
flat_front-snoc [] nil c k h = refl
flat_front-snoc (x ∷ ks) nil c k h = absurd (omega arith)
flat_front-snoc [] (cons d ds) c k h = absurd (omega arith)
flat_front-snoc (x ∷ ks) (cons d ds) c k h =
    ap (λ l. flat d ++ key x ∷ l) (flat_front-snoc ks ds c k (omega arith))
    ∙ sym (append_assoc (flat d) (key x ∷ flat_front ks ds) (flat c ++ key k ∷ []))

abbrev pub NotNil : List Item → Type 0
NotNil [] = ⊥
NotNil (x ∷ xs) = Unit {0}

pub NotNil-append : (xs ys : List Item) → NotNil xs → NotNil (xs ++ ys)
NotNil-append [] ys h = absurd h
NotNil-append (x ∷ xs) ys h = tt

pub flat-NotNil : (n : ℕ) (t : Node) → IsShaped n t → NotNil (flat t)
unfolding IsShaped flat
flat-NotNil zero t h = absurd h
flat-NotNil (suc n) (leaf b) h = tt
flat-NotNil (suc n) (inner ks nil) h = absurd (let l = h.0 in omega arith)
flat-NotNil (suc n) (inner [] (cons c cs)) h = NotNil-append (flat c) _ (flat-NotNil n c h.1.0)
flat-NotNil (suc n) (inner (k ∷ ks) (cons c cs)) h =
    NotNil-append (flat c) _ (flat-NotNil n c h.1.0)

-- No key, and no key of a bucket that is to be split, is above the ngram.
abbrev pub IsBelow : ℕ → Item → Type 0
IsBelow ng (bucket b) = b.split_key ≤ ng
IsBelow ng (key k) = k ≤ ng

pub All-append : (P : Item → Type 0) (xs ys : List Item) → All P (xs ++ ys) → All P xs × All P ys
All-append P [] ys h = (tt, h)
All-append P (x ∷ xs) ys h = let (a, b) = All-append P xs ys h.1 in ((h.0, a), b)

pub first_above-IsBelow :
    (ng : ℕ) (ks : List ℕ) (cs : Nodes)
    → nodes_length cs ≡ suc (length ks)
    → All (IsBelow ng) (flat_list ks cs)
    → first_above ng ks ≡ none
unfolding flat
first_above-IsBelow ng [] cs l h = refl
first_above-IsBelow ng (k ∷ ks) nil l h = absurd (omega arith)
first_above-IsBelow ng (k ∷ ks) (cons c cs) l h =
    let (a, b) = All-append (IsBelow ng) (flat c) (key k ∷ flat_list ks cs) h in
    if_false (ltb ng k) _ _ (le→ltb_false ng k b.0)
    ∙ ap next_index (first_above-IsBelow ng ks cs (omega arith) b.1)

-- What inserting an ngram does to the last bucket: it is filled, and split if it is full.
abbrev pub push_item : Opts → ℕ → Item → List Item
push_item opts ng (key k) = key k ∷ []
push_item opts ng (bucket b) =
    if ltb b.bucket_size opts.bucket_size
    then bucket (fill opts ng b) ∷ []
    else bucket (new_bucket (opts.bucket_size / 2))
      ∷ key b.split_key
      ∷ bucket (fill opts ng (new_bucket (opts.bucket_size / 2)))
      ∷ []

unfoldable pub push : Opts → ℕ → List Item → List Item
push opts ng [] = []
push opts ng (i ∷ []) = push_item opts ng i
push opts ng (i ∷ j ∷ rest) = i ∷ push opts ng (j ∷ rest)

pub push-append :
    (opts : Opts) (ng : ℕ) (xs ys : List Item)
    → NotNil ys
    → push opts ng (xs ++ ys) ≡ xs ++ push opts ng ys
unfolding push
push-append opts ng xs [] h = absurd h
push-append opts ng [] (y ∷ ys) h = refl
push-append opts ng (x ∷ []) (y ∷ ys) h = refl
push-append opts ng (x ∷ x' ∷ xs) (y ∷ ys) h =
    ap (λ l. x ∷ l) (push-append opts ng (x' ∷ xs) (y ∷ ys) h)
