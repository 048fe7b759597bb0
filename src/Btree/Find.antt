-- ===== src/Btree/Find.antt =====
-- `find` and `freeze` over the buckets of a b-tree from left to right.
use zoekt.Prelude.{
  ℕ, zero, suc, ◌<◌, ltb, lt→ltb, ltb→lt, if_true, if_false, if◌then◌else◌, Bool-cases,
}
use zoekt.Prelude.{
  List, [], ◌∷◌, ◌++◌, length, All, append-nil, ◌≡◌, refl, sym, subst, ap, ap₂, ◌∙◌, inl, inr,
  arith,
}
use zoekt.Outcome.{Outcome, ok, panic}
use zoekt.Btree.{Bucket, Node, leaf, inner, Nodes, nil, cons, nodes_length, find, find_list}
use zoekt.Btree.Shape.{IsShaped, AllShaped}
use zoekt.Btree.Flat.{Item, bucket, key, flat, flat_list}

unfoldable pub scan : ℕ → List Item → Outcome (ℕ × ℕ)
scan x [] = panic
scan x (key k ∷ items) = panic
scan x (bucket b ∷ []) = ok (b.bucket_index, b.posting_index_offset)
scan x (bucket b ∷ bucket c ∷ items) = panic
scan x (bucket b ∷ key k ∷ items) =
    let rest = scan x items in if ltb x k then ok (b.bucket_index, b.posting_index_offset) else rest

abbrev pub keys_of : List Item → List ℕ
keys_of [] = []
keys_of (bucket b ∷ items) = keys_of items
keys_of (key k ∷ items) = k ∷ keys_of items

abbrev pub IsAscending : List ℕ → Type 0
IsAscending [] = Unit {0}
IsAscending (k ∷ ks) = All (λ j. k < j) ks × IsAscending ks

keys_of-append : (xs ys : List Item) → keys_of (xs ++ ys) ≡ keys_of xs ++ keys_of ys
keys_of-append [] ys = refl
keys_of-append (bucket b ∷ xs) ys = keys_of-append xs ys
keys_of-append (key k ∷ xs) ys = ap (λ l. k ∷ l) (keys_of-append xs ys)

-- The keys in front of one, and those behind it.
IsAscending-split :
    (js : List ℕ) (k : ℕ) (ks : List ℕ)
    → IsAscending (js ++ k ∷ ks)
    → All (λ j. j < k) js × IsAscending js × IsAscending ks
IsAscending-split [] k ks h = (tt, tt, h.1)
IsAscending-split (j ∷ js) k ks h =
    let (a, b, c) = IsAscending-split js k ks h.1 in
    ((at_middle js k ks h.0, a), (front js k ks h.0, b), c)
  where
    at_middle : (js : List ℕ) (k : ℕ) (ks : List ℕ) → All (λ i. j < i) (js ++ k ∷ ks) → j < k
    at_middle [] k ks a = a.0
    at_middle (i ∷ js) k ks a = at_middle js k ks a.1

    front :
        (js : List ℕ) (k : ℕ) (ks : List ℕ) → All (λ i. j < i) (js ++ k ∷ ks) → All (λ i. j < i) js
    front [] k ks a = tt
    front (i ∷ js) k ks a = (a.0, front js k ks a.1)

-- Buckets with a key between each two.
abbrev IsRow : List Item → Type 0
IsRow [] = ⊥
IsRow (key k ∷ items) = ⊥
IsRow (bucket b ∷ []) = Unit {0}
IsRow (bucket b ∷ bucket c ∷ items) = ⊥
IsRow (bucket b ∷ key k ∷ items) = IsRow items

IsRow-append :
    (xs : List Item) (k : ℕ) (ys : List Item) → IsRow xs → IsRow ys → IsRow (xs ++ key k ∷ ys)
IsRow-append [] k ys h g = absurd h
IsRow-append (key j ∷ xs) k ys h g = absurd h
IsRow-append (bucket b ∷ []) k ys h g = g
IsRow-append (bucket b ∷ bucket c ∷ xs) k ys h g = absurd h
IsRow-append (bucket b ∷ key j ∷ xs) k ys h g = IsRow-append xs k ys h g

mutual
  unfolding IsShaped flat

  flat-IsRow : (n : ℕ) (t : Node) → IsShaped n t → IsRow (flat t)
  flat-IsRow zero t h = absurd h
  flat-IsRow (suc n) (leaf b) h = tt
  flat-IsRow (suc n) (inner ks cs) h = flat_list-IsRow n ks cs h.0 h.1

  flat_list-IsRow :
      (n : ℕ) (ks : List ℕ) (cs : Nodes)
      → nodes_length cs ≡ suc (length ks)
      → AllShaped n cs
      → IsRow (flat_list ks cs)
  flat_list-IsRow n ks nil l h = absurd (omega arith)
  flat_list-IsRow n [] (cons c nil) l h =
      subst IsRow (sym (append-nil (flat c))) (flat-IsRow n c h.0)
  flat_list-IsRow n [] (cons c (cons d ds)) l h = absurd (omega arith)
  flat_list-IsRow n (k ∷ ks) (cons c cs) l h =
      IsRow-append (flat c) k (flat_list ks cs) (flat-IsRow n c h.0)
        (flat_list-IsRow n ks cs (omega arith) h.1)

-- A key that is above all in front of it says on which side to go on.
scan-append :
    (x : ℕ) (xs : List Item) (k : ℕ) (ys : List Item)
    → IsRow xs
    → All (λ j. j < k) (keys_of xs)
    → scan x (xs ++ key k ∷ ys) ≡ (if ltb x k then scan x xs else scan x ys)
unfolding scan
scan-append x [] k ys h a = absurd h
scan-append x (key j ∷ xs) k ys h a = absurd h
scan-append x (bucket b ∷ []) k ys h a = refl
scan-append x (bucket b ∷ bucket c ∷ xs) k ys h a = absurd h
scan-append x (bucket b ∷ key j ∷ xs) k ys h a = elim (Bool-cases (ltb x j)) [
  | inl e ↦
      let less = ltb→lt x j e in
      let less' = a.0 in
      if_true (ltb x j) _ _ e
      ∙ sym (if_true (ltb x k) _ _ (lt→ltb x k (omega arith)) ∙ if_true (ltb x j) _ _ e)
  | inr e ↦
      if_false (ltb x j) _ _ e
      ∙ scan-append x xs k ys h a.1
      ∙ ap (λ o. if ltb x k then o else scan x ys) (sym (if_false (ltb x j) _ _ e))
]

scan-leaf :
    (x : ℕ) (b : Bucket) → scan x (bucket b ∷ []) ≡ ok (b.bucket_index, b.posting_index_offset)
unfolding scan
scan-leaf x b = refl

mutual
  unfolding IsShaped flat find

  find-node :
      (x n : ℕ) (t : Node)
      → IsShaped n t
      → IsAscending (keys_of (flat t))
      → find x t ≡ scan x (flat t)
  find-node x zero t h a = absurd h
  find-node x (suc n) (leaf b) h a = sym (scan-leaf x b)
  find-node x (suc n) (inner ks cs) h a = find-nodes x n ks cs h.0 h.1 a

  find-nodes :
      (x n : ℕ) (ks : List ℕ) (cs : Nodes)
      → nodes_length cs ≡ suc (length ks)
      → AllShaped n cs
      → IsAscending (keys_of (flat_list ks cs))
      → find_list x ks cs ≡ scan x (flat_list ks cs)
  find-nodes x n ks nil l h a = absurd (omega arith)
  find-nodes x n [] (cons c nil) l h a =
      find-node x n c h.0 (subst (λ r. IsAscending (keys_of r)) (append-nil (flat c)) a)
      ∙ ap (scan x) (sym (append-nil (flat c)))
  find-nodes x n [] (cons c (cons d ds)) l h a = absurd (omega arith)
  find-nodes x n (k ∷ ks) (cons c cs) l h a =
      let (front, left, right) =
        IsAscending-split (keys_of (flat c)) k (keys_of (flat_list ks cs))
          (subst IsAscending (keys_of-append (flat c) (key k ∷ flat_list ks cs)) a) in
      ap₂ (λ p q. if ltb x k then p else q) (find-node x n c h.0 left)
        (find-nodes x n ks cs (omega arith) h.1 right)
      ∙ sym (scan-append x (flat c) k (flat_list ks cs) (flat-IsRow n c h.0) front)

-- Where the keys ascend, `find` gives the bucket in front of the first key above the ngram.
pub find-scan :
    (x n : ℕ) (t : Node)
    → IsShaped n t
    → IsAscending (keys_of (flat t))
    → find x t ≡ scan x (flat t)
find-scan x n t h a = find-node x n t h a
