-- ===== src/Btree/Frozen.antt =====
-- `freeze` over the buckets of a b-tree from left to right (index/btree.go).
use zoekt.Prelude.{ℕ, zero, suc, ◌+◌, List, [], ◌∷◌, ◌++◌, ◌≡◌, refl, sym, ap, ap₂, ◌∙◌, arith}
use zoekt.Btree.{Node, leaf, inner, Nodes, nil, cons, nodes_length, freeze, freeze_list}
use zoekt.Btree.Shape.{IsShaped, AllShaped}
use zoekt.Btree.Flat.{Item, bucket, key, flat, flat_list}
use zoekt.Btree.Find.{keys_of}

-- The number of buckets, and the sum of their sizes.
abbrev pub count : List Item → ℕ
count [] = 0
count (bucket b ∷ items) = suc (count items)
count (key k ∷ items) = count items

abbrev pub total : List Item → ℕ
total [] = 0
total (bucket b ∷ items) = b.bucket_size + total items
total (key k ∷ items) = total items

-- The buckets with their numbers, and the sums of the sizes in front of them.
abbrev pub frozen : List Item → ℕ → ℕ → List Item
frozen [] i offset = []
frozen (bucket b ∷ items) i offset =
    bucket (record b { bucket_index = i; posting_index_offset = offset })
    ∷ frozen items (i + 1) (offset + b.bucket_size)
frozen (key k ∷ items) i offset = key k ∷ frozen items i offset

pub keys_of-frozen :
    (items : List Item) (i offset : ℕ) → keys_of (frozen items i offset) ≡ keys_of items
keys_of-frozen [] i offset = refl
keys_of-frozen (bucket b ∷ items) i offset = keys_of-frozen items (i + 1) (offset + b.bucket_size)
keys_of-frozen (key k ∷ items) i offset = ap (λ l. k ∷ l) (keys_of-frozen items i offset)

count-append : (xs ys : List Item) → count (xs ++ ys) ≡ count xs + count ys
count-append [] ys = omega arith
count-append (bucket b ∷ xs) ys = omega (arith, count-append xs ys)
count-append (key k ∷ xs) ys = count-append xs ys

total-append : (xs ys : List Item) → total (xs ++ ys) ≡ total xs + total ys
total-append [] ys = omega arith
total-append (bucket b ∷ xs) ys = omega (arith, total-append xs ys)
total-append (key k ∷ xs) ys = total-append xs ys

frozen-append :
    (xs ys : List Item) (i offset j offset' : ℕ)
    → j ≡ i + count xs
    → offset' ≡ offset + total xs
    → frozen (xs ++ ys) i offset ≡ frozen xs i offset ++ frozen ys j offset'
frozen-append [] ys i offset j offset' e f =
    let e' : i ≡ j = omega arith in let f' : offset ≡ offset' = omega arith in ap₂ (frozen ys) e' f'
frozen-append (bucket b ∷ xs) ys i offset j offset' e f =
    ap (λ l. bucket (record b { bucket_index = i; posting_index_offset = offset }) ∷ l)
      (frozen-append xs ys (i + 1) (offset + b.bucket_size) j offset' (omega arith) (omega arith))
frozen-append (key k ∷ xs) ys i offset j offset' e f =
    ap (λ l. key k ∷ l) (frozen-append xs ys i offset j offset' e f)

abbrev Freezes : List Item → ℕ → ℕ → List Item → ℕ → ℕ → Type 0
Freezes items i offset items' i' offset' =
    (items' ≡ frozen items i offset) × (i' ≡ i + count items) × (offset' ≡ offset + total items)

Freezes-append :
    (xs ys : List Item) (i offset i' offset' i2 offset2 : ℕ) (xs' ys' : List Item)
    → Freezes xs i offset xs' i' offset'
    → Freezes ys i' offset' ys' i2 offset2
    → Freezes (xs ++ ys) i offset (xs' ++ ys') i2 offset2
Freezes-append xs ys i offset i' offset' i2 offset2 xs' ys' (a, b, c) (d, e, f) = (
  ap₂ ◌++◌ a d ∙ sym (frozen-append xs ys i offset i' offset' b c),
  omega (arith, count-append xs ys),
  omega (arith, total-append xs ys),
)

mutual
  unfolding freeze flat

  freeze-Freezes :
      (t : Node) (i offset : ℕ)
      → (let r = freeze t i offset in Freezes (flat t) i offset (flat r.0) r.1 r.2)
  freeze-Freezes (leaf b) i offset = (refl, omega arith, omega arith)
  freeze-Freezes (inner ks cs) i offset = freeze_list-Freezes ks cs i offset

  freeze_list-Freezes :
      (ks : List ℕ) (cs : Nodes) (i offset : ℕ)
      → (let r = freeze_list cs i offset in
          Freezes (flat_list ks cs) i offset (flat_list ks r.0) r.1 r.2)
  freeze_list-Freezes ks nil i offset = (refl, omega arith, omega arith)
  freeze_list-Freezes [] (cons c cs) i offset =
      let r = freeze c i offset in
      Freezes-append (flat c) (flat_list [] cs) i offset r.1 r.2 _ _ (flat r.0) _
        (freeze-Freezes c i offset) (freeze_list-Freezes [] cs r.1 r.2)
  freeze_list-Freezes (k ∷ ks) (cons c cs) i offset =
      let r = freeze c i offset in
      let (a, b, d) = freeze_list-Freezes ks cs r.1 r.2 in
      Freezes-append (flat c) (key k ∷ flat_list ks cs) i offset r.1 r.2 _ _ (flat r.0) _
        (freeze-Freezes c i offset) (ap (λ l. key k ∷ l) a, b, d)

-- `freeze` keeps the shape.
mutual
  unfolding freeze IsShaped

  freeze-shape : (n : ℕ) (t : Node) (i offset : ℕ) → IsShaped n t → IsShaped n (freeze t i offset).0
  freeze-shape zero t i offset h = absurd h
  freeze-shape (suc n) (leaf b) i offset h = tt
  freeze-shape (suc n) (inner ks cs) i offset h =
      let (a, b) = freeze_list-shape n cs i offset h.1 in (a ∙ h.0, b)

  freeze_list-shape :
      (n : ℕ) (cs : Nodes) (i offset : ℕ)
      → AllShaped n cs
      → (let r = freeze_list cs i offset in (nodes_length r.0 ≡ nodes_length cs) × AllShaped n r.0)
  freeze_list-shape n nil i offset h = (refl, tt)
  freeze_list-shape n (cons c cs) i offset h =
      let r = freeze c i offset in
      let (a, b) = freeze_list-shape n cs r.1 r.2 h.1 in
      (ap suc a, (freeze-shape n c i offset h.0, b))

pub freeze-IsShaped :
    (n : ℕ) (t : Node) (i offset : ℕ) → IsShaped n t → IsShaped n (freeze t i offset).0
freeze-IsShaped n t i offset h = freeze-shape n t i offset h

-- `freeze` numbers the buckets from left to right.
pub flat-freeze : (t : Node) (i offset : ℕ) → flat (freeze t i offset).0 ≡ frozen (flat t) i offset
flat-freeze t i offset = (freeze-Freezes t i offset).0

pub count-freeze : (t : Node) (i offset : ℕ) → (freeze t i offset).1 ≡ i + count (flat t)
count-freeze t i offset = (freeze-Freezes t i offset).1
