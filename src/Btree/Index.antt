-- ===== src/Btree/Index.antt =====
-- The b-tree of ngrams that were inserted in order finds the bucket of each (index/btree.go).
use zoekt.Prelude.{
  ℕ, suc, ◌+◌, ◌*◌, ◌/◌, ◌≤◌, ◌<◌, List, [], ◌∷◌, ◌++◌, get_elem?, length, All, some, append_assoc,
  append-nil,
}
use zoekt.Prelude.{◌≡◌, refl, sym, subst, ap, ap₂, ◌∙◌, inl, inr, arith}
use zoekt.Outcome.{Outcome, ok}
use zoekt.Btree.{
  Opts, Node, inner, nil, cons, height, insert_root, insert_all, new_btree, freeze, find,
}
use zoekt.Btree.Shape.{IsShaped, height-IsShaped}
use zoekt.Btree.Flat.{Item, key, flat, flat-NotNil, IsBelow, push, push-append}
use zoekt.Btree.Split.{IsOpts, SplitsTo, maybe_split-HasSplit}
use zoekt.Btree.Insert.{insert-Inserts}
use zoekt.Btree.Layout.{IsLayout, push-IsLayout, IsLayout-IsBelow}
use zoekt.Btree.Find.{scan, keys_of, IsAscending, find-scan}
use zoekt.Btree.Frozen.{count, keys_of-frozen, freeze-IsShaped, flat-freeze, count-freeze}
use zoekt.Btree.Lookup.{IsBucketOf, keys_of-IsAscending, scan-frozen, scan-frozen_any}

abbrev InsertsRoot : Opts → ℕ → Node → Outcome Node → Type 0
InsertsRoot opts ng t o =
    (t' : Node) × (o ≡ ok t') × (flat t' ≡ push opts ng (flat t)) × ((n : ℕ) × IsShaped n t')

flat-new_root :
    (opts : Opts) (ng n : ℕ) (t l r : Node) (k : ℕ)
    → SplitsTo opts ng n t l r k
    → push opts ng (flat (inner (k ∷ []) (cons l (cons r nil)))) ≡ push opts ng (flat t)
unfolding flat
flat-new_root opts ng n t l r k x =
    ap (λ s. push opts ng (flat l ++ key k ∷ s)) (append-nil (flat r))
    ∙ push-append opts ng (flat l) (key k ∷ flat r) tt
    ∙ ap (λ s. flat l ++ s)
        (push-append opts ng (key k ∷ []) (flat r) (flat-NotNil n r x.right-IsShaped))
    ∙ sym x.same

All-join : (P : Item → Type 0) (xs ys : List Item) → All P xs → All P ys → All P (xs ++ ys)
All-join P [] ys a b = b
All-join P (x ∷ xs) ys a b = (a.0, All-join P xs ys a.1 b)

-- `btree.insert` returns, with or without a new root, and changes the last bucket only.
insert_root-Inserts :
    (opts : Opts) (ng n : ℕ) (t : Node)
    → IsOpts opts
    → IsShaped n t
    → All (IsBelow ng) (flat t)
    → InsertsRoot opts ng t (insert_root opts ng t)
unfolding insert_root
insert_root-Inserts opts ng n t o h below = elim (maybe_split-HasSplit opts ng n t o h below) [
  | inl (e, room) ↦
      let (t', f, g, s) =
        insert-Inserts (height t) opts ng t o (height-IsShaped n t h) room below in
      (t', rw e f, g, (height t, s))
  | inr (l, r, k, x) ↦
      let root = inner (k ∷ []) (cons l (cons r nil)) in
      let shaped = root-IsShaped n l r k x.left-IsShaped x.right-IsShaped in
      let (t', f, g, s) =
        insert-Inserts (height root) opts ng root o (height-IsShaped (suc n) root shaped) tt
          (root-below (IsBelow ng) l r k x.left-below x.key-le x.below) in
      (t', rw x.result f, g ∙ flat-new_root opts ng n t l r k x, (height root, s))
]
  where
    root-IsShaped :
        (n : ℕ) (l r : Node) (k : ℕ)
        → IsShaped n l
        → IsShaped n r
        → IsShaped (suc n) (inner (k ∷ []) (cons l (cons r nil)))
    root-IsShaped n l r k a b = unfold IsShaped in (omega arith, (a, (b, tt)))

    root-below :
        (P : Item → Type 0) (l r : Node) (k : ℕ)
        → All P (flat l)
        → P (key k)
        → All P (flat r)
        → All P (flat (inner (k ∷ []) (cons l (cons r nil))))
    root-below P l r k a b c =
        unfold flat in
        All-join P (flat l) (key k ∷ (flat r ++ [])) a
          (b, subst (All P) (sym (append-nil (flat r))) c)

All-le-snoc :
    (ns : List ℕ) (x y : ℕ) → All (λ m. m ≤ y) ns → x < y → All (λ m. m ≤ y) (ns ++ x ∷ [])
All-le-snoc [] x y a l = (omega arith, tt)
All-le-snoc (n ∷ ns) x y a l = (a.0, All-le-snoc ns x y a.1 l)

later :
    (ns : List ℕ) (x : ℕ) (ys : List ℕ)
    → All (λ y. All (λ m. m ≤ y) ns) ys
    → All (λ y. x < y) ys
    → All (λ y. All (λ m. m ≤ y) (ns ++ x ∷ [])) ys
later ns x [] a b = tt
later ns x (y ∷ ys) a b = (All-le-snoc ns x y a.0 b.0, later ns x ys a.1 b.1)

insert_all-IsLayout :
    (opts : Opts) (ngs ns : List ℕ) (t : Node) (n : ℕ)
    → IsOpts opts
    → IsShaped n t
    → IsLayout (opts.bucket_size / 2) ns (flat t)
    → All (λ y. All (λ m. m ≤ y) ns) ngs
    → IsAscending ngs
    → (t' : Node) × (insert_all opts ngs t ≡ ok t')
      × IsLayout (opts.bucket_size / 2) (ns ++ ngs) (flat t')
      × ((m : ℕ) × IsShaped m t')
unfolding insert_all
insert_all-IsLayout opts [] ns t n o h l a b = (
  t,
  refl,
  subst (λ k. IsLayout (opts.bucket_size / 2) k (flat t)) (sym (append-nil ns)) l,
  (n, h),
)
insert_all-IsLayout opts (x ∷ xs) ns t n o h l a b =
    let half = opts.bucket_size / 2 in
    let (t1, e, f, (n1, h1)) =
      insert_root-Inserts opts x n t o h (IsLayout-IsBelow half ns x (flat t) l a.0) in
    let l1 = subst (IsLayout half (ns ++ x ∷ [])) (sym f) (push-IsLayout opts ns x (flat t) o l) in
    let (t2, e2, l2, h2) =
      insert_all-IsLayout opts xs (ns ++ x ∷ []) t1 n1 o h1 l1 (later ns x xs a.1 b.0) b.1 in
    (t2, rw e e2, subst (λ k. IsLayout half k (flat t2)) (append_assoc ns (x ∷ []) xs) l2, h2)

new_btree-IsLayout : (h : ℕ) → IsLayout h [] (flat new_btree)
unfolding flat
new_btree-IsLayout h = (refl, omega arith, λ l. absurd (omega arith), λ l. refl)

new_btree-IsShaped : IsShaped 1 new_btree
unfolding IsShaped
new_btree-IsShaped = tt

nothing_inserted : (ngs : List ℕ) → All (λ y. All (λ m. m ≤ y) []) ngs
nothing_inserted [] = tt
nothing_inserted (x ∷ xs) = (tt, nothing_inserted xs)

pub frozen_finds :
    (opts : Opts) (ngs : List ℕ)
    → IsOpts opts
    → IsAscending ngs
    → (t : Node) × (insert_all opts ngs new_btree ≡ ok t)
      × ((x : ℕ)
          → (q : ℕ) × (find x (freeze t 0 0).0 ≡ ok (q, q * (opts.bucket_size / 2)))
            × (q * (opts.bucket_size / 2) ≤ length ngs)
            × IsBucketOf
                (opts.bucket_size / 2)
                (length ngs)
                (q * (opts.bucket_size / 2))
                q
                (freeze t 0 0).1)
      × ((i x : ℕ)
          → get_elem? ngs i ≡ some x
          → (q : ℕ) × (find x (freeze t 0 0).0 ≡ ok (q, q * (opts.bucket_size / 2)))
            × IsBucketOf (opts.bucket_size / 2) (length ngs) i q (freeze t 0 0).1)
frozen_finds opts ngs o a =
    let h = opts.bucket_size / 2 in
    let (t, e, l, (n, s)) =
      insert_all-IsLayout opts ngs [] new_btree 1 o new_btree-IsShaped (new_btree-IsLayout h)
        (nothing_inserted ngs) a in
    let flat' = flat-freeze t 0 0 in
    let ascending =
      subst IsAscending (sym (ap keys_of flat' ∙ keys_of-frozen (flat t) 0 0))
        (keys_of-IsAscending h ngs (flat t) o.positive l a) in
    let buckets : count (flat t) ≡ (freeze t 0 0).1 = omega (arith, count-freeze t 0 0) in
    let scanned = λ (x : ℕ). find-scan x n (freeze t 0 0).0 (freeze-IsShaped n t 0 0 s) ascending in
    (
      t,
      e,
      λ x.
          let (q, found, low, place) = scan-frozen_any h ngs (flat t) x 0 0 o.positive l in
          let number : 0 + q ≡ q = omega arith in
          let start : 0 + q * h ≡ q * h = omega arith in
          (
            q,
            scanned x ∙ ap (scan x) flat' ∙ found ∙ ap₂ (λ a b. ok (a, b)) number start,
            low,
            subst (IsBucketOf h (length ngs) (q * h) q) buckets place,
          ),
      λ i x at.
          let (q, found, place) = scan-frozen h ngs (flat t) i x 0 0 o.positive l a at in
          let number : 0 + q ≡ q = omega arith in
          let start : 0 + q * h ≡ q * h = omega arith in
          (
            q,
            scanned x ∙ ap (scan x) flat' ∙ found ∙ ap₂ (λ a b. ok (a, b)) number start,
            subst (IsBucketOf h (length ngs) i q) buckets place,
          ),
    )

-- Ascending ngrams can be inserted in a new b-tree, one after the other, without a panic. In the
-- frozen tree `find` then gives for each of them, `x` at the index `i`, the bucket that holds it if
-- the buckets have half the bucket size each but the last one: the number `q` of that bucket, and
-- the index of its first ngram. The bucket size is even and positive, and so is `v` positive.
pub find-insert_all :
    (opts : Opts) (ngs : List ℕ) (i x : ℕ)
    → IsOpts opts
    → IsAscending ngs
    → get_elem? ngs i ≡ some x
    → (t : Node) × (insert_all opts ngs new_btree ≡ ok t)
      × (q : ℕ) × (find x (freeze t 0 0).0 ≡ ok (q, q * (opts.bucket_size / 2)))
      × IsBucketOf (opts.bucket_size / 2) (length ngs) i q (freeze t 0 0).1
find-insert_all opts ngs i x o a at =
    let (t, e, any, each) = frozen_finds opts ngs o a in
    let (q, found, place) = each i x at in (t, e, q, found, place)
