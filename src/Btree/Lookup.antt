-- ===== src/Btree/Lookup.antt =====
-- The bucket that is found for an ngram holds it.
use zoekt.Prelude.{
  ℕ, zero, suc, ◌+◌, ◌-◌, ◌*◌, ◌≤◌, ◌<◌, ltb, lt→ltb, le→ltb_false, if_true, if_false, Bool-cases,
  ltb→lt, ltb-false→le,
}
use zoekt.Prelude.{
  List, [], ◌∷◌, length, drop, drop-split, get_elem?, All, some, ◌≡◌, refl, sym, subst, ap, ap₂,
  ◌∙◌, ◌⊎◌, inl, inr, arith,
}
use native.Mathlib.Nat.{suc-mul, zero-mul}
use zoekt.Outcome.{ok}
use zoekt.Btree.Split.{length-drop}
use zoekt.Btree.Flat.{Item, bucket, key}
use zoekt.Btree.Layout.{IsLayout, some-inj, get_elem?-lt, All-get_elem?, All-drop}
use zoekt.Btree.Find.{scan, keys_of, IsAscending}
use zoekt.Btree.Frozen.{count, frozen}

get_elem?-drop : (h i : ℕ) (ns : List ℕ) → h ≤ i → get_elem? (drop h ns) (i - h) ≡ get_elem? ns i
get_elem?-drop zero i ns l = let e : i - 0 ≡ i = omega arith in ap (get_elem? ns) e
get_elem?-drop (suc h) zero ns l = absurd (omega arith)
get_elem?-drop (suc h) (suc i) [] l = refl
get_elem?-drop (suc h) (suc i) (n ∷ ns) l =
    let e : suc i - suc h ≡ i - h = omega arith in
    ap (get_elem? (drop h ns)) e ∙ get_elem?-drop h i ns (omega arith)

IsAscending-drop : (h : ℕ) (ns : List ℕ) → IsAscending ns → IsAscending (drop h ns)
IsAscending-drop zero ns a = a
IsAscending-drop (suc h) [] a = tt
IsAscending-drop (suc h) (n ∷ ns) a = IsAscending-drop h ns a.1

-- An ascending list is one in which the order of the indices is that of the elements.
pub get_elem?-IsAscending :
    (ns : List ℕ) (i j x y : ℕ)
    → IsAscending ns
    → get_elem? ns i ≡ some x
    → get_elem? ns j ≡ some y
    → i < j
    → x < y
get_elem?-IsAscending [] i j x y a e f l = cc
get_elem?-IsAscending (n ∷ ns) i zero x y a e f l = absurd (omega arith)
get_elem?-IsAscending (n ∷ ns) zero (suc j) x y a e f l =
    subst (λ z. z < y) (some-inj e) (All-get_elem? (λ m. n < m) ns j y a.0 f)
get_elem?-IsAscending (n ∷ ns) (suc i) (suc j) x y a e f l =
    get_elem?-IsAscending ns i j x y a.1 e f (omega arith)

pub get_elem?-le :
    (ns : List ℕ) (i j x y : ℕ)
    → IsAscending ns
    → get_elem? ns i ≡ some x
    → get_elem? ns j ≡ some y
    → i ≤ j
    → x ≤ y
get_elem?-le ns i j x y a e f l = elim (Bool-cases (ltb i j)) [
  | inl less ↦ let g = get_elem?-IsAscending ns i j x y a e f (ltb→lt i j less) in omega arith
  | inr not_less ↦
      let same : i ≡ j = let g = ltb-false→le i j not_less in omega arith in
      let equal : x ≡ y = some-inj (sym e ∙ ap (get_elem? ns) same ∙ f) in omega arith
]

drop-drop : (n m : ℕ) (ns : List ℕ) → drop n (drop m ns) ≡ drop m (drop n ns)
drop-drop n m ns = drop-split m n (n + m) ns (omega arith) ∙ sym (drop-split n m (n + m) ns refl)

-- The keys are ngrams behind the first one.
All-keys_of :
    (P : ℕ → Type 0) (h : ℕ) (ns : List ℕ) (items : List Item)
    → 1 ≤ h
    → IsLayout h ns items
    → All P (drop 1 ns)
    → All P (keys_of items)
All-keys_of P h ns [] p l a = absurd l
All-keys_of P h ns (key k ∷ items) p l a = absurd l
All-keys_of P h ns (bucket b ∷ []) p l a = tt
All-keys_of P h ns (bucket b ∷ bucket c ∷ items) p l a = absurd l
All-keys_of P h ns (bucket b ∷ key k ∷ items) p l a = (
  All-get_elem? P (drop 1 ns) (h - 1) k a (get_elem?-drop 1 h ns p ∙ l.2),
  All-keys_of P h (drop h ns) items p l.3
      (subst (All P) (drop-drop h 1 ns) (All-drop P h (drop 1 ns) a)),
)

-- In a list whose element at `h` is `k`, what stands behind that is above it.
above_key :
    (h : ℕ) (ns : List ℕ) (k : ℕ)
    → IsAscending ns
    → get_elem? ns h ≡ some k
    → All (λ m. k < m) (drop 1 (drop h ns))
above_key h [] k a e = cc
above_key zero (n ∷ ns) k a e = subst (λ z. All (λ m. z < m) ns) (some-inj e) a.0
above_key (suc h) (n ∷ ns) k a e = above_key h ns k a.1 e

pub keys_of-IsAscending :
    (h : ℕ) (ns : List ℕ) (items : List Item)
    → 1 ≤ h
    → IsLayout h ns items
    → IsAscending ns
    → IsAscending (keys_of items)
keys_of-IsAscending h ns [] p l a = absurd l
keys_of-IsAscending h ns (key k ∷ items) p l a = absurd l
keys_of-IsAscending h ns (bucket b ∷ []) p l a = tt
keys_of-IsAscending h ns (bucket b ∷ bucket c ∷ items) p l a = absurd l
keys_of-IsAscending h ns (bucket b ∷ key k ∷ items) p l a = (
  All-keys_of (λ m. k < m) h (drop h ns) items p l.3 (above_key h ns k a l.2),
  keys_of-IsAscending h (drop h ns) items p l.3 (IsAscending-drop h ns a),
)

-- The number `q` of the bucket that holds the ngram number `i` of `n`: each has `h` but the last
-- one.
abbrev pub IsBucketOf : ℕ → ℕ → ℕ → ℕ → ℕ → Type 0
IsBucketOf h n i q buckets =
    (q * h ≤ i) × (((i < q * h + h) × (q * h + h < n) × (suc q < buckets)) ⊎ (suc q ≡ buckets))

count-positive : (h : ℕ) (ns : List ℕ) (items : List Item) → IsLayout h ns items → 0 < count items
count-positive h ns [] l = absurd l
count-positive h ns (key k ∷ items) l = absurd l
count-positive h ns (bucket b ∷ items) l = omega arith

pub scan-frozen :
    (h : ℕ) (ns : List ℕ) (items : List Item) (i x number offset : ℕ)
    → 1 ≤ h
    → IsLayout h ns items
    → IsAscending ns
    → get_elem? ns i ≡ some x
    → (q : ℕ) × (scan x (frozen items number offset) ≡ ok (number + q, offset + q * h))
      × IsBucketOf h (length ns) i q (count items)
unfolding scan
scan-frozen h ns [] i x number offset p l a e = absurd l
scan-frozen h ns (key k ∷ items) i x number offset p l a e = absurd l
scan-frozen h ns (bucket b ∷ bucket c ∷ items) i x number offset p l a e = absurd l
scan-frozen h ns (bucket b ∷ []) i x number offset p l a e =
    let none' = zero-mul h in
    let first : number ≡ number + 0 = omega arith in
    let start : offset ≡ offset + 0 * h = omega arith in
    (0, ap₂ (λ m n. ok (m, n)) first start, (omega arith, inr refl))
scan-frozen h ns (bucket b ∷ key k ∷ items) i x number offset p l a e =
    elim (Bool-cases (ltb i h)) [
      | inl inside ↦
          let less = get_elem?-IsAscending ns i h x k a e l.2 (ltb→lt i h inside) in
          let none' = zero-mul h in
          let first : number ≡ number + 0 = omega arith in
          let start : offset ≡ offset + 0 * h = omega arith in
          let within = ltb→lt i h inside in
          let full = get_elem?-lt ns h k l.2 in
          let more = count-positive h (drop h ns) items l.3 in
          (
            0,
            if_true (ltb x k) _ _ (lt→ltb x k less) ∙ ap₂ (λ m n. ok (m, n)) first start,
            (omega arith, inl (omega arith, omega arith, omega arith)),
          )
      | inr behind ↦
          let further = ltb-false→le i h behind in
          let above = get_elem?-le ns h i k x a l.2 e further in
          let (q, found, place) =
            scan-frozen h (drop h ns) items (i - h) x (number + 1) (offset + b.bucket_size) p l.3
              (IsAscending-drop h ns a) (get_elem?-drop h i ns further ∙ e) in
          let more = suc-mul q h in
          let size = l.0 in
          let first : number + 1 + q ≡ number + suc q = omega arith in
          let start : offset + b.bucket_size + q * h ≡ offset + suc q * h = omega arith in
          (
            suc q,
            if_false (ltb x k) _ _ (le→ltb_false x k above)
                ∙ found
                ∙ ap₂ (λ m n. ok (m, n)) first start,
            (
              let low = place.0 in omega arith,
              elim place.1 [
                | inl (lt, full, fewer) ↦
                    let rest = length-drop h ns in inl (omega arith, omega arith, omega arith)
                | inr last ↦ inr (ap suc last)
              ],
            ),
          )
    ]

-- For a number that need not be among the ngrams, the index of the first ngram of the bucket is
-- right.
pub scan-frozen_any :
    (h : ℕ) (ns : List ℕ) (items : List Item) (x number offset : ℕ)
    → 1 ≤ h
    → IsLayout h ns items
    → (q : ℕ) × (scan x (frozen items number offset) ≡ ok (number + q, offset + q * h))
      × (q * h ≤ length ns)
      × IsBucketOf h (length ns) (q * h) q (count items)
unfolding scan
scan-frozen_any h ns [] x number offset p l = absurd l
scan-frozen_any h ns (key k ∷ items) x number offset p l = absurd l
scan-frozen_any h ns (bucket b ∷ bucket c ∷ items) x number offset p l = absurd l
scan-frozen_any h ns (bucket b ∷ []) x number offset p l =
    let none' = zero-mul h in
    let first : number ≡ number + 0 = omega arith in
    let start : offset ≡ offset + 0 * h = omega arith in
    (0, ap₂ (λ m n. ok (m, n)) first start, omega arith, (omega arith, inr refl))
scan-frozen_any h ns (bucket b ∷ key k ∷ items) x number offset p l =
    let full = get_elem?-lt ns h k l.2 in
    elim (Bool-cases (ltb x k)) [
      | inl less ↦
          let none' = zero-mul h in
          let first : number ≡ number + 0 = omega arith in
          let start : offset ≡ offset + 0 * h = omega arith in
          let more = count-positive h (drop h ns) items l.3 in
          (
            0,
            if_true (ltb x k) _ _ less ∙ ap₂ (λ m n. ok (m, n)) first start,
            omega arith,
            (omega arith, inl (omega arith, omega arith, omega arith)),
          )
      | inr more' ↦
          let (q, found, low, place) =
            scan-frozen_any h (drop h ns) items x (number + 1) (offset + b.bucket_size) p l.3 in
          let more = suc-mul q h in
          let size = l.0 in
          let rest = length-drop h ns in
          let first : number + 1 + q ≡ number + suc q = omega arith in
          let start : offset + b.bucket_size + q * h ≡ offset + suc q * h = omega arith in
          (
            suc q,
            if_false (ltb x k) _ _ more' ∙ found ∙ ap₂ (λ m n. ok (m, n)) first start,
            omega arith,
            (
              omega arith,
              elim place.1 [
                | inl (lt, whole, fewer) ↦ inl (omega arith, omega arith, omega arith)
                | inr last ↦ inr (ap suc last)
              ],
            ),
          )
    ]
