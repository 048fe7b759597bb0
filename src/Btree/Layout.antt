-- ===== src/Btree/Layout.antt =====
-- Which ngrams the buckets of a b-tree stand for.
use zoekt.Prelude.{
  ℕ, zero, suc, ◌+◌, ◌/◌, ◌≤◌, ◌<◌, ◌==◌, ==_iff, ltb, ltb→lt, ltb-false→le, if_true, if_false,
  Bool-cases,
}
use zoekt.Prelude.{
  List, [], ◌∷◌, ◌++◌, length, length-append, drop, get_elem?, All, some, ◌≡◌, refl, sym, subst, ap,
  ◌∙◌, inl, inr, arith,
}
use zoekt.Btree.{Opts, Bucket, new_bucket, fill}
use zoekt.Btree.Flat.{Item, bucket, key, IsBelow, push}
use zoekt.Btree.Split.{IsOpts, length-drop}

-- The buckets hold the ngrams in order, `h` in each but the last, where a key is the first ngram
-- behind it. The last bucket has room for `h` more at most, and knows the first of these.
abbrev pub IsLayout : ℕ → List ℕ → List Item → Type 0
IsLayout h ns [] = ⊥
IsLayout h ns (key k ∷ items) = ⊥
IsLayout h ns (bucket b ∷ []) =
    (length ns ≡ b.bucket_size)
    × (b.bucket_size ≤ h + h)
    × (h < b.bucket_size → get_elem? ns h ≡ some b.split_key)
    × (b.bucket_size ≤ h → b.split_key ≡ 0)
IsLayout h ns (bucket b ∷ bucket c ∷ items) = ⊥
IsLayout h ns (bucket b ∷ key k ∷ items) =
    (b.bucket_size ≡ h)
    × (b.split_key ≡ 0)
    × (get_elem? ns h ≡ some k)
    × IsLayout h (drop h ns) items

pub some-inj : {a b : ℕ} → some a ≡ some b → a ≡ b
some-inj e = cc

pub get_elem?-lt : (ns : List ℕ) (i : ℕ) (k : ℕ) → get_elem? ns i ≡ some k → i < length ns
get_elem?-lt [] i k e = cc
get_elem?-lt (n ∷ ns) zero k e = omega arith
get_elem?-lt (n ∷ ns) (suc i) k e = omega (arith, get_elem?-lt ns i k e)

get_elem?-append :
    (ns : List ℕ) (x i : ℕ) → i < length ns → get_elem? (ns ++ x ∷ []) i ≡ get_elem? ns i
get_elem?-append [] x i l = absurd (omega arith)
get_elem?-append (n ∷ ns) x zero l = refl
get_elem?-append (n ∷ ns) x (suc i) l = get_elem?-append ns x i (omega arith)

get_elem?-last : (ns : List ℕ) (x i : ℕ) → i ≡ length ns → get_elem? (ns ++ x ∷ []) i ≡ some x
get_elem?-last [] x zero l = refl
get_elem?-last [] x (suc i) l = absurd (omega arith)
get_elem?-last (n ∷ ns) x zero l = absurd (omega arith)
get_elem?-last (n ∷ ns) x (suc i) l = get_elem?-last ns x i (omega arith)

drop-append :
    (h : ℕ) (ns : List ℕ) (x : ℕ) → h ≤ length ns → drop h (ns ++ x ∷ []) ≡ drop h ns ++ x ∷ []
drop-append zero ns x l = refl
drop-append (suc h) [] x l = absurd (omega arith)
drop-append (suc h) (n ∷ ns) x l = drop-append h ns x (omega arith)

-- `leaf.insert` of the ngram behind those of the last bucket.
fill-IsLayout :
    (opts : Opts) (ns : List ℕ) (x : ℕ) (b : Bucket)
    → IsOpts opts
    → b.bucket_size < opts.bucket_size
    → IsLayout (opts.bucket_size / 2) ns (bucket b ∷ [])
    → IsLayout (opts.bucket_size / 2) (ns ++ x ∷ []) (bucket (fill opts x b) ∷ [])
unfolding fill
fill-IsLayout opts ns x b o room (size, top, above, below) =
    let h = opts.bucket_size / 2 in
    let even = o.even in
    let grown = length-append ns (x ∷ []) in
    elim (Bool-cases (b.bucket_size + 1 == h + 1)) [
      | inl e ↦
          let e' : b.bucket_size + 1 ≡ h + 1 = (==_iff (b.bucket_size + 1) (h + 1)).0 e in
          (
            omega arith,
            omega arith,
            λ l. get_elem?-last ns x h (omega arith) ∙ ap some (sym (if_true _ x b.split_key e)),
            λ l. absurd (omega arith),
          )
      | inr e ↦
          let other : b.bucket_size + 1 ≡ h + 1 → ⊥ =
            λ f. let g = (==_iff (b.bucket_size + 1) (h + 1)).1 f in cc in
          (
            omega arith,
            omega arith,
            λ l.
                let inside : h < b.bucket_size = omega arith in
                get_elem?-append ns x h (omega arith)
                ∙ above inside
                ∙ ap some (sym (if_false _ x b.split_key e)),
            λ l. if_false _ x b.split_key e ∙ below (omega arith),
          )
    ]

new_bucket-IsLayout :
    (h : ℕ) (ns : List ℕ) → length ns ≡ h → IsLayout h ns (bucket (new_bucket h) ∷ [])
new_bucket-IsLayout h ns e = (e, omega arith, λ l. absurd (omega arith), λ l. refl)

pub push-IsLayout :
    (opts : Opts) (ns : List ℕ) (x : ℕ) (items : List Item)
    → IsOpts opts
    → IsLayout (opts.bucket_size / 2) ns items
    → IsLayout (opts.bucket_size / 2) (ns ++ x ∷ []) (push opts x items)
unfolding push
push-IsLayout opts ns x [] o l = absurd l
push-IsLayout opts ns x (key k ∷ items) o l = absurd l
push-IsLayout opts ns x (bucket b ∷ bucket c ∷ items) o l = absurd l
push-IsLayout opts ns x (bucket b ∷ []) o l =
    elim (Bool-cases (ltb b.bucket_size opts.bucket_size)) [
      | inl room ↦
          subst (IsLayout (opts.bucket_size / 2) (ns ++ x ∷ [])) (sym (if_true _ _ _ room))
            (fill-IsLayout opts ns x b o (ltb→lt _ _ room) l)
      | inr full ↦
          let h = opts.bucket_size / 2 in
          let even = o.even in
          let positive = o.positive in
          let full' = ltb-false→le _ _ full in
          let size = l.0 in
          let top = l.1 in
          subst (IsLayout h (ns ++ x ∷ [])) (sym (if_false _ _ _ full)) (
            refl,
            refl,
            get_elem?-append ns x h (omega arith) ∙ l.2 (omega arith),
            subst (λ m. IsLayout h m (bucket (fill opts x (new_bucket h)) ∷ []))
                (sym (drop-append h ns x (omega arith)))
                (fill-IsLayout opts (drop h ns) x (new_bucket h) o (omega arith)
                  (new_bucket-IsLayout h (drop h ns) (omega (arith, length-drop h ns)))),
          )
    ]
push-IsLayout opts ns x (bucket b ∷ key k ∷ []) o l = absurd l.3
push-IsLayout opts ns x (bucket b ∷ key k ∷ i ∷ items) o (size, split, at, rest) =
    let h = opts.bucket_size / 2 in
    let inside = get_elem?-lt ns h k at in
    (
      size,
      split,
      get_elem?-append ns x h inside ∙ at,
      subst (λ m. IsLayout h m (push opts x (i ∷ items))) (sym (drop-append h ns x (omega arith)))
          (push-IsLayout opts (drop h ns) x (i ∷ items) o rest),
    )

pub All-get_elem? :
    (P : ℕ → Type 0) (ns : List ℕ) (i k : ℕ) → All P ns → get_elem? ns i ≡ some k → P k
All-get_elem? P [] i k a e = cc
All-get_elem? P (n ∷ ns) zero k a e = subst P (some-inj e) a.0
All-get_elem? P (n ∷ ns) (suc i) k a e = All-get_elem? P ns i k a.1 e

pub All-drop : (P : ℕ → Type 0) (h : ℕ) (ns : List ℕ) → All P ns → All P (drop h ns)
All-drop P zero ns a = a
All-drop P (suc h) [] a = tt
All-drop P (suc h) (n ∷ ns) a = All-drop P h ns a.1

-- An ngram above all that the buckets hold.
pub IsLayout-IsBelow :
    (h : ℕ) (ns : List ℕ) (x : ℕ) (items : List Item)
    → IsLayout h ns items
    → All (λ n. n ≤ x) ns
    → All (IsBelow x) items
IsLayout-IsBelow h ns x [] l a = tt
IsLayout-IsBelow h ns x (key k ∷ items) l a = absurd l
IsLayout-IsBelow h ns x (bucket b ∷ bucket c ∷ items) l a = absurd l
IsLayout-IsBelow h ns x (bucket b ∷ []) l a = elim (Bool-cases (ltb h b.bucket_size)) [
  | inl e ↦ (All-get_elem? (λ n. n ≤ x) ns h b.split_key a (l.2 (ltb→lt _ _ e)), tt)
  | inr e ↦ let none' = l.3 (ltb-false→le _ _ e) in (omega arith, tt)
]
IsLayout-IsBelow h ns x (bucket b ∷ key k ∷ items) l a =
    let none' = l.1 in
    (
      omega arith,
      (
        All-get_elem? (λ n. n ≤ x) ns h k a l.2,
        IsLayout-IsBelow h (drop h ns) x items l.3 (All-drop (λ n. n ≤ x) h ns a),
      ),
    )
