-- ===== src/NgramIndex/Search.antt =====
-- The binary search for an ngram in a bucket (`Get` in index/btree.go).
use zoekt.Prelude.{
  ℕ, ◌+◌, ◌-◌, ◌≤◌, ◌<◌, leb, le→leb, lt→leb_false, leb→le, ltb, ltb→lt, ltb-false→le, false,
  Bool-cases, List, get_elem?, some,
}
use zoekt.Prelude.{◌≡◌, inl, inr, arith}
use zoekt.Bits.RuneOffsets.{search_index}
use zoekt.Bits.RuneOffsets.Entry.{IsMonotone, search_index_lem}
use zoekt.Btree.Lookup.{get_elem?-IsAscending, get_elem?-le}
use zoekt.Btree.Find.{IsAscending}
use zoekt.NgramIndex.{get_ngram}

-- The text has the ngrams from the number `start` on.
abbrev pub HasNgrams : List ℕ → ℕ → ℕ → List ℕ → Type 0
HasNgrams ngs start count text =
    (k : ℕ) → k < count → (y : ℕ) × (get_elem? ngs (start + k) ≡ some y) × (get_ngram text k ≡ y)

module _ (ngs : List ℕ) (start count : ℕ) (text : List ℕ) (has : HasNgrams ngs start count text)
    (ascending : IsAscending ngs) where
  IsMonotone-leb : (x : ℕ) → IsMonotone count (λ k. leb x (get_ngram text k))
  IsMonotone-leb x a b l less t =
      let (y, here, e) = has a (omega arith) in
      let (z, there, f) = has b less in
      let ordered =
        get_elem?-le ngs (start + a) (start + b) y z ascending here there (omega arith) in
      let low = leb→le x (get_ngram text a) t in le→leb x (get_ngram text b) (omega arith)

  below_it :
      (i x k : ℕ)
      → get_elem? ngs i ≡ some x
      → k < count
      → start + k < i
      → leb x (get_ngram text k) ≡ false
  below_it i x k at less before =
      let (y, here, e) = has k less in
      let ordered = get_elem?-IsAscending ngs (start + k) i y x ascending here at before in
      lt→leb_false x (get_ngram text k) (omega arith)

  pub search_index-HasNgrams :
      (i x : ℕ)
      → get_elem? ngs i ≡ some x
      → start ≤ i
      → i < start + count
      → start + search_index count (λ k. leb x (get_ngram text k)) ≡ i
  search_index-HasNgrams i x at low high =
      let r = search_index count (λ k. leb x (get_ngram text k)) in
      let (within, fails, holds) =
        search_index_lem count (λ k. leb x (get_ngram text k)) (IsMonotone-leb x) in
      let not_behind : r ≤ i - start = elim (Bool-cases (ltb (i - start) r)) [
        | inl less ↦ absurd (
            let f = fails (i - start) (ltb→lt (i - start) r less) in
            let (y, here, e) = has (i - start) (omega arith) in
            let place : start + (i - start) ≡ i = omega arith in
            let same =
              get_elem?-le ngs (start + (i - start)) i y x ascending here at (omega arith) in
            let same' =
              get_elem?-le ngs i (start + (i - start)) x y ascending at here (omega arith) in
            let t = le→leb x (get_ngram text (i - start)) (omega arith) in cc)
        | inr more ↦ ltb-false→le (i - start) r more
      ] in
      let not_before : i - start ≤ r = elim (Bool-cases (ltb r (i - start))) [
        | inl less ↦ absurd (
            let before = ltb→lt r (i - start) less in
            let t = holds r (omega arith) (omega arith) in
            let f = below_it i x r at (omega arith) (omega arith) in cc)
        | inr more ↦ ltb-false→le r (i - start) more
      ] in
      omega arith
