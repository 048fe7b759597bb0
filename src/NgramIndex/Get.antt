-- ===== src/NgramIndex/Get.antt =====
-- `Get` and `newBtreeIndex` on a file that holds the ngrams (index/btree.go, index/read.go).
use zoekt.Prelude.{
  ℕ, zero, suc, ◌+◌, ◌-◌, ◌*◌, ◌/◌, ◌%◌, ◌^◌, ◌≤◌, ◌<◌, leb, ◌==◌, lt→leb_false, leb-false→lt,
  ==_iff, if_cases, if_true, if_false, if◌then◌else◌,
}
use zoekt.Prelude.{
  List, length, take, drop, get_elem?, some, ◌≡◌, refl, sym, subst, ap, ap₂, ◌∙◌, inl, inr, arith,
}
use native.Mathlib.Nat.{suc-mul, mul_assoc}
use zoekt.Bits.RuneOffsets.{search_index}
use zoekt.Btree.{find}
use zoekt.Outcome.{ok, ◌>>=◌}
use zoekt.Btree.Split.{key_at, length-drop, length-take_le}
use zoekt.Btree.Lookup.{IsBucketOf}
use zoekt.NgramIndex.{
  BtreeIndex, read_file, empty_section, get_posting_list, get_bucket, get_ngram, get_in_bucket, get,
  or_empty,
}
use zoekt.NgramIndex.Stored.{IsStored, read-within, number_in}
use zoekt.NgramIndex.Search.{HasNgrams, search_index-HasNgrams}
use zoekt.NgramIndex.Bucket.{posting_list, get_posting_list-IsStored}

le-mul : (q h : ℕ) → 1 ≤ h → q ≤ q * h
le-mul zero h p = omega arith
le-mul (suc q) h p = let more = suc-mul q h in let rest = le-mul q h p in omega arith

module _ (b : BtreeIndex) (ngs offs : List ℕ)
    (st : IsStored b.file b.ngram_sec b.posting_index ngs offs) where
  -- The bucket is the part of the section with the ngrams from the number `start` on.
  unfoldable pub IsPart : ℕ → ℕ → ℕ → ℕ × ℕ → Type 0
  IsPart i start count r =
      (r ≡ (b.ngram_sec.off + start * 8, count * 8))
      × (i < length ngs → i < start + count)
      × (start + count ≤ length ngs)

  get_bucket-IsBucketOf :
      (i q h sz off buckets : ℕ)
      → 1 ≤ h
      → i ≤ length ngs
      → IsBucketOf h (length ngs) i q buckets
      → b.last_bucket_index ≡ buckets - 1
      → sz ≡ h * 8
      → off ≡ b.ngram_sec.off + q * h * 8
      → (count : ℕ) × IsPart i (q * h) count (
          if q == b.last_bucket_index
          then (off, (b.ngram_sec.off + b.ngram_sec.sz + 2 ^ 32 - off) % 2 ^ 32)
          else (off, sz))
  unfolding IsPart
  get_bucket-IsBucketOf i q h sz off buckets p less place last sz' off' =
      let size = st.ngrams.size in
      let within = st.ngrams.within in
      let small = st.small in
      if_cases (λ r. (count : ℕ) × IsPart i (q * h) count r) (q == b.last_bucket_index) _ _
        (λ yes.
          let same = (==_iff q b.last_bucket_index).0 yes in
          elim place.1 [
            | inl (within', full, fewer) ↦ absurd (omega arith)
            | inr whole ↦
                let low = place.0 in
                (
                  length ngs - q * h,
                  (ap₂ (λ m n. (m, n)) off' (omega arith), λ l. omega arith, omega arith),
                )
          ])
        (λ no. elim place.1 [
          | inl (within', full, fewer) ↦
              (h, (ap₂ (λ m n. (m, n)) off' sz', λ l. omega arith, omega arith))
          | inr whole ↦ absurd (
              let same : q ≡ b.last_bucket_index = omega arith in
              let yes = (==_iff q b.last_bucket_index).1 same in cc)
        ])

  -- What the search in such a part reads.
  module _ (start count : ℕ) (room : start + count ≤ length ngs) where
    size_part : length (take (count * 8) (drop (b.ngram_sec.off + start * 8) b.file)) / 8 ≡ count
    size_part =
        let size = st.ngrams.size in
        let within = st.ngrams.within in
        let at = length-drop (b.ngram_sec.off + start * 8) b.file in
        let all =
          length-take_le (count * 8) (drop (b.ngram_sec.off + start * 8) b.file) (omega arith) in
        omega arith

    read_part :
        read_file b.file (b.ngram_sec.off + start * 8) (count * 8)
        ≡ some (take (count * 8) (drop (b.ngram_sec.off + start * 8) b.file))
    read_part =
        let size = st.ngrams.size in
        let within = st.ngrams.within in
        read-within b.file (b.ngram_sec.off + start * 8) (count * 8) st.small (omega arith)

    ngram_part :
        HasNgrams ngs start count (take (count * 8) (drop (b.ngram_sec.off + start * 8) b.file))
    ngram_part k less =
        let size = st.ngrams.size in
        let (y, here) = key_at (start + k) ngs (omega arith) in
        (
          y,
          here,
          number_in b.file b.ngram_sec 8 ngs (b.ngram_sec.off + start * 8) (count * 8) (k * 8)
              (start + k) y st.ngrams here (omega arith) (omega arith) (omega arith),
        )

    pub get_in_bucket-absent :
        (x : ℕ)
        → ((k y : ℕ) → get_elem? ngs k ≡ some y → ¬ (y ≡ x))
        → get_in_bucket b x start (take (count * 8) (drop (b.ngram_sec.off + start * 8) b.file))
          ≡ empty_section
    unfolding get_in_bucket
    get_in_bucket-absent x absent =
        let text = take (count * 8) (drop (b.ngram_sec.off + start * 8) b.file) in
        let n = length text / 8 in
        let r = search_index n (λ k. leb x (get_ngram text k)) in
        let size : n ≡ count = size_part in
        let has = subst (λ c. HasNgrams ngs start c text) (sym size) ngram_part in
        if_cases (λ s. s ≡ empty_section) (leb n r) _ _ (λ behind. refl)
          (λ inside.
            let (y, here, e) = has r (leb-false→lt n r inside) in
            if_cases (λ s. s ≡ empty_section) (get_ngram text r == x) _ _
              (λ same.
                absurd (absent (start + r) y here (sym e ∙ (==_iff (get_ngram text r) x).0 same)))
              (λ other. refl))

    pub get_in_bucket-found :
        (i x o : ℕ)
        → get_elem? ngs i ≡ some x
        → get_elem? offs i ≡ some o
        → start ≤ i
        → i < start + count
        → get_in_bucket b x start (take (count * 8) (drop (b.ngram_sec.off + start * 8) b.file))
          ≡ posting_list offs b.posting_index.off i o
    unfolding get_in_bucket
    get_in_bucket-found i x o at off low high =
        let text = take (count * 8) (drop (b.ngram_sec.off + start * 8) b.file) in
        let n = length text / 8 in
        let r = search_index n (λ k. leb x (get_ngram text k)) in
        let size : n ≡ count = size_part in
        let has = subst (λ c. HasNgrams ngs start c text) (sym size) ngram_part in
        let place =
          search_index-HasNgrams ngs start n text has st.ascending i x at low (omega arith) in
        let (y, here, e) = has r (omega arith) in
        let same : get_ngram text r ≡ x = let p = ap (get_elem? ngs) place in cc in
        if_false (leb n r) _ _ (lt→leb_false n r (omega arith))
        ∙ if_true (get_ngram text r == x) _ _ ((==_iff (get_ngram text r) x).1 same)
        ∙ ap (get_posting_list b) place
        ∙ get_posting_list-IsStored b ngs offs st i o off

  pub get-IsPart :
      (i q h count x : ℕ)
      → find x b.root ≡ ok (q, q * h)
      → IsPart i (q * h) count (get_bucket b q)
      → get b x
        ≡ ok (
            get_in_bucket b x
              (q * h)
              (take (count * 8) (drop (b.ngram_sec.off + q * h * 8) b.file)))
  unfolding IsPart get
  get-IsPart i q h count x found part =
      ap
        (λ f. f >>= λ r. ok (
          or_empty (read_file b.file (get_bucket b r.0).0 (get_bucket b r.0).1)
            (get_in_bucket b x r.1)))
        found
      ∙ ap (λ p. ok (or_empty (read_file b.file p.0 p.1) (get_in_bucket b x (q * h)))) part.0
      ∙ ap (λ t. ok (or_empty t (get_in_bucket b x (q * h)))) (read_part (q * h) count part.2)

  pub bucket_at :
      (i q buckets : ℕ)
      → 1 ≤ b.opts.bucket_size / 2
      → b.opts.bucket_size / 2 * 8 < 2 ^ 32
      → i ≤ length ngs
      → IsBucketOf (b.opts.bucket_size / 2) (length ngs) i q buckets
      → b.last_bucket_index ≡ buckets - 1
      → (count : ℕ) × IsPart i (q * (b.opts.bucket_size / 2)) count (get_bucket b q)
  bucket_at i q buckets p fits less place last =
      let h = b.opts.bucket_size / 2 in
      let size = st.ngrams.size in
      let within = st.ngrams.within in
      let small = st.small in
      let low = place.0 in
      let few = le-mul q h p in
      let sz : (h * 8) % 2 ^ 32 ≡ h * 8 = omega arith in
      let number : q % 2 ^ 32 ≡ q = omega arith in
      let product : q % 2 ^ 32 * ((h * 8) % 2 ^ 32) ≡ q * h * 8 =
        ap₂ (λ m n. m * n) number sz ∙ sym (mul_assoc q h 8) in
      let off : (b.ngram_sec.off + q % 2 ^ 32 * ((h * 8) % 2 ^ 32)) % 2 ^ 32
          ≡ b.ngram_sec.off + q * h * 8 =
        ap (λ m. (b.ngram_sec.off + m) % 2 ^ 32) product ∙ omega arith in
      get_bucket-IsBucketOf i q h ((h * 8) % 2 ^ 32)
        ((b.ngram_sec.off + q % 2 ^ 32 * ((h * 8) % 2 ^ 32)) % 2 ^ 32) buckets p less place last sz
        off
