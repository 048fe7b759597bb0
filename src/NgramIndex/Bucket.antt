-- ===== src/NgramIndex/Bucket.antt =====
-- The posting list at an index, the bucket at a number, and the search in it (`getPostingList`,
-- `getBucket` and the second half of `Get` in index/btree.go).
use zoekt.Prelude.{
  ℕ, zero, suc, ◌+◌, ◌-◌, ◌*◌, ◌%◌, ◌^◌, ◌≤◌, leb, leb→le, leb-false→lt, if_cases, if◌then◌else◌,
}
use zoekt.Prelude.{
  List, [], ◌∷◌, length, get_elem?, Option, none, some, ◌≡◌, refl, sym, ap, ap₂, ◌∙◌, arith,
}
use zoekt.Btree.Split.{key_at}
use zoekt.Btree.Layout.{get_elem?-lt}
use zoekt.NgramIndex.{
  SimpleSection, BtreeIndex, read_file, between_offsets, up_to_index, get_posting_list,
}
use zoekt.NgramIndex.Stored.{IsStored, read-within, number_in}

-- The offset behind the one at an index: that of the next posting list, or of the index.
abbrev pub next_offset : Option ℕ → ℕ → ℕ
next_offset none index_off = index_off
next_offset (some o) index_off = o

abbrev pub section_between : ℕ → ℕ → SimpleSection
section_between start end = record { off = start; sz = (end + 2 ^ 32 - start) % 2 ^ 32 }

-- From the offset `o` at the index `i` up to the next one.
abbrev pub posting_list : List ℕ → ℕ → ℕ → ℕ → SimpleSection
posting_list offs index_off i o = record {
  off = o;
  sz = (next_offset (get_elem? offs (suc i)) index_off + 2 ^ 32 - o) % 2 ^ 32;
}

get_elem?-none : (ns : List ℕ) (i : ℕ) → length ns ≤ i → get_elem? ns i ≡ none
get_elem?-none [] i h = refl
get_elem?-none (n ∷ ns) zero h = absurd (omega arith)
get_elem?-none (n ∷ ns) (suc i) h = get_elem?-none ns i (omega arith)

module _ (b : BtreeIndex) (ngs offs : List ℕ)
    (st : IsStored b.file b.ngram_sec b.posting_index ngs offs) where
  two_offsets :
      (i o e at : ℕ)
      → get_elem? offs i ≡ some o
      → get_elem? offs (suc i) ≡ some e
      → at ≡ b.posting_index.off + i * 4
      → between_offsets (read_file b.file at 8) ≡ posting_list offs b.posting_index.off i o
  two_offsets i o e at here next place =
      let less = get_elem?-lt offs (suc i) e next in
      let size = st.offsets.size in
      let within = st.offsets.within in
      let start =
        number_in b.file b.posting_index 4 offs at 8 0 i o st.offsets here (omega arith)
          (omega arith) (omega arith) in
      let end =
        number_in b.file b.posting_index 4 offs at 8 4 (suc i) e st.offsets next (omega arith)
          (omega arith) (omega arith) in
      ap between_offsets (read-within b.file at 8 st.small (omega arith))
      ∙ ap₂ section_between start end
      ∙ ap (λ n. section_between o (next_offset n b.posting_index.off)) (sym next)

  last_posting_list :
      (i o at : ℕ)
      → get_elem? offs i ≡ some o
      → length offs ≤ suc i
      → at ≡ b.posting_index.off + i * 4
      → up_to_index b.posting_index.off (read_file b.file at 4)
        ≡ posting_list offs b.posting_index.off i o
  last_posting_list i o at here last place =
      let less = get_elem?-lt offs i o here in
      let size = st.offsets.size in
      let within = st.offsets.within in
      let start =
        number_in b.file b.posting_index 4 offs at 4 0 i o st.offsets here (omega arith)
          (omega arith) (omega arith) in
      ap (up_to_index b.posting_index.off) (read-within b.file at 4 st.small (omega arith))
      ∙ ap (λ s. section_between s b.posting_index.off) start
      ∙ ap (λ n. section_between o (next_offset n b.posting_index.off))
          (sym (get_elem?-none offs (suc i) last))

  posting_list_at :
      (i o rel at : ℕ)
      → get_elem? offs i ≡ some o
      → rel ≡ i * 4
      → at ≡ b.posting_index.off + i * 4
      → (if leb ((rel + 8) % 2 ^ 32) b.posting_index.sz
          then between_offsets (read_file b.file at 8)
          else up_to_index b.posting_index.off (read_file b.file at 4))
        ≡ posting_list offs b.posting_index.off i o
  posting_list_at i o rel at here r place =
      let less = get_elem?-lt offs i o here in
      let size = st.offsets.size in
      let within = st.offsets.within in
      let small = st.small in
      let low = st.low in
      let whole : (rel + 8) % 2 ^ 32 ≡ rel + 8 = omega arith in
      if_cases (λ s. s ≡ posting_list offs b.posting_index.off i o)
        (leb ((rel + 8) % 2 ^ 32) b.posting_index.sz) _ _
        (λ more.
          let fits = leb→le ((rel + 8) % 2 ^ 32) b.posting_index.sz more in
          let (e, next) = key_at (suc i) offs (omega arith) in two_offsets i o e at here next place)
        (λ last.
          let short = leb-false→lt ((rel + 8) % 2 ^ 32) b.posting_index.sz last in
          last_posting_list i o at here (omega arith) place)

  pub get_posting_list-IsStored :
      (i o : ℕ)
      → get_elem? offs i ≡ some o
      → get_posting_list b i ≡ posting_list offs b.posting_index.off i o
  unfolding get_posting_list
  get_posting_list-IsStored i o here =
      let less = get_elem?-lt offs i o here in
      let size = st.offsets.size in
      let within = st.offsets.within in
      let small = st.small in
      posting_list_at i o ((i % 2 ^ 32 * 4) % 2 ^ 32)
        ((b.posting_index.off + (i % 2 ^ 32 * 4) % 2 ^ 32) % 2 ^ 32) here (omega arith)
        (omega arith)
