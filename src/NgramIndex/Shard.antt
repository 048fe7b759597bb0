-- ===== src/NgramIndex/Shard.antt =====
-- What the ngram index of a shard gives for an ngram (`btreeIndex` in index/btree.go).
use zoekt.Prelude.{
  ℕ, zero, suc, ◌+◌, ◌*◌, ◌/◌, ◌^◌, ◌<◌, ◌==◌, ==_iff, if_true, if_false, if◌then◌else◌, Bool-cases,
  false,
}
use zoekt.Prelude.{
  List, [], ◌∷◌, length, get_elem?, some, ◌≡◌, refl, sym, ap, ◌∙◌, ◌⊎◌, inl, inr, arith,
}
use zoekt.Outcome.{ok, ◌>>=◌}
use zoekt.Btree.{Opts, Node, new_btree, insert_all, freeze}
use zoekt.Btree.Split.{IsOpts}
use zoekt.Btree.Layout.{get_elem?-lt}
use zoekt.Btree.Index.{frozen_finds}
use zoekt.NgramIndex.{
  SimpleSection, BtreeIndex, empty_section, frozen_index, section_ngrams, index_of_section,
  new_btree_index, get,
}
use zoekt.NgramIndex.Encoding.{encode, length-encode, section_ngrams-encode}
use zoekt.NgramIndex.Stored.{IsStored, read-within}
use zoekt.NgramIndex.Bucket.{next_offset, section_between, posting_list}
use zoekt.NgramIndex.Get.{IsPart, get-IsPart, bucket_at, get_in_bucket-absent, get_in_bucket-found}

-- The posting list of an ngram, in the list of the ngrams and that of the offsets.
abbrev pub posting_list_of : List ℕ → List ℕ → ℕ → ℕ → SimpleSection
posting_list_of [] offs index_off x = empty_section
posting_list_of (n ∷ ns) [] index_off x = empty_section
posting_list_of (n ∷ ns) (o ∷ offs) index_off x =
    if n == x
    then section_between o (next_offset (get_elem? offs 0) index_off)
    else posting_list_of ns offs index_off x

abbrev IsAbsent : List ℕ → ℕ → Type 0
IsAbsent ngs x = (k y : ℕ) → get_elem? ngs k ≡ some y → ¬ (y ≡ x)

record IsFound (ngs offs : List ℕ) (index_off x : ℕ) : Type 0 where
  place : ℕ
  offset : ℕ
  ngram_there : get_elem? ngs place ≡ some x
  offset_there : get_elem? offs place ≡ some offset
  list_there : posting_list_of ngs offs index_off x ≡ posting_list offs index_off place offset

posting_list_of-cases :
    (ngs offs : List ℕ) (index_off x : ℕ)
    → length offs ≡ length ngs
    → IsFound ngs offs index_off x
      ⊎ (IsAbsent ngs x × (posting_list_of ngs offs index_off x ≡ empty_section))
posting_list_of-cases [] offs index_off x h = inr ((λ k y e. cc), refl)
posting_list_of-cases (n ∷ ns) [] index_off x h = absurd (omega arith)
posting_list_of-cases (n ∷ ns) (o ∷ offs) index_off x h = elim (Bool-cases (n == x)) [
  | inl same ↦ inl (record {
    place = 0;
    offset = o;
    ngram_there = ap some ((==_iff n x).0 same);
    offset_there = refl;
    list_there = if_true (n == x) _ _ same;
  })
  | inr other ↦ elim (posting_list_of-cases ns offs index_off x (omega arith)) [
    | inl f ↦ inl (record {
      place = suc f.place;
      offset = f.offset;
      ngram_there = f.ngram_there;
      offset_there = f.offset_there;
      list_there = if_false (n == x) _ _ other ∙ f.list_there;
    })
    | inr (absent, e) ↦ inr (further other absent, if_false (n == x) _ _ other ∙ e)
  ]
]
  where
    further : (n == x) ≡ false → IsAbsent ns x → IsAbsent (n ∷ ns) x
    further other absent zero y e same =
        let there : n ≡ x = cc in let yes = (==_iff n x).1 there in cc
    further other absent (suc k) y e same = absent k y e same

new_btree_index-IsStored :
    (bytes : List ℕ) (opts : Opts) (ngram_sec posting_index : SimpleSection) (ngs offs : List ℕ)
    (t : Node)
    → IsStored bytes ngram_sec posting_index ngs offs
    → insert_all opts ngs new_btree ≡ ok t
    → new_btree_index bytes opts ngram_sec posting_index
      ≡ ok (some (frozen_index bytes opts ngram_sec posting_index t))
unfolding new_btree_index
new_btree_index-IsStored bytes opts ngram_sec posting_index ngs offs t st inserted =
    let text = encode 8 ngs in
    let rounds : (length text + 7) / 8 ≡ length ngs =
      let size = length-encode 8 ngs in omega arith in
    ap (index_of_section bytes opts ngram_sec posting_index) (
      read-within bytes ngram_sec.off ngram_sec.sz st.small st.ngrams.within
      ∙ ap some st.ngrams.text)
    ∙ ap
        (λ ns. insert_all opts ns new_btree >>= λ t.
          ok (some (frozen_index bytes opts ngram_sec posting_index t)))
        (ap (λ r. section_ngrams r text) rounds ∙ section_ngrams-encode ngs st.ngrams.fit)
    ∙ ap (λ o. o >>= λ t. ok (some (frozen_index bytes opts ngram_sec posting_index t))) inserted

-- On a file that holds the ascending ngrams and as many offsets, both sections as long as what they
-- hold, in a file shorter than 4 GB, `newBtreeIndex` returns an index, and `Get` on it is the
-- lookup in the two lists: for an ngram among them the section from its offset to the next one, or
-- to the index of the posting lists, with the size as a uint32, and the empty section for any
-- other. At least 4 bytes stand in front of the index of the posting lists. The bucket size is even
-- and positive, so is `v` positive, and half a bucket has less than 4 GB.
pub get-new_btree_index :
    (bytes : List ℕ) (opts : Opts) (ngram_sec posting_index : SimpleSection) (ngs offs : List ℕ)
    (x : ℕ)
    → IsOpts opts
    → opts.bucket_size / 2 * 8 < 2 ^ 32
    → IsStored bytes ngram_sec posting_index ngs offs
    → (b : BtreeIndex) × (new_btree_index bytes opts ngram_sec posting_index ≡ ok (some b))
      × (get b x ≡ ok (posting_list_of ngs offs posting_index.off x))
unfolding IsPart
get-new_btree_index bytes opts ngram_sec posting_index ngs offs x o fits st =
    let h = opts.bucket_size / 2 in
    let (t, inserted, any, each) = frozen_finds opts ngs o st.ascending in
    let b = frozen_index bytes opts ngram_sec posting_index t in
    (
      b,
      new_btree_index-IsStored bytes opts ngram_sec posting_index ngs offs t st inserted,
      elim (posting_list_of-cases ngs offs posting_index.off x st.as_many) [
        | inl f ↦
            let (q, found, place) = each f.place x f.ngram_there in
            let less = get_elem?-lt ngs f.place x f.ngram_there in
            let (count, part) =
              bucket_at b ngs offs st f.place q (freeze t 0 0).1 o.positive fits (omega arith) place
                refl in
            get-IsPart b ngs offs st f.place q h count x found part
            ∙ ap ok (
                get_in_bucket-found b ngs offs st (q * h) count part.2 f.place x f.offset
                  f.ngram_there f.offset_there place.0 (part.1 less)
                ∙ sym f.list_there)
        | inr (absent, none') ↦
            let (q, found, low, place) = any x in
            let (count, part) =
              bucket_at b ngs offs st (q * h) q (freeze t 0 0).1 o.positive fits low place refl in
            get-IsPart b ngs offs st (q * h) q h count x found part
            ∙ ap ok (get_in_bucket-absent b ngs offs st (q * h) count part.2 x absent ∙ sym none')
      ],
    )
