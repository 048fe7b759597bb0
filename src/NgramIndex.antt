-- ===== src/NgramIndex.antt =====
-- The ngram index of a shard: `btreeIndex` of index/btree.go, `newBtreeIndex` of index/read.go, and
-- the file of index/indexfile.go that they read. Bytes are numbers below 256; offsets are uint32.
pub mod Encoding
pub mod Stored
pub mod Bucket
pub mod Search
pub mod Get
pub mod Shard
mod Examples
use zoekt.Prelude.{
  ℕ, zero, suc, ◌+◌, ◌-◌, ◌*◌, ◌/◌, ◌%◌, ◌^◌, ltb, leb, ◌==◌, ◌||◌, if◌then◌else◌, Bool, true,
  false,
}
use zoekt.Prelude.{List, [], ◌∷◌, length, take, drop, Option, none, some}
use zoekt.Outcome.{Outcome, ok, ◌>>=◌}
use zoekt.Bits.RuneOffsets.{search_index}
use zoekt.Btree.{Opts, Node, insert_all, new_btree, freeze, find}

pub record SimpleSection : Type 0 where
  pub off : ℕ
  pub sz : ℕ

-- `mmapedIndexFile.Read`
abbrev pub read_file : List ℕ → ℕ → ℕ → Option (List ℕ)
read_file bytes off sz =
    let end = (off + sz) % 2 ^ 32 in
    if ltb end off || ltb (length bytes % 2 ^ 32) end
    then none
    else some (take (end - off) (drop off bytes))

-- `binary.BigEndian.Uint64` and `Uint32`, of 8 and 4 bytes.
abbrev pub be_uint : ℕ → List ℕ → ℕ
be_uint n [] = n
be_uint n (b ∷ bs) = be_uint (n * 256 + b) bs

-- The ngrams of a section, as many as there are rounds. The last one is cut short if the section
-- ends inside it, where the code reads on behind the section.
unfoldable pub section_ngrams : ℕ → List ℕ → List ℕ
section_ngrams zero text = []
section_ngrams (suc rounds) text = be_uint 0 (take 8 text) ∷ section_ngrams rounds (drop 8 text)

pub record BtreeIndex : Type 0 where
  pub root : Node
  pub opts : Opts
  pub last_bucket_index : ℕ
  pub file : List ℕ
  pub ngram_sec : SimpleSection
  pub posting_index : SimpleSection

-- The index on a tree with all ngrams inserted, which `freeze` is called on.
abbrev pub frozen_index : List ℕ → Opts → SimpleSection → SimpleSection → Node → BtreeIndex
frozen_index bytes opts ngram_sec posting_index t = record {
  root = (freeze t 0 0).0;
  opts = opts;
  last_bucket_index = (freeze t 0 0).1 - 1;
  file = bytes;
  ngram_sec = ngram_sec;
  posting_index = posting_index;
}

-- What `newBtreeIndex` does with the section it has read.
abbrev pub index_of_section :
    List ℕ → Opts → SimpleSection → SimpleSection → Option (List ℕ) → Outcome (Option BtreeIndex)
index_of_section bytes opts ngram_sec posting_index none = ok none
index_of_section bytes opts ngram_sec posting_index (some text) =
    insert_all opts (section_ngrams ((length text + 7) / 8) text) new_btree >>= λ t.
    ok (some (frozen_index bytes opts ngram_sec posting_index t))

-- `newBtreeIndex`, with `none` for an error; the code has a bucket size of 1024 and 50 for `v`.
unfoldable pub new_btree_index :
    List ℕ → Opts → SimpleSection → SimpleSection → Outcome (Option BtreeIndex)
new_btree_index bytes opts ngram_sec posting_index =
    index_of_section bytes opts ngram_sec posting_index (read_file bytes ngram_sec.off ngram_sec.sz)

-- `getBucket`: the offset and the size.
abbrev pub get_bucket : BtreeIndex → ℕ → ℕ × ℕ
get_bucket b bucket_index =
    let sz = (b.opts.bucket_size / 2 * 8) % 2 ^ 32 in
    let off = (b.ngram_sec.off + bucket_index % 2 ^ 32 * sz) % 2 ^ 32 in
    if bucket_index == b.last_bucket_index
    then (off, (b.ngram_sec.off + b.ngram_sec.sz + 2 ^ 32 - off) % 2 ^ 32)
    else (off, sz)

abbrev pub empty_section : SimpleSection
empty_section = record { off = 0; sz = 0 }

-- The section from the offset at the start of `o` to the one behind it.
abbrev pub between_offsets : Option (List ℕ) → SimpleSection
between_offsets none = empty_section
between_offsets (some o) =
    let start = be_uint 0 (take 4 o) in
    let end = be_uint 0 (take 4 (drop 4 o)) in
    record { off = start; sz = (end + 2 ^ 32 - start) % 2 ^ 32 }

-- The section from the offset that is read up to the index of the posting lists.
abbrev pub up_to_index : ℕ → Option (List ℕ) → SimpleSection
up_to_index index_off none = empty_section
up_to_index index_off (some o) =
    let start = be_uint 0 (take 4 o) in
    record { off = start; sz = (index_off + 2 ^ 32 - start) % 2 ^ 32 }

unfoldable pub get_posting_list : BtreeIndex → ℕ → SimpleSection
get_posting_list b ngram_index =
    let rel = (ngram_index % 2 ^ 32 * 4) % 2 ^ 32 in
    let at = (b.posting_index.off + rel) % 2 ^ 32 in
    if leb ((rel + 8) % 2 ^ 32) b.posting_index.sz
    then between_offsets (read_file b.file at 8)
    else up_to_index b.posting_index.off (read_file b.file at 4)

abbrev pub get_ngram : List ℕ → ℕ → ℕ
get_ngram bucket i = be_uint 0 (take 8 (drop (i * 8) bucket))

-- What `Get` does with the bucket it has read.
unfoldable pub get_in_bucket : BtreeIndex → ℕ → ℕ → List ℕ → SimpleSection
unfolding get_posting_list search_index
get_in_bucket b ng posting_index_offset bucket =
    let bucket_size = length bucket / 8 in
    let x = search_index bucket_size (λ i. leb ng (get_ngram bucket i)) in
    if leb bucket_size x
    then empty_section
    else if get_ngram bucket x == ng
    then get_posting_list b (posting_index_offset + x)
    else empty_section

abbrev pub or_empty : Option (List ℕ) → (List ℕ → SimpleSection) → SimpleSection
or_empty none f = empty_section
or_empty (some bucket) f = f bucket

-- `Get`
unfoldable pub get : BtreeIndex → ℕ → Outcome SimpleSection
unfolding get_in_bucket
get b ng = find ng b.root >>= λ r.
    let bucket = get_bucket b r.0 in
    ok (or_empty (read_file b.file bucket.0 bucket.1) (get_in_bucket b ng r.1))
