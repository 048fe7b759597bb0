-- ===== src/NgramIndex/Stored.antt =====
-- A file that holds the ngrams of a shard, and the offsets of their posting lists.
use zoekt.Prelude.{
  ℕ, ◌+◌, ◌-◌, ◌*◌, ◌%◌, ◌^◌, ◌≤◌, ◌<◌, ltb, ◌||◌, le→ltb_false, if_false, List, length, take, drop,
  drop-split, get_elem?, All, none, some,
}
use zoekt.Prelude.{◌≡◌, refl, sym, ap, ap₂, ◌∙◌, arith}
use zoekt.Btree.Find.{IsAscending}
use zoekt.NgramIndex.{SimpleSection, read_file, be_uint}
use zoekt.NgramIndex.Encoding.{Fits, encode, be_uint-encode, take-take, drop-take}

-- A section of the file holds numbers of `w` bytes.
pub record HoldsNumbers (bytes : List ℕ) (s : SimpleSection) (w : ℕ) (ns : List ℕ) : Type 0 where
  pub within : s.off + s.sz ≤ length bytes
  pub size : s.sz ≡ length ns * w
  pub text : take s.sz (drop s.off bytes) ≡ encode w ns
  pub fit : All (Fits w) ns

-- The ngrams ascend, and the index has an offset for each. Something stands in front of the index.
pub record IsStored (bytes : List ℕ) (ngram_sec posting_index : SimpleSection) (ngs offs : List ℕ)
    : Type 0 where
  pub small : length bytes < 2 ^ 32
  pub low : 4 ≤ posting_index.off
  pub ngrams : HoldsNumbers bytes ngram_sec 8 ngs
  pub offsets : HoldsNumbers bytes posting_index 4 offs
  pub as_many : length offs ≡ length ngs
  pub ascending : IsAscending ngs

pub read-within :
    (bytes : List ℕ) (off sz : ℕ)
    → length bytes < 2 ^ 32
    → off + sz ≤ length bytes
    → read_file bytes off sz ≡ some (take sz (drop off bytes))
read-within bytes off sz small within =
    let end : (off + sz) % 2 ^ 32 ≡ off + sz = omega arith in
    let size : length bytes % 2 ^ 32 ≡ length bytes = omega arith in
    let rest : (off + sz) % 2 ^ 32 - off ≡ sz = omega arith in
    if_false (ltb ((off + sz) % 2 ^ 32) off || ltb (length bytes % 2 ^ 32) ((off + sz) % 2 ^ 32))
      none _
      (ap₂ ◌||◌ (le→ltb_false ((off + sz) % 2 ^ 32) off (omega arith))
        (le→ltb_false (length bytes % 2 ^ 32) ((off + sz) % 2 ^ 32) (omega arith)))
    ∙ ap (λ n. some (take n (drop off bytes))) rest

-- A number of a section.
pub number_at :
    (bytes : List ℕ) (s : SimpleSection) (w : ℕ) (ns : List ℕ) (m n : ℕ)
    → HoldsNumbers bytes s w ns
    → get_elem? ns m ≡ some n
    → m * w + w ≤ s.sz
    → be_uint 0 (take w (drop (s.off + m * w) bytes)) ≡ n
number_at bytes s w ns m n h e l =
    ap (λ x. be_uint 0 (take w x)) (sym (drop-split s.off (m * w) (s.off + m * w) bytes refl))
    ∙ ap (be_uint 0) (
        sym (take-take w (s.sz - m * w) (drop (m * w) (drop s.off bytes)) (omega arith))
        ∙ ap (take w) (sym (drop-take (m * w) s.sz (drop s.off bytes)))
        ∙ ap (λ x. take w (drop (m * w) x)) h.text)
    ∙ be_uint-encode w ns m n h.fit e

-- A number of a part of a section that was read.
pub number_in :
    (bytes : List ℕ) (s : SimpleSection) (w : ℕ) (ns : List ℕ) (off sz skip m n : ℕ)
    → HoldsNumbers bytes s w ns
    → get_elem? ns m ≡ some n
    → m * w + w ≤ s.sz
    → off + skip ≡ s.off + m * w
    → skip + w ≤ sz
    → be_uint 0 (take w (drop skip (take sz (drop off bytes)))) ≡ n
number_in bytes s w ns off sz skip m n h e l at room =
    ap (λ x. be_uint 0 (take w x)) (drop-take skip sz (drop off bytes))
    ∙ ap (be_uint 0) (
        take-take w (sz - skip) (drop skip (drop off bytes)) (omega arith)
        ∙ ap (take w) (drop-split off skip (s.off + m * w) bytes at))
    ∙ number_at bytes s w ns m n h e l
