-- ===== src/NgramIndex/Examples.antt =====
-- Test runs of the ngram index on a small file.
use zoekt.Prelude.{ℕ, List, [], ◌∷◌, ◌++◌, Option, none, some, ◌≡◌, refl, arith}
use zoekt.Outcome.{Outcome, ok, ◌>>=◌}
use zoekt.Btree.{Opts, insert_all, freeze, find}
use zoekt.Btree.Split.{IsOpts}
use zoekt.Bits.RuneOffsets.{search_index}
use zoekt.NgramIndex.{
  SimpleSection, BtreeIndex, section_ngrams, new_btree_index, get_posting_list, get_in_bucket, get,
}
use zoekt.NgramIndex.Encoding.{encode}
use zoekt.NgramIndex.Stored.{IsStored}
use zoekt.NgramIndex.Shard.{posting_list_of, get-new_btree_index}

-- Three posting lists of four bytes in all, their offsets, and the ngrams.
abbrev ngrams : List ℕ
ngrams = 258 ∷ 300 ∷ 70000 ∷ []

abbrev offsets : List ℕ
offsets = 0 ∷ 2 ∷ 3 ∷ []

abbrev file : List ℕ
file = 1 ∷ 2 ∷ 3 ∷ 4 ∷ (encode 4 offsets ++ encode 8 ngrams)

abbrev posting_index : SimpleSection
posting_index = record { off = 4; sz = 12 }

abbrev ngram_sec : SimpleSection
ngram_sec = record { off = 16; sz = 24 }

abbrev opts : Opts
opts = record { bucket_size = 2; v = 2 }

abbrev list_of : ℕ → Outcome (Option SimpleSection)
list_of x = new_btree_index file opts ngram_sec posting_index >>= λ r. elim r [
  | none ↦ ok none
  | some b ↦ get b x >>= λ s. ok (some s)
]

get_inside : list_of 300 ≡ ok (some (record { off = 2; sz = 1 }))
unfolding new_btree_index section_ngrams insert_all freeze find get get_in_bucket get_posting_list
    search_index
get_inside = refl

-- The last list ends where the index starts.
get_last : list_of 70000 ≡ ok (some (record { off = 3; sz = 1 }))
unfolding new_btree_index section_ngrams insert_all freeze find get get_in_bucket get_posting_list
    search_index
get_last = refl

get_absent : list_of 301 ≡ ok (some (record { off = 0; sz = 0 }))
unfolding new_btree_index section_ngrams insert_all freeze find get get_in_bucket get_posting_list
    search_index
get_absent = refl

-- A section behind the end of the file is an error.
read_error : new_btree_index file opts (record { off = 16; sz = 25 }) posting_index ≡ ok none
unfolding new_btree_index
read_error = refl

file-IsStored : IsStored file ngram_sec posting_index ngrams offsets
file-IsStored = record {
  small = omega arith;
  low = omega arith;
  ngrams = record {
    within = omega arith;
    size = refl;
    text = refl;
    fit = (refl, (refl, (refl, tt)));
  };
  offsets = record {
    within = omega arith;
    size = refl;
    text = refl;
    fit = (refl, (refl, (refl, tt)));
  };
  as_many = refl;
  ascending = omega arith;
}

opts-IsOpts : IsOpts opts
opts-IsOpts = record { even = refl; positive = omega arith; v-positive = omega arith }

get-new_btree_index_example :
    (b : BtreeIndex) × (new_btree_index file opts ngram_sec posting_index ≡ ok (some b))
    × (get b 300 ≡ ok (posting_list_of ngrams offsets 4 300))
get-new_btree_index_example =
    get-new_btree_index file opts ngram_sec posting_index ngrams offsets 300 opts-IsOpts
      (omega arith) file-IsStored
