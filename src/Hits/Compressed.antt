-- ===== src/Hits/Compressed.antt =====
-- `compressedPostingIterator` of index/hititer.go: hits decoded on the way from a posting list of
-- varint deltas.
pub mod Lawful
use zoekt.Prelude.{
  ℕ, zero, suc, ◌+◌, ◌-◌, ◌%◌, ◌^◌, leb, ◌==◌, if◌then◌else◌, List, [], ◌∷◌, length,
}
use zoekt.Outcome.{Outcome, ok, panic, diverges, ◌>>=◌}
use zoekt.Bits.Uvarint.{Read, read, short, overflow, uvarint}
use zoekt.Hits.{HitIterator}
use zoekt.Hits.Lists.{max_u32}

pub record CompressedPostingIterator : Type 0 where
  pub blob : List ℕ
  pub index_bytes_loaded : ℕ
  pub ngram_lookups : ℕ
  pub first_hit : ℕ
  pub what : ℕ

-- The two counters of `zoekt.Stats` that the iterators add to.
pub record Stats : Type 0 where
  pub index_bytes_loaded : ℕ
  pub ngram_lookups : ℕ

-- `newCompressedPostingIterator`: after an empty blob the first hit is 0, after a number that is
-- too long the slice expression panics.
unfoldable pub start : List ℕ → ℕ → Read → Outcome CompressedPostingIterator
start b w (read d rest) = ok (record {
  blob = rest;
  index_bytes_loaded = length b - length rest;
  ngram_lookups = 0;
  first_hit = d % 2 ^ 32;
  what = w;
})
start b w short =
    ok (record { blob = b; index_bytes_loaded = 0; ngram_lookups = 0; first_hit = 0; what = w })
start b w overflow = panic

unfoldable pub new_compressed_posting_iterator : List ℕ → ℕ → Outcome CompressedPostingIterator
unfolding start
new_compressed_posting_iterator b w = start b w (uvarint b)

-- What the loop of `next` changes.
pub record Cursor : Type 0 where
  pub hit : ℕ
  pub rest : List ℕ
  pub loaded : ℕ

-- One round, with the answer of `Uvarint` to the blob of `n` bytes. An answer of no bytes leaves
-- the loop where it is for ever, a negative one panics.
unfoldable pub skip_round : ℕ → ℕ → ℕ → (Cursor → Outcome Cursor) → Read → Outcome Cursor
skip_round n hit loaded next (read delta rest) = next (record {
  hit = (hit + delta % 2 ^ 32) % 2 ^ 32;
  rest = rest;
  loaded = loaded + (n - length rest);
})
skip_round n hit loaded next short = diverges
skip_round n hit loaded next overflow = panic

-- The loop; each round takes a byte, so the length of the blob is enough fuel.
unfoldable pub skip_loop : ℕ → ℕ → ℕ → List ℕ → ℕ → Outcome Cursor
unfolding skip_round
skip_loop fuel limit hit [] loaded = ok (record { hit = hit; rest = []; loaded = loaded })
skip_loop zero limit hit (b ∷ bs) loaded =
    if leb hit limit then diverges else ok (record { hit = hit; rest = b ∷ bs; loaded = loaded })
skip_loop (suc fuel) limit hit (b ∷ bs) loaded =
    let on =
      skip_round (length (b ∷ bs)) hit loaded (λ c. skip_loop fuel limit c.hit c.rest c.loaded)
        (uvarint (b ∷ bs)) in
    if leb hit limit then on else ok (record { hit = hit; rest = b ∷ bs; loaded = loaded })

-- Past the last hit the first one is math.MaxUint32.
abbrev pub spent_hit : ℕ → ℕ → List ℕ → ℕ
spent_hit limit hit [] = if leb hit limit then max_u32 else hit
spent_hit limit hit (b ∷ bs) = hit

unfoldable pub first : CompressedPostingIterator → Outcome (ℕ × CompressedPostingIterator)
first i = ok (i.first_hit, i)

unfoldable pub next : ℕ → CompressedPostingIterator → Outcome CompressedPostingIterator
unfolding skip_loop
next limit i =
    if limit == max_u32
    then ok (record i { blob = []; first_hit = max_u32 })
    else (skip_loop (length i.blob) limit i.first_hit i.blob i.index_bytes_loaded >>= λ c.
        ok (record i {
          blob = c.rest;
          index_bytes_loaded = c.loaded;
          first_hit = spent_hit limit c.hit c.rest;
        }))

unfoldable pub update_stats : Stats → CompressedPostingIterator → Stats × CompressedPostingIterator
update_stats s i = (
  record {
    index_bytes_loaded = s.index_bytes_loaded + i.index_bytes_loaded;
    ngram_lookups = s.ngram_lookups + i.ngram_lookups;
  },
  record i { index_bytes_loaded = 0; ngram_lookups = 0 },
)

abbrev pub compressed : HitIterator CompressedPostingIterator
compressed = record { first = first; next = next }
