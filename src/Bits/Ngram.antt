-- ===== src/Bits/Ngram.antt =====
-- `ngram` of index/bits.go: three runes of 21 bits in a uint64.
use zoekt.Prelude.{ℕ, ◌+◌, ◌*◌, ◌/◌, ◌%◌, ◌^◌, ◌<◌, ◌≡◌, ◌↔◌, ◌⊎◌, inl, inr, arith}
use native.Mathlib.Decide.{dec_lt}

pub record Runes : Type 0 where
  pub first : ℕ
  pub second : ℕ
  pub third : ℕ

-- A rune of a text is below 0x110000, so it has 21 bits.
pub record IsRunes (r : Runes) : Type 0 where
  pub first_bits : r.first < 2 ^ 21
  pub second_bits : r.second < 2 ^ 21
  pub third_bits : r.third < 2 ^ 21

-- Shifted by 42, 21 and 0, the runes share no bit: `|` is their sum.
unfoldable pub runes_to_ngram : Runes → ℕ
runes_to_ngram r = r.first * 2 ^ 42 + r.second * 2 ^ 21 + r.third

-- `& runeMask` keeps 21 bits.
unfoldable pub ngram_to_runes : ℕ → Runes
ngram_to_runes n = record {
  first = n / 2 ^ 42 % 2 ^ 21;
  second = n / 2 ^ 21 % 2 ^ 21;
  third = n % 2 ^ 21;
}

-- The lexicographic order.
abbrev pub RunesLt : Runes → Runes → Type 0
RunesLt r s =
    (r.first < s.first)
    ⊎ ((r.first ≡ s.first)
        × ((r.second < s.second) ⊎ ((r.second ≡ s.second) × (r.third < s.third))))

-- Runes of 21 bits come back from their ngram, which fits 63 bits.
pub ngram_to_runes-runes_to_ngram :
    (r : Runes) → IsRunes r → (ngram_to_runes (runes_to_ngram r) ≡ r) × (runes_to_ngram r < 2 ^ 63)
unfolding ngram_to_runes runes_to_ngram
ngram_to_runes-runes_to_ngram r h =
    let a : (r.first * 2 ^ 42 + r.second * 2 ^ 21 + r.third) / 2 ^ 42 % 2 ^ 21 ≡ r.first =
      omega arith in
    let b : (r.first * 2 ^ 42 + r.second * 2 ^ 21 + r.third) / 2 ^ 21 % 2 ^ 21 ≡ r.second =
      omega arith in
    let c : (r.first * 2 ^ 42 + r.second * 2 ^ 21 + r.third) % 2 ^ 21 ≡ r.third = omega arith in
    (λ i. record { first = a i; second = b i; third = c i }, omega arith)

RunesLt-less :
    (r s : Runes) → IsRunes r → IsRunes s → runes_to_ngram r < runes_to_ngram s → RunesLt r s
unfolding runes_to_ngram
RunesLt-less r s hr hs h = elim (dec_lt r.first s.first) [
  | yes p ↦ inl p
  | no p ↦ inr (
    omega arith,
    elim (dec_lt r.second s.second) [ yes q ↦ inl q | no q ↦ inr (omega arith, omega arith) ],
  )
]

less-RunesLt :
    (r s : Runes) → IsRunes r → IsRunes s → RunesLt r s → runes_to_ngram r < runes_to_ngram s
unfolding runes_to_ngram
less-RunesLt r s hr hs (inl h) = omega arith
less-RunesLt r s hr hs (inr (e, inl h)) = omega arith
less-RunesLt r s hr hs (inr (e, inr (e', h))) = omega arith

-- The numeric order of ngrams, by which the index is sorted, is the lexicographic order of their
-- runes, where these have 21 bits.
pub runes_to_ngram_mono :
    (r s : Runes) → IsRunes r → IsRunes s → (runes_to_ngram r < runes_to_ngram s) ↔ RunesLt r s
runes_to_ngram_mono r s hr hs = (RunesLt-less r s hr hs, less-RunesLt r s hr hs)
