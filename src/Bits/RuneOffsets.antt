-- ===== src/Bits/RuneOffsets.antt =====
-- `runeOffsetMap` of index/bits.go: byte offsets of every hundredth rune, stored only where a rune
-- takes more than one byte. The offsets are uint32, so sums and differences are taken mod 2 ^ 32.
pub mod Entry
pub mod Lookup
pub mod Stored
pub mod RoundTrip
use zoekt.Prelude.{
  ℕ, zero, suc, ◌+◌, ◌-◌, ◌*◌, ◌/◌, ◌%◌, ◌^◌, ltb, leb, ◌==◌, if◌then◌else◌, Bool, true, false,
}
use zoekt.Prelude.{List, [], ◌∷◌, length}

pub record Correction : Type 0 where
  pub rune_offset : ℕ
  pub byte_offset : ℕ

-- `runeOffsetFrequency`
abbrev pub frequency : ℕ
frequency = 100

-- The loop of `makeRuneOffsetMap` at index `i`.
unfoldable pub corrections : ℕ → ℕ → List ℕ → List Correction
corrections i expected [] = []
corrections i expected (byte_offset ∷ off) =
    let kept = corrections (i + 1) ((expected + frequency) % 2 ^ 32) off in
    let corrected = corrections (i + 1) ((byte_offset + frequency) % 2 ^ 32) off in
    if byte_offset == expected
    then kept
    else record { rune_offset = i * frequency % 2 ^ 32; byte_offset = byte_offset } ∷ corrected

unfoldable pub make_rune_offset_map : List ℕ → List Correction
unfolding corrections
make_rune_offset_map off = corrections 0 0 off

-- `sort.Search`: the least index in [i, j) at which the test holds, if the test holds from there
-- on. Each round at least halves j - i, so `j` rounds are enough.
unfoldable pub search_loop : ℕ → (ℕ → Bool) → ℕ → ℕ → ℕ
search_loop zero test i j = i
search_loop (suc fuel) test i j =
    let h = (i + j) / 2 in
    let upper = search_loop fuel test (h + 1) j in
    let lower = search_loop fuel test i h in
    if ltb i j then (if test h then lower else upper) else i

unfoldable pub search_index : ℕ → (ℕ → Bool) → ℕ
unfolding search_loop
search_index n test = search_loop (suc n) test 0 n

-- `m[i]`, which `lookup` reads within the bounds of `m` only.
unfoldable pub entry : List Correction → ℕ → Correction
entry [] i = record { rune_offset = 0; byte_offset = 0 }
entry (c ∷ m) zero = c
entry (c ∷ m) (suc i) = entry m i

-- `m[idx].byteOffset + runeOffset - m[idx].runeOffset`
abbrev pub interpolate : Correction → ℕ → ℕ
interpolate c base = (c.byte_offset + base + 2 ^ 32 - c.rune_offset) % 2 ^ 32

-- The byte offset at a multiple of the frequency, and the runes left to walk.
unfoldable pub lookup : List Correction → ℕ → ℕ × ℕ
unfolding search_index entry
lookup m rune_offset =
    let left = rune_offset % frequency in
    let base = rune_offset - left in
    let n = length m in
    let idx = search_index n (λ i. leb (entry m (n - 1 - i)).rune_offset base) in
    if n == 0
    then (base, left)
    else if ltb idx n
    then (interpolate (entry m (n - 1 - idx)) base, left)
    else (base, left)
