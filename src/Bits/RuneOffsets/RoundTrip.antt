-- ===== src/Bits/RuneOffsets/RoundTrip.antt =====
-- `lookup` gives back the offsets from which `makeRuneOffsetMap` built the map.
use zoekt.Prelude.{ℕ, zero, suc, ◌+◌, ◌-◌, ◌*◌, ◌/◌, ◌%◌, ◌^◌, ◌≤◌, ◌<◌, ◌==◌, if_cases, ==_iff}
use zoekt.Prelude.{List, [], ◌∷◌, length, All, get_elem?}
use zoekt.Prelude.{some, ◌≡◌, ◌∙◌, arith}
use zoekt.Bits.RuneOffsets.{Correction, corrections, make_rune_offset_map, interpolate, lookup}
use zoekt.Bits.RuneOffsets.Lookup.{IsAscending, last_before, last_before_none, last_before_cons}
use zoekt.Bits.RuneOffsets.Stored.{origin, lookup-last_before}

-- The entries from index `i` on stand at `100 * i` or later.
corrections-IsAscending :
    (i e lo : ℕ) (off : List ℕ)
    → (i + length off) * 100 ≤ 2 ^ 32
    → lo ≤ i * 100
    → IsAscending lo (corrections i e off)
unfolding corrections
corrections-IsAscending i e lo [] h k = tt
corrections-IsAscending i e lo (b ∷ off) h k =
    if_cases (IsAscending lo) (b == e) _ _
      (λ _. corrections-IsAscending (i + 1) ((e + 100) % 2 ^ 32) lo off (omega arith) (omega arith))
      (λ _.
        let x : i * 100 % 2 ^ 32 ≡ i * 100 = omega arith in
        (
          omega arith,
          corrections-IsAscending (i + 1) ((b + 100) % 2 ^ 32) (i * 100 % 2 ^ 32 + 1) off
              (omega arith) (omega arith),
        ))

-- The interpolation goes up by the frequency from one multiple to the next.
interpolate_step :
    (c : Correction) (base e : ℕ)
    → c.rune_offset ≤ 2 ^ 32
    → interpolate c base ≡ e
    → interpolate c (base + 100) ≡ (e + 100) % 2 ^ 32
interpolate_step c base e h k = omega arith

-- `d` is the last correction before index `i`, and predicts `e` there.
corrections_lem :
    (off : List ℕ) (i j e v : ℕ) (d : Correction)
    → (i + length off) * 100 ≤ 2 ^ 32
    → All (λ b. b < 2 ^ 32) off
    → d.rune_offset ≤ 2 ^ 32
    → interpolate d (i * 100) ≡ e
    → get_elem? off j ≡ some v
    → interpolate (last_before d ((i + j) * 100) (corrections i e off)) ((i + j) * 100) ≡ v
unfolding corrections
corrections_lem [] i j e v d h u r p g = cc
corrections_lem (b ∷ off) i zero e v d h u r p g =
    let i0 : i + 0 ≡ i = omega arith in
    let bv : b ≡ v = cc in
    if_cases (λ m. interpolate (last_before d ((i + 0) * 100) m) ((i + 0) * 100) ≡ v) (b == e) _ _
      (λ same.
        let be : b ≡ e = (==_iff _ _).0 same in
        let asc =
          corrections-IsAscending (i + 1) ((e + 100) % 2 ^ 32) ((i + 1) * 100) off (omega arith)
            (omega arith) in
        rw (i0, last_before_none d (i * 100) ((i + 1) * 100) _ asc (omega arith)) (omega arith))
      (λ _.
        let x : i * 100 % 2 ^ 32 ≡ i * 100 = omega arith in
        let c : Correction = record { rune_offset = i * 100; byte_offset = b } in
        let asc =
          corrections-IsAscending (i + 1) ((b + 100) % 2 ^ 32) ((i + 1) * 100) off (omega arith)
            (omega arith) in
        rw
          (
            i0,
            x,
            last_before_cons d c (i * 100) _ (omega arith),
            last_before_none c (i * 100) ((i + 1) * 100) _ asc (omega arith),
          )
          (omega arith))
corrections_lem (b ∷ off) i (suc j) e v d h u r p g =
    let next : i + suc j ≡ i + 1 + j = omega arith in
    let up : (i + 1) * 100 ≡ i * 100 + 100 = omega arith in
    rw next (
      if_cases (λ m. interpolate (last_before d ((i + 1 + j) * 100) m) ((i + 1 + j) * 100) ≡ v)
        (b == e) _ _
        (λ _.
          corrections_lem off (i + 1) j ((e + 100) % 2 ^ 32) v d (omega arith) u.1 r
            (rw up (interpolate_step d (i * 100) e r p)) g)
        (λ _.
          let x : i * 100 % 2 ^ 32 ≡ i * 100 = omega arith in
          let c : Correction = record { rune_offset = i * 100; byte_offset = b } in
          let exact : interpolate c (i * 100) ≡ b = let small = u.0 in omega arith in
          rw (x, last_before_cons d c ((i + 1 + j) * 100) _ (omega arith))
            (corrections_lem off (i + 1) j ((b + 100) % 2 ^ 32) v c (omega arith) u.1 (omega arith)
              (rw up (interpolate_step c (i * 100) b (omega arith) exact)) g)))

-- From the byte offsets of every hundredth rune `makeRuneOffsetMap` builds a map in which `lookup`
-- finds, for a rune offset within the text, the byte offset of the hundred that it lies in and the
-- runes left to walk, if the offsets fit 32 bits. The stored offsets need not ascend.
pub lookup-make_rune_offset_map :
    (off : List ℕ) (r v : ℕ)
    → All (λ b. b < 2 ^ 32) off
    → length off * 100 ≤ 2 ^ 32
    → r < 2 ^ 32
    → get_elem? off (r / 100) ≡ some v
    → lookup (make_rune_offset_map off) r ≡ (v, r % 100)
unfolding make_rune_offset_map
lookup-make_rune_offset_map off r v u h small g =
    let asc = corrections-IsAscending 0 0 0 off (omega arith) (omega arith) in
    let base : (0 + r / 100) * 100 ≡ r - r % 100 = omega arith in
    let value =
      corrections_lem off 0 (r / 100) 0 v origin (omega arith) u (omega arith) (omega arith) g in
    lookup-last_before (corrections 0 0 off) 0 r asc small ∙ rw (rw base at value)
