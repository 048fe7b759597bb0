-- ===== src/Bits/RuneOffsets/Stored.antt =====
-- `lookup` gives back the offsets from which `makeRuneOffsetMap` built the map.
use zoekt.Prelude.{ℕ, suc, ◌-◌, ◌%◌, ◌^◌, ◌<◌, ltb, leb, ◌==◌, if_cases}
use zoekt.Prelude.{Bool, true, false, List, [], ◌∷◌, length}
use zoekt.Prelude.{
  ◌≡◌, refl, subst, arith, le→leb, leb→le, leb-false→lt, ltb-false→le, ltb→lt, ==_iff,
}
use zoekt.Bits.RuneOffsets.{Correction, search_index}
use zoekt.Bits.RuneOffsets.{entry, interpolate, lookup}
use zoekt.Bits.RuneOffsets.Entry.{IsMonotone, search_index_lem}
use zoekt.Bits.RuneOffsets.Lookup.{
  IsAscending, entry_mono, last_before, last_before_none, last_before-entry,
}

abbrev pub origin : Correction
origin = record { rune_offset = 0; byte_offset = 0 }

-- The test that `lookup` hands to `sort.Search`.
abbrev at_or_before : List Correction → ℕ → ℕ → Bool
at_or_before m base i = leb (entry m (length m - 1 - i)).rune_offset base

module _ (m : List Correction) (lo : ℕ) (asc : IsAscending lo m) (base : ℕ) where
  at_or_before-IsMonotone : IsMonotone (length m) (at_or_before m base)
  at_or_before-IsMonotone a b p l t =
      let e =
        entry_mono lo m (length m - 1 - b) (length m - 1 - a) asc (omega arith) (omega arith) in
      let t' = leb→le _ _ t in le→leb _ _ (omega arith)

  found :
      (idx : ℕ)
      → idx < length m
      → at_or_before m base idx ≡ true
      → ((k : ℕ) → k < idx → at_or_before m base k ≡ false)
      → last_before origin base m ≡ entry m (length m - 1 - idx)
  found idx l t f =
      last_before-entry origin base lo (length m - 1 - idx) m asc (omega arith) (leb→le _ _ t) (λ k.
        let e : length m - 1 - (idx - 1) ≡ suc (length m - 1 - idx) = omega arith in
        leb-false→lt _ _
          (subst (λ p. leb (entry m p).rune_offset base ≡ false) e (f (idx - 1) (omega arith))))

none_before :
    (m : List Correction) (lo base : ℕ)
    → IsAscending lo m
    → ((k : ℕ) → k < length m → at_or_before m base k ≡ false)
    → last_before origin base m ≡ origin
none_before [] lo base asc h = unfold last_before in refl
none_before (c ∷ m) lo base asc h =
    let e : suc (length m) - 1 - length m ≡ 0 = omega arith in
    let first : base < c.rune_offset = leb-false→lt _ _ (
      unfold entry in
      subst (λ p. leb (entry (c ∷ m) p).rune_offset base ≡ false) e (h (length m) (omega arith))) in
    last_before_none origin base c.rune_offset (c ∷ m) (omega arith, asc.1) first

-- `lookup` interpolates from the last entry at or before the offset, or from the start of the text.
pub lookup-last_before :
    (m : List Correction) (lo r : ℕ)
    → IsAscending lo m
    → r < 2 ^ 32
    → lookup m r ≡ (interpolate (last_before origin (r - r % 100) m) (r - r % 100), r % 100)
unfolding lookup
lookup-last_before m lo r asc small =
    let base = r - r % 100 in
    let idx = search_index (length m) (at_or_before m base) in
    let (le, fails, holds) =
      search_index_lem (length m) (at_or_before m base) (at_or_before-IsMonotone m lo asc base) in
    let start : interpolate origin base ≡ base = omega arith in
    if_cases (λ (x : ℕ × ℕ). x ≡ (interpolate (last_before origin base m) base, r % 100))
      (length m == 0) _ _
      (λ e.
        let z : length m ≡ 0 = (==_iff _ _).0 e in
        rw (none_before m lo base asc (λ k l. absurd (omega arith)), start))
      (λ e.
        if_cases (λ (x : ℕ × ℕ). x ≡ (interpolate (last_before origin base m) base, r % 100))
          (ltb idx (length m)) _ _
          (λ l.
            let lt = ltb→lt _ _ l in
            rw (found m lo asc base idx lt (holds idx (omega arith) lt) fails))
          (λ l.
            let ge = ltb-false→le _ _ l in
            rw (none_before m lo base asc (λ k lt. fails k (omega arith)), start)))
