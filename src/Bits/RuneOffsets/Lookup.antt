-- ===== src/Bits/RuneOffsets/Lookup.antt =====
-- The entry that `lookup` interpolates from, found from the front of the map.
use zoekt.Prelude.{ℕ, zero, suc, ◌+◌, ◌≤◌, ◌<◌, leb, if◌then◌else◌, if_cases}
use zoekt.Prelude.{List, [], ◌∷◌, length}
use zoekt.Prelude.{◌≡◌, refl, arith, le→leb, leb→le}
use zoekt.Bits.RuneOffsets.{Correction}
use zoekt.Bits.RuneOffsets.{entry}

-- Ascending rune offsets, from `lo` on.
abbrev pub IsAscending : ℕ → List Correction → Type 0
IsAscending lo [] = Unit {0}
IsAscending lo (c ∷ m) = (lo ≤ c.rune_offset) × IsAscending (c.rune_offset + 1) m

entry-ge :
    (lo : ℕ) (m : List Correction) (k : ℕ)
    → IsAscending lo m
    → k < length m
    → lo ≤ (entry m k).rune_offset
unfolding entry
entry-ge lo [] k h l = absurd (omega arith)
entry-ge lo (c ∷ m) zero h l = h.0
entry-ge lo (c ∷ m) (suc k) h l =
    let r = entry-ge (c.rune_offset + 1) m k h.1 (omega arith) in let g = h.0 in omega arith

pub entry_mono :
    (lo : ℕ) (m : List Correction) (a b : ℕ)
    → IsAscending lo m
    → a ≤ b
    → b < length m
    → (entry m a).rune_offset ≤ (entry m b).rune_offset
unfolding entry
entry_mono lo [] a b h p l = absurd (omega arith)
entry_mono lo (c ∷ m) zero zero h p l = omega arith
entry_mono lo (c ∷ m) zero (suc b) h p l =
    let r = entry-ge (c.rune_offset + 1) m b h.1 (omega arith) in omega arith
entry_mono lo (c ∷ m) (suc a) zero h p l = absurd (omega arith)
entry_mono lo (c ∷ m) (suc a) (suc b) h p l =
    entry_mono (c.rune_offset + 1) m a b h.1 (omega arith) (omega arith)

-- The last entry at or before `base`, found from the front; `d` where there is none.
unfoldable pub last_before : Correction → ℕ → List Correction → Correction
last_before d base [] = d
last_before d base (c ∷ m) =
    let rest = last_before c base m in if leb c.rune_offset base then rest else d

pub last_before_none :
    (d : Correction) (base lo : ℕ) (m : List Correction)
    → IsAscending lo m
    → base < lo
    → last_before d base m ≡ d
unfolding last_before
last_before_none d base lo [] h l = refl
last_before_none d base lo (c ∷ m) h l =
    if_cases (λ x. x ≡ d) (leb c.rune_offset base) _ _
      (λ e. absurd (let g = leb→le _ _ e in let k = h.0 in omega arith)) (λ e. refl)

pub last_before_cons :
    (d c : Correction) (base : ℕ) (m : List Correction)
    → c.rune_offset ≤ base
    → last_before d base (c ∷ m) ≡ last_before c base m
unfolding last_before
last_before_cons d c base m h = rw (le→leb _ _ h)

-- The entry at `p` is the last one if the one behind it lies further on.
pub last_before-entry :
    (d : Correction) (base lo p : ℕ) (m : List Correction)
    → IsAscending lo m
    → p < length m
    → (entry m p).rune_offset ≤ base
    → (suc p < length m → base < (entry m (suc p)).rune_offset)
    → last_before d base m ≡ entry m p
unfolding last_before entry
last_before-entry d base lo p [] h l le next = absurd (omega arith)
last_before-entry d base lo zero (c ∷ []) h l le next = rw (le→leb _ _ le)
last_before-entry d base lo zero (c ∷ c' ∷ m) h l le next =
    rw (le→leb _ _ le)
      (last_before_none c base c'.rune_offset (c' ∷ m) (omega arith, h.1.1) (next (omega arith)))
last_before-entry d base lo (suc p) (c ∷ m) h l le next =
    let first : c.rune_offset ≤ base =
      let r = entry-ge (c.rune_offset + 1) m p h.1 (omega arith) in omega arith in
    rw (le→leb _ _ first) (
      last_before-entry c base (c.rune_offset + 1) p m h.1 (omega arith) le
        (λ k. next (omega arith)))
