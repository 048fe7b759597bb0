-- ===== src/Lines/Offsets.antt =====
-- The lines that offsets lie on (index/contentprovider.go).
use zoekt.Prelude.{
  Bool, ℕ, zero, suc, ◌+◌, ◌^◌, ◌≤◌, ◌<◌, leb, le→leb, leb→le, leb-false→lt, if_false, lt→leb_false,
  true, false, length,
}
use zoekt.Prelude.{◌≡◌, sym, subst, ◌∙◌, arith}
use zoekt.Bits.RuneOffsets.{search_index}
use zoekt.Bits.RuneOffsets.Entry.{IsMonotone, search_index_lem}
use zoekt.MatchTree.NgramDoc.{end_at}
use zoekt.MatchTree.NgramDoc.FileIndex.{IsAscending}
use zoekt.Lines.{Newlines, at_offset, line_start}

-- The line ends of a file, in order and within the file, whose size fits 32 bits.
pub record IsFile (nls : Newlines) : Type 0 where
  pub ascending : IsAscending nls.locs
  pub within : (i : ℕ) → i < length nls.locs → end_at nls.locs i < nls.file_size
  pub fits : nls.file_size < 2 ^ 32

-- Whether a line end lies at an offset or behind it.
abbrev ends_from : Newlines → ℕ → ℕ → Bool
ends_from nls offset n = leb offset (end_at nls.locs n)

ends_from-IsMonotone :
    (nls : Newlines) (offset : ℕ) → IsFile nls → IsMonotone (length nls.locs) (ends_from nls offset)
ends_from-IsMonotone nls offset h =
    λ a b p l t. le→leb _ _ (let up = h.ascending a b p l in let at = leb→le _ _ t in omega arith)

pub line_start_behind :
    (nls : Newlines) (i : ℕ)
    → IsFile nls
    → i < length nls.locs
    → line_start nls (suc (suc i)) ≡ end_at nls.locs i + 1
unfolding line_start
line_start_behind nls i h l =
    if_false (leb (length nls.locs) i) nls.file_size _ (lt→leb_false _ _ l)
    ∙ (let w = h.within i l in let f = h.fits in omega arith)

-- The line with as many line ends in front of it, if all of these are in front of the offset.
starts_before :
    (nls : Newlines) (offset i : ℕ)
    → IsFile nls
    → i ≤ length nls.locs
    → ((k : ℕ) → k < i → ends_from nls offset k ≡ false)
    → line_start nls (suc i) ≤ offset
unfolding line_start
starts_before nls offset zero h l before = omega arith
starts_before nls offset (suc i) h l before =
    subst (λ x. x ≤ offset) (sym (line_start_behind nls i h (omega arith)))
      (let b = leb-false→lt _ _ (before i (omega arith)) in omega arith)

ends_behind :
    (nls : Newlines) (offset i : ℕ)
    → IsFile nls
    → i < length nls.locs
    → ends_from nls offset i ≡ true
    → offset < line_start nls (suc (suc i))
ends_behind nls offset i h l behind =
    subst (λ x. offset < x) (sym (line_start_behind nls i h l))
      (let b = leb→le _ _ behind in omega arith)

-- The line that `atOffset` gives for an offset exists, starts at the offset or in front of it, and
-- is the last one or the next one starts behind the offset. The line ends are in order and within
-- the file, whose size fits 32 bits.
pub at_offset-line_start :
    (nls : Newlines) (offset : ℕ)
    → IsFile nls
    → (1 ≤ at_offset nls offset)
      × (at_offset nls offset ≤ length nls.locs + 1)
      × (line_start nls (at_offset nls offset) ≤ offset)
      × (at_offset nls offset ≤ length nls.locs
          → offset < line_start nls (suc (at_offset nls offset)))
unfolding at_offset
at_offset-line_start nls offset h =
    let idx = search_index (length nls.locs) (ends_from nls offset) in
    let (low, fails, holds) =
      search_index_lem (length nls.locs) (ends_from nls offset)
        (ends_from-IsMonotone nls offset h) in
    let next : suc idx ≡ idx + 1 = omega arith in
    (
      omega arith,
      omega arith,
      subst (λ l. line_start nls l ≤ offset) next (starts_before nls offset idx h low fails),
      λ inside.
          subst (λ l. offset < line_start nls (suc l)) next
            (ends_behind nls offset idx h (omega arith) (holds idx (omega arith) (omega arith))),
    )
