-- ===== src/MatchTree/NgramDoc/FileIndex.antt =====
-- `nextFileIndex` finds the first document that ends behind an offset.
use zoekt.Prelude.{
  ℕ, zero, suc, ◌+◌, ◌*◌, ◌/◌, ◌%◌, ◌^◌, ◌<◌, ◌≤◌, true, false, Bool-cases, inl, inr,
}
use zoekt.Prelude.{List, length, ◌≡◌, refl, arith, lt→ltb, le→ltb_false}
use native.Mathlib.Decide.{dec_lt}
use zoekt.Outcome.{ok}
use zoekt.MatchTree.NgramDoc.{end_at, ends_before, next_file_loop, next_file_index}

-- Documents do not end before the ones in front of them.
abbrev pub IsAscending : List ℕ → Type 0
IsAscending ends = (i j : ℕ) → i ≤ j → j < length ends → end_at ends i ≤ end_at ends j

-- The first document from `f` on that ends behind the offset; all in front of `f` do not.
pub record IsFirst (ends : List ℕ) (offset f j : ℕ) : Type 0 where
  pub forward : f ≤ j
  pub within : f ≤ length ends → j ≤ length ends
  pub before : (i : ℕ) → f ≤ i → i < j → end_at ends i ≤ offset
  pub behind : j < length ends → offset < end_at ends j

before_cases :
    (ends : List ℕ) (offset f : ℕ)
    → ends_before ends offset f ≡ true
    → (f < length ends) × (end_at ends f ≤ offset)
before_cases ends offset f h = ground arith

behind_cases :
    (ends : List ℕ) (offset f : ℕ)
    → ends_before ends offset f ≡ false
    → f < length ends
    → offset < end_at ends f
behind_cases ends offset f h k = ground arith

module _ (ends : List ℕ) (offset : ℕ) (asc : IsAscending ends) (few : length ends < 2 ^ 30) where
  here : (f : ℕ) → (f < length ends → offset < end_at ends f) → IsFirst ends offset f f
  here f h = record {
    forward = omega arith;
    within = λ k. k;
    before = λ i p q. absurd (omega arith);
    behind = h;
  }

  -- From a document that ends before the offset the search may go on further up.
  further :
      (f g j : ℕ)
      → f ≤ g
      → f < length ends
      → end_at ends g ≤ offset
      → g < length ends
      → IsFirst ends offset g j
      → IsFirst ends offset f j
  further f g j h k le lt first =
      let up = first.forward in
      record {
        forward = omega arith;
        within = λ x. first.within (omega arith);
        before = λ i p q. elim (dec_lt i g) [
          | yes below ↦ let m = asc i g (omega arith) lt in omega arith
          | no above ↦ first.before i (omega arith) q
        ];
        behind = first.behind;
      }

  step :
      (f j : ℕ)
      → end_at ends f ≤ offset
      → f < length ends
      → IsFirst ends offset (f + 1) j
      → IsFirst ends offset f j
  step f j le lt first =
      let up = first.forward in
      record {
        forward = omega arith;
        within = λ x. first.within (omega arith);
        before = λ i p q. elim (dec_lt f i) [
          | yes above ↦ first.before i (omega arith) q
          | no same ↦ let m = asc i f (omega arith) lt in omega arith
        ];
        behind = first.behind;
      }

  next_file_loop_lem :
      (move shrink f d : ℕ)
      → 0 < move
      → length ends < f + move
      → d < shrink
      → 0 < d
      → d < 2 ^ 31
      → (j : ℕ) × (next_file_loop move shrink ends offset f d ≡ ok j) × IsFirst ends offset f j
  unfolding next_file_loop
  next_file_loop_lem zero shrink f d m a b c e = absurd (omega arith)
  next_file_loop_lem (suc move) zero f d m a b c e = absurd (omega arith)
  next_file_loop_lem (suc move) (suc shrink) f d m a b c e =
      elim (Bool-cases (ends_before ends offset f)) [
        | inr stop ↦ (f, rw stop refl, here f (behind_cases ends offset f stop))
        | inl on ↦
            let (lt, le) = before_cases ends offset f on in
            let far : (f + d) % 2 ^ 32 ≡ f + d = omega arith in
            let twice : d * 2 % 2 ^ 32 ≡ d * 2 = omega arith in
            elim (Bool-cases (ends_before ends offset ((f + d) % 2 ^ 32))) [
              | inl jump ↦
                  let (lt', le') = before_cases ends offset ((f + d) % 2 ^ 32) jump in
                  let (j, p, first) =
                    next_file_loop_lem move (suc (d * 2 % 2 ^ 32)) ((f + d) % 2 ^ 32)
                      (d * 2 % 2 ^ 32) (omega arith) (omega arith) (omega arith) (omega arith)
                      (omega arith) in
                  (
                    j,
                    rw (on, jump) p,
                    further f ((f + d) % 2 ^ 32) j (omega arith) (omega arith) le' lt' first,
                  )
              | inr near ↦ elim (dec_lt 1 d) [
                | yes more ↦
                    let (j, p, first) =
                      next_file_loop_lem (suc move) shrink f (d / 4 + 1) (omega arith) (omega arith)
                        (omega arith) (omega arith) (omega arith) in
                    (j, rw (on, near, lt→ltb 1 d more) p, first)
                | no one ↦
                    let (j, p, first) =
                      next_file_loop_lem move (suc d) (f + 1) d (omega arith) (omega arith)
                        (omega arith) c e in
                    (j, rw (on, near, le→ltb_false 1 d (omega arith)) p, step f j le lt first)
              ]
            ]
      ]

-- `nextFileIndex` returns, for documents in ascending order, fewer than 2 ^ 30 of them: the result
-- is the first document from `f` on that ends behind the offset, or their number; the steps, which
-- double and shrink, leave none out.
pub next_file_index_lem :
    (offset f : ℕ) (ends : List ℕ)
    → IsAscending ends
    → length ends < 2 ^ 30
    → (j : ℕ) × (next_file_index offset f ends ≡ ok j) × IsFirst ends offset f j
unfolding next_file_index
next_file_index_lem offset f ends asc few =
    next_file_loop_lem ends offset asc few (suc (length ends)) 2 f 1 (omega arith) (omega arith)
      (omega arith) (omega arith) (omega arith)
