-- ===== src/Bits/Deltas/Broken.antt =====
-- The decoding loop (index/bits.go) on data that ends inside a number, and its fuel.
use zoekt.Prelude.{
  ◌==◌, subst, ℕ, zero, suc, ◌+◌, ◌*◌, ◌%◌, ◌^◌, ◌≤◌, ◌<◌, ltb, Bool-cases, inl, inr,
}
use zoekt.Prelude.{List, [], ◌∷◌, length, ◌≡◌, sym, ◌≢◌, refl, ap, arith}
use zoekt.Outcome.{ok, ◌>>=◌, >>=-ok}
use zoekt.Bits.Uvarint.{Read, read, short, overflow, uvarint_loop, uvarint, uvarint_takes}
use zoekt.Bits.Deltas.{decode_round, from_deltas_loop, from_deltas}

-- The data is not empty, and its last byte announces another one.
abbrev pub IsCut : List ℕ → Type 0
IsCut [] = ⊥
IsCut (b ∷ []) = 128 ≤ b
IsCut (b ∷ c ∷ bytes) = IsCut (c ∷ bytes)

-- What is read from such data leaves such data.
uvarint_loop-IsCut :
    (bytes : List ℕ) (i x s v : ℕ) (rest : List ℕ)
    → IsCut bytes
    → uvarint_loop bytes i x s ≡ read v rest
    → IsCut rest
unfolding uvarint_loop
uvarint_loop-IsCut [] i x s v rest h e = absurd h
uvarint_loop-IsCut (b ∷ []) i x s v rest h e = absurd (ground arith)
uvarint_loop-IsCut (b ∷ c ∷ bytes) i x s v rest h e = elim (Bool-cases (i == 10)) [
  | inl ten ↦ absurd (ground arith)
  | inr less ↦ elim (Bool-cases (ltb b 128)) [
    | inl last ↦ let e' : c ∷ bytes ≡ rest = ground arith in subst IsCut e' h
    | inr more ↦
        uvarint_loop-IsCut (c ∷ bytes) (i + 1) (x + b % 128 * 2 ^ s % 2 ^ 64) (s + 7) v rest h
          (ground arith)
  ]
]

uvarint-IsCut :
    (bytes : List ℕ) (v : ℕ) (rest : List ℕ)
    → IsCut bytes
    → uvarint bytes ≡ read v rest
    → IsCut rest
unfolding uvarint
uvarint-IsCut bytes v rest h e = uvarint_loop-IsCut bytes 0 0 0 v rest h e

from_deltas_loop-IsCut :
    (m fuel : ℕ) (bytes : List ℕ) (last : ℕ) (ps : List ℕ)
    → IsCut bytes
    → from_deltas_loop m fuel bytes last ≢ ok ps
unfolding from_deltas_loop
from_deltas_loop-IsCut m fuel [] last ps h e = absurd h
from_deltas_loop-IsCut m zero (b ∷ bs) last ps h e = cc
from_deltas_loop-IsCut m (suc fuel) (b ∷ bs) last ps h e =
    round (uvarint (b ∷ bs)) (λ v rest r. uvarint-IsCut (b ∷ bs) v rest h r)
      (λ rest offset qs c. from_deltas_loop-IsCut m fuel rest offset qs c) e
  where
    round :
        (r : Read)
        → ((v : ℕ) (rest : List ℕ) → r ≡ read v rest → IsCut rest)
        → ((rest : List ℕ) (offset : ℕ) (qs : List ℕ)
            → IsCut rest
            → from_deltas_loop m fuel rest offset ≢ ok qs)
        → decode_round m last (from_deltas_loop m fuel) r ≢ ok ps
    round short cut ih e' = cc
    round overflow cut ih e' = cc
    round (read v rest) cut ih e' =
        let (qs, _, e'') = >>=-ok _ (from_deltas_loop m fuel rest _) (sym e') in
        ih rest _ qs (cut v rest refl) e''

-- Data that ends inside a number is never decoded: `fromDeltas` panics or does not return, whatever
-- stands in front.
pub from_deltas_cut : (bytes ps : List ℕ) → IsCut bytes → from_deltas bytes ≢ ok ps
unfolding from_deltas
from_deltas_cut bytes ps h = from_deltas_loop-IsCut (2 ^ 32) (length bytes) bytes 0 ps h

-- More fuel than there is data changes nothing, so `diverges` stands for no lack of fuel.
pub from_deltas_loop-fuel :
    (m fuel : ℕ) (bytes : List ℕ) (last : ℕ)
    → length bytes ≤ fuel
    → from_deltas_loop m fuel bytes last ≡ from_deltas_loop m (suc fuel) bytes last
unfolding from_deltas_loop
from_deltas_loop-fuel m fuel [] last h = refl
from_deltas_loop-fuel m zero (b ∷ bs) last h = absurd (omega arith)
from_deltas_loop-fuel m (suc fuel) (b ∷ bs) last h =
    round (uvarint (b ∷ bs)) (λ v rest r. uvarint_takes (b ∷ bs) v rest r)
      (λ rest offset k. from_deltas_loop-fuel m fuel rest offset k)
  where
    round :
        (r : Read)
        → ((v : ℕ) (rest : List ℕ) → r ≡ read v rest → length rest < length (b ∷ bs))
        → ((rest : List ℕ) (offset : ℕ)
            → length rest ≤ fuel
            → from_deltas_loop m fuel rest offset ≡ from_deltas_loop m (suc fuel) rest offset)
        → decode_round m last (from_deltas_loop m fuel) r
          ≡ decode_round m last (from_deltas_loop m (suc fuel)) r
    round short takes ih = refl
    round overflow takes ih = refl
    round (read v rest) takes ih =
        ap (λ o. o >>= λ ps. ok ((last + v % m) % m ∷ ps))
          (ih rest ((last + v % m) % m) (let t = takes v rest refl in omega arith))
