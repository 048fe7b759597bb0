-- ===== src/Bits/Deltas/RoundTrip.antt =====
-- The decoders read back what the encoders wrote.
use zoekt.Prelude.{ℕ, zero, suc, ◌+◌, ◌-◌, ◌/◌, ◌%◌, ◌^◌, ◌<◌, ◌≤◌, le→leb}
use zoekt.Prelude.{List, [], ◌∷◌, ◌++◌, length, length-append, All, ◌≡◌, refl, ◌∙◌, arith}
use native.Mathlib.Nat.{mod-lt, mod-eq_of_lt, mod-eq-sub-mod}
use native.Mathlib.Decide.{dec_lt}
use zoekt.Outcome.{ok, ◌>>=◌}
use zoekt.Bits.Uvarint.{read, put_uvarint, put_rounds, uvarint, uvarint-put_uvarint}
use zoekt.Bits.Uvarint.{length-put_uvarint}
use zoekt.Bits.Deltas.{
  put_enc, to_deltas, to_sized, from_deltas_loop, from_deltas_mod, from_sized, to_sized_deltas,
  from_sized_deltas, to_sized_deltas16, from_sized_deltas16,
}

length-put_rounds : (n k v : ℕ) → v < 128 ^ suc k → length (put_rounds n v) ≤ suc k
unfolding put_rounds
length-put_rounds zero k v h = omega arith
length-put_rounds (suc n) zero v h = ground arith
length-put_rounds (suc n) (suc k) v h =
    ground (arith, length-put_rounds n k (v / 128) (omega arith))

-- A number below 2 ^ 56 fits the 8 bytes of `enc`.
put_enc-fits : (x : ℕ) → x < 2 ^ 56 → put_enc x ≡ ok (put_uvarint x)
unfolding put_enc put_uvarint
put_enc-fits x h = rw (le→leb _ _ (length-put_rounds 9 7 x (omega arith)))

-- What the encoder of one list writes.
abbrev pub delta_bytes : ℕ → ℕ → List ℕ → List ℕ
delta_bytes m last [] = []
delta_bytes m last (p ∷ ps) = put_uvarint ((p + m - last) % m) ++ delta_bytes m p ps

mod_once : (x m : ℕ) → m ≤ x → x < m + m → x % m ≡ x - m
mod_once x m h k = grind (arith, mod-eq-sub-mod, mod-eq_of_lt)

-- Adding the difference to the last offset gives the next, whatever their order.
pub delta_sum : (m p last : ℕ) → p < m → last < m → (last + (p + m - last) % m % m) % m ≡ p
delta_sum m p last hp hl = elim (dec_lt p last) [
  | yes less ↦
      let d : (p + m - last) % m ≡ p + m - last = mod-eq_of_lt (omega arith) in
      rw (d, d) (mod_once (last + (p + m - last)) m (omega arith) (omega arith) ∙ omega arith)
  | no more ↦
      let d : (p + m - last) % m ≡ p - last =
        mod_once (p + m - last) m (omega arith) (omega arith) ∙ omega arith in
      let d' : (p - last) % m ≡ p - last = mod-eq_of_lt (omega arith) in
      let e : last + (p - last) ≡ p = omega arith in rw (d, d', e) (mod-eq_of_lt hp)
]

-- One turn of the decoding loop that reads a number.
from_deltas_loop_read :
    (m fuel last d : ℕ) (bytes rest : List ℕ)
    → uvarint bytes ≡ read d rest
    → from_deltas_loop m (suc fuel) bytes last
      ≡ (from_deltas_loop m fuel rest ((last + d % m) % m) >>= λ ps. ok ((last + d % m) % m ∷ ps))
unfolding from_deltas_loop
from_deltas_loop_read m fuel last d [] rest e = unfold uvarint in cc
from_deltas_loop_read m fuel last d (b ∷ bs) rest e = rw e

module _ (m : ℕ) (pos : 0 < m) (bound : m ≤ 2 ^ 32) where
  pub delta-fits : (p last : ℕ) → (p + m - last) % m < 2 ^ 32
  delta-fits p last = grind (arith, mod-lt)

  to_deltas-bytes : (ps : List ℕ) (last : ℕ) → to_deltas m last ps ≡ ok (delta_bytes m last ps)
  unfolding to_deltas
  to_deltas-bytes [] last = refl
  to_deltas-bytes (p ∷ ps) last =
      let fits : (p + m - last) % m < 2 ^ 56 = omega (arith, delta-fits p last) in
      rw (put_enc-fits _ fits, to_deltas-bytes ps p)

  pub to_sized-bytes :
      (ps : List ℕ)
      → length ps < 2 ^ 56
      → to_sized m ps ≡ ok (put_uvarint (length ps) ++ delta_bytes m 0 ps)
  unfolding to_sized
  to_sized-bytes ps k = rw (put_enc-fits _ k, to_deltas-bytes ps 0)

  from_deltas_loop-bytes :
      (ps : List ℕ) (fuel last : ℕ)
      → All (λ p. p < m) ps
      → last < m
      → length (delta_bytes m last ps) ≤ fuel
      → from_deltas_loop m fuel (delta_bytes m last ps) last ≡ ok ps
  from_deltas_loop-bytes [] fuel last h hl k = unfold from_deltas_loop in refl
  from_deltas_loop-bytes (p ∷ ps) zero last h hl k = absurd (
      omega (
        arith,
        length-append {0} (put_uvarint ((p + m - last) % m)) (delta_bytes m p ps),
        length-put_uvarint ((p + m - last) % m),
      ))
  from_deltas_loop-bytes (p ∷ ps) (suc fuel) last h hl k =
      let d = (p + m - last) % m in
      let more = delta_bytes m p ps in
      let shorter : length more ≤ fuel =
        omega (arith, length-append {0} (put_uvarint d) more, length-put_uvarint d) in
      let reads : uvarint (put_uvarint d ++ more) ≡ read d more =
        uvarint-put_uvarint d more (omega (arith, delta-fits p last)) in
      from_deltas_loop_read m fuel last d _ more reads
      ∙ rw (delta_sum m p last h.0 hl, from_deltas_loop-bytes ps fuel p h.1 h.0 shorter)

  pub from_sized-to_sized :
      (ps : List ℕ)
      → All (λ p. p < m) ps
      → length ps < 2 ^ 56
      → (to_sized m ps >>= from_sized m) ≡ ok ps
  from_sized-to_sized ps h k = rw (to_sized-bytes ps k) from
    where
      from : from_sized m (put_uvarint (length ps) ++ delta_bytes m 0 ps) ≡ ok ps
      from =
          unfold from_sized in
          rw (uvarint-put_uvarint (length ps) (delta_bytes m 0 ps) (omega arith), from_sized)
            (unfold from_deltas_mod in from_deltas_loop-bytes ps _ 0 h pos (omega arith))

-- `fromSizedDeltas` gives back the offsets that `toSizedDeltas` was given, in any order, if they
-- fit 32 bits and there are fewer than 2 ^ 56 of them.
pub from_sized_deltas-to_sized_deltas :
    (ps : List ℕ)
    → All (λ p. p < 2 ^ 32) ps
    → length ps < 2 ^ 56
    → (to_sized_deltas ps >>= from_sized_deltas) ≡ ok ps
unfolding to_sized_deltas from_sized_deltas
from_sized_deltas-to_sized_deltas ps h k =
    from_sized-to_sized (2 ^ 32) (omega arith) (omega arith) ps h k

-- `fromSizedDeltas16` gives back the offsets that `toSizedDeltas16` was given, if they fit 16 bits
-- and there are fewer than 2 ^ 56 of them.
pub from_sized_deltas16-to_sized_deltas16 :
    (ps : List ℕ)
    → All (λ p. p < 2 ^ 16) ps
    → length ps < 2 ^ 56
    → (to_sized_deltas16 ps >>= from_sized_deltas16) ≡ ok ps
unfolding to_sized_deltas16 from_sized_deltas16
from_sized_deltas16-to_sized_deltas16 ps h k =
    from_sized-to_sized (2 ^ 16) (omega arith) (omega arith) ps h k
