-- ===== src/Bits/Uvarint.antt =====
-- `binary.PutUvarint` and `binary.Uvarint` of Go's standard library, on lists of bytes, and their
-- round trip.
use zoekt.Prelude.{ℕ, zero, suc, ◌+◌, ◌*◌, ◌/◌, ◌%◌, ◌^◌, ◌<◌, ◌≤◌, ltb, ◌==◌, ◌&&◌, if◌then◌else◌}
use zoekt.Prelude.{List, [], ◌∷◌, ◌++◌, length, ◌≡◌, ap, subst, arith}
use native.Mathlib.Nat.{div-add-mod}
use native.Mathlib.Numerals.{towards_suc}

-- The bytes that `PutUvarint` writes. A uint64 takes ten at most: nine rounds of the loop.
unfoldable pub put_rounds : ℕ → ℕ → List ℕ
put_rounds zero x = (x % 256) ∷ []
put_rounds (suc n) x =
    let rest = put_rounds n (x / 128) in if ltb x 128 then x ∷ [] else (x % 128 + 128) ∷ rest

unfoldable pub put_uvarint : ℕ → List ℕ
unfolding put_rounds
put_uvarint x = put_rounds 9 x

-- What `Uvarint` answers: a value with the bytes behind it, n = 0 (the buffer ends inside the
-- number) or n < 0 (the number does not fit 64 bits).
pub data Read : Type 0 where
  read : ℕ → List ℕ → Read
  short : Read
  overflow : Read

-- The loop of `Uvarint`. The bits of `x` lie below `s`, so `x | b << s` is their sum.
unfoldable pub uvarint_loop : List ℕ → ℕ → ℕ → ℕ → Read
uvarint_loop [] i x s = short
uvarint_loop (b ∷ rest) i x s =
    let more = uvarint_loop rest (i + 1) (x + b % 128 * 2 ^ s % 2 ^ 64) (s + 7) in
    if i == 10
    then overflow
    else if ltb b 128
    then if i == 9 && ltb 1 b then overflow else read (x + b * 2 ^ s % 2 ^ 64) rest
    else more

unfoldable pub uvarint : List ℕ → Read
unfolding uvarint_loop
uvarint buf = uvarint_loop buf 0 0 0

-- One round on a last byte and on an inner byte; the tenth byte is 0 or 1.
tenth_byte : (w i s : ℕ) → s ≡ 7 * i → i ≡ 9 → w * 2 ^ s < 2 ^ 64 → w ≤ 1
tenth_byte w i s hs hi fits =
    let e : s ≡ 63 = omega arith in
    let fits' : w * 2 ^ 63 < 2 ^ 64 = subst (λ t. w * 2 ^ t < 2 ^ 64) e fits in omega arith

last_byte :
    (w i x s : ℕ) (rest : List ℕ)
    → w < 128
    → s ≡ 7 * i
    → i ≤ 9
    → w * 2 ^ s < 2 ^ 64
    → uvarint_loop (w ∷ rest) i x s ≡ read (x + w * 2 ^ s) rest
unfolding uvarint_loop
last_byte w i x s rest hw hs hi fits = ground (arith, tenth_byte w i s)

inner_byte :
    (g i x s : ℕ) (rest : List ℕ)
    → g < 128
    → i < 10
    → g * 2 ^ s < 2 ^ 64
    → uvarint_loop ((g + 128) ∷ rest) i x s ≡ uvarint_loop rest (i + 1) (x + g * 2 ^ s) (s + 7)
unfolding uvarint_loop
inner_byte g i x s rest hg hi fits = let e : (g + 128) % 128 ≡ g = omega arith in ground (arith, e)

-- The value splits into its lowest group and the rest, seven bits further up.
group_sum : (v s : ℕ) → v * 2 ^ s ≡ v % 128 * 2 ^ s + v / 128 * 2 ^ (s + 7)
group_sum v s =
    let up : 2 ^ (s + 7) ≡ 128 * 2 ^ s = simp towards_suc (omega arith) in
    omega (arith, ap (λ (t : ℕ). t * 2 ^ s) (div-add-mod v 128), ap (λ (t : ℕ). v / 128 * t) up)

uvarint_loop-put_rounds :
    (n v i x s : ℕ) (rest : List ℕ)
    → v < 128 ^ suc n
    → s ≡ 7 * i
    → i + n ≤ 9
    → v * 2 ^ s < 2 ^ 64
    → uvarint_loop (put_rounds n v ++ rest) i x s ≡ read (x + v * 2 ^ s) rest
unfolding put_rounds
uvarint_loop-put_rounds zero v i x s rest hv hs hi fits =
    let e : v % 256 ≡ v = omega arith in
    rw e (last_byte v i x s rest (omega arith) hs (omega arith) fits)
uvarint_loop-put_rounds (suc n) v i x s rest hv hs hi fits = ground (
  arith,
  last_byte v i x s rest,
  group_sum v s,
  inner_byte (v % 128) i x s (put_rounds n (v / 128) ++ rest),
  uvarint_loop-put_rounds n (v / 128) (i + 1) (x + v % 128 * 2 ^ s) (s + 7) rest (omega arith),
)

-- `Uvarint` reads back a uint64 that `PutUvarint` wrote, and leaves what follows it.
pub uvarint-put_uvarint :
    (v : ℕ) (rest : List ℕ) → v < 2 ^ 64 → uvarint (put_uvarint v ++ rest) ≡ read v rest
unfolding uvarint put_uvarint
uvarint-put_uvarint v rest h = ground (arith, uvarint_loop-put_rounds 9 v 0 0 0 rest (omega arith))

put_rounds-length : (n v : ℕ) → 1 ≤ length (put_rounds n v)
unfolding put_rounds
put_rounds-length zero v = omega arith
put_rounds-length (suc n) v = ground arith

pub length-put_uvarint : (v : ℕ) → 1 ≤ length (put_uvarint v)
unfolding put_uvarint
length-put_uvarint v = put_rounds-length 9 v

-- A read takes a byte at least.
read_takes :
    (buf : List ℕ) (i x s v : ℕ) (rest : List ℕ)
    → uvarint_loop buf i x s ≡ read v rest
    → length rest < length buf
unfolding uvarint_loop
read_takes [] i x s v rest e = cc
read_takes (b ∷ buf) i x s v rest e =
    ground (arith, read_takes buf (i + 1) (x + b % 128 * 2 ^ s % 2 ^ 64) (s + 7) v rest)

pub uvarint_takes :
    (buf : List ℕ) (v : ℕ) (rest : List ℕ) → uvarint buf ≡ read v rest → length rest < length buf
unfolding uvarint
uvarint_takes buf v rest e = read_takes buf 0 0 0 v rest e
