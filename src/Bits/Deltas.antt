-- ===== src/Bits/Deltas.antt =====
-- The delta coding of offset lists in index/bits.go: `toSizedDeltas`, `fromSizedDeltas`,
-- `toSizedDeltas16`, `fromSizedDeltas16`, `fromDeltas`, `marshalDocSections` and
-- `unmarshalDocSections`. Offsets are numbers below the modulus `m` of their type, 2 ^ 32 or 2 ^
-- 16. Slices are reused for their capacity only, which is not modelled, nor is the memory that the
-- decoders reserve for the size they read.
pub mod RoundTrip
pub mod Broken
use zoekt.Prelude.{ℕ, zero, suc, ◌+◌, ◌-◌, ◌%◌, ◌^◌, ltb, leb, if◌then◌else◌}
use zoekt.Prelude.{List, [], ◌∷◌, ◌++◌, length}
use zoekt.Outcome.{Outcome, ok, panic, diverges, ◌>>=◌}
use zoekt.Bits.Uvarint.{Read, read, short, overflow, put_uvarint, uvarint}

-- `PutUvarint` into the 8 bytes of `enc`; a longer number is a write out of range.
unfoldable pub put_enc : ℕ → Outcome (List ℕ)
put_enc x = let bytes = put_uvarint x in if leb (length bytes) 8 then ok bytes else panic

unfoldable pub to_deltas : ℕ → ℕ → List ℕ → Outcome (List ℕ)
to_deltas m last [] = ok []
to_deltas m last (p ∷ ps) = do
  bytes ← put_enc ((p + m - last) % m)
  more ← to_deltas m p ps
  ok (bytes ++ more)

unfoldable pub to_sized : ℕ → List ℕ → Outcome (List ℕ)
unfolding put_enc to_deltas
to_sized m offsets = do
  size ← put_enc (length offsets)
  deltas ← to_deltas m 0 offsets
  ok (size ++ deltas)

-- One round of the decoders' loop, with what `Uvarint` answered. Where that is n = 0 the data stays
-- as it is, and the loop goes on for ever; where n < 0 the slice expression panics.
unfoldable pub decode_round : ℕ → ℕ → (List ℕ → ℕ → Outcome (List ℕ)) → Read → Outcome (List ℕ)
decode_round m last next short = diverges
decode_round m last next overflow = panic
decode_round m last next (read delta rest) = do
  let offset = (last + delta % m) % m
  ps ← next rest offset
  ok (offset ∷ ps)

-- The loop. Each round that goes on takes a byte, so the length of the data is enough fuel.
unfoldable pub from_deltas_loop : ℕ → ℕ → List ℕ → ℕ → Outcome (List ℕ)
unfolding decode_round
from_deltas_loop m fuel [] last = ok []
from_deltas_loop m zero (b ∷ bs) last = diverges
from_deltas_loop m (suc fuel) (b ∷ bs) last =
    decode_round m last (from_deltas_loop m fuel) (uvarint (b ∷ bs))

unfoldable pub from_deltas_mod : ℕ → List ℕ → Outcome (List ℕ)
unfolding from_deltas_loop
from_deltas_mod m bytes = from_deltas_loop m (length bytes) bytes 0

unfoldable pub from_sized : ℕ → List ℕ → Outcome (List ℕ)
unfolding from_deltas_mod
from_sized m bytes = elim (uvarint bytes) [
  | read size rest ↦ from_deltas_mod m rest
  | short ↦ from_deltas_mod m bytes
  | overflow ↦ panic
]

unfoldable pub to_sized_deltas : List ℕ → Outcome (List ℕ)
unfolding to_sized
to_sized_deltas = to_sized (2 ^ 32)

unfoldable pub from_sized_deltas : List ℕ → Outcome (List ℕ)
unfolding from_sized
from_sized_deltas = from_sized (2 ^ 32)

unfoldable pub to_sized_deltas16 : List ℕ → Outcome (List ℕ)
unfolding to_sized
to_sized_deltas16 = to_sized (2 ^ 16)

unfoldable pub from_sized_deltas16 : List ℕ → Outcome (List ℕ)
unfolding from_sized
from_sized_deltas16 = from_sized (2 ^ 16)

unfoldable pub from_deltas : List ℕ → Outcome (List ℕ)
unfolding from_deltas_mod
from_deltas = from_deltas_mod (2 ^ 32)
