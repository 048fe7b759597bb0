-- ===== src/Bits/Sections.antt =====
-- `marshalDocSections` and `unmarshalDocSections` of index/bits.go.
pub mod RoundTrip
use zoekt.Prelude.{ℕ, zero, suc, ◌+◌, ◌%◌, ◌^◌, ◌<◌, ◌≤◌, ◌*◌, List, [], ◌∷◌, ◌++◌, length, All}
use zoekt.Prelude.{length-append, append_assoc, ◌≡◌, refl, ap, ◌∙◌, arith}
use zoekt.Outcome.{Outcome, ok, panic, diverges, ◌>>=◌}
use zoekt.Bits.Uvarint.{Read, read, short, overflow, put_uvarint, uvarint, uvarint-put_uvarint}
use zoekt.Bits.Uvarint.{length-put_uvarint}
use zoekt.Bits.Deltas.{to_sized_deltas}

pub record DocumentSection : Type 0 where
  pub start : ℕ
  pub end : ℕ

unfoldable pub section_ints : List DocumentSection → List ℕ
section_ints [] = []
section_ints (s ∷ secs) = s.start ∷ s.end ∷ section_ints secs

unfoldable pub marshal_doc_sections : List DocumentSection → Outcome (List ℕ)
unfolding section_ints to_sized_deltas
marshal_doc_sections secs = to_sized_deltas (section_ints secs)

-- `last += uint32(delta)`
abbrev pub add_delta : ℕ → ℕ → ℕ
add_delta last delta = (last + delta % 2 ^ 32) % 2 ^ 32

-- The second number of a round and what follows it. At the end of the data `Uvarint` answers 0 and
-- the loop ends; inside a number it answers 0 for ever.
unfoldable pub section_end :
    ℕ
    → (List ℕ → ℕ → Outcome (List DocumentSection))
    → List ℕ
    → Read
    → Outcome (List DocumentSection)
section_end first next rest (read delta rest') = do
  let last = add_delta first delta
  ds ← next rest' last
  ok (record { start = first; end = last } ∷ ds)
section_end first next [] short = ok (record { start = first; end = first } ∷ [])
section_end first next (b ∷ bs) short = diverges
section_end first next rest overflow = panic

-- One round of the loop, with the answer to the first number.
unfoldable pub section_round :
    ℕ → (List ℕ → ℕ → Outcome (List DocumentSection)) → Read → Outcome (List DocumentSection)
unfolding section_end
section_round last next short = diverges
section_round last next overflow = panic
section_round last next (read delta rest) =
    section_end (add_delta last delta) next rest (uvarint rest)

-- The loop; the length of the data is enough fuel.
unfoldable pub sections_loop : ℕ → List ℕ → ℕ → Outcome (List DocumentSection)
unfolding section_round
sections_loop fuel [] last = ok []
sections_loop zero (b ∷ bs) last = diverges
sections_loop (suc fuel) (b ∷ bs) last = section_round last (sections_loop fuel) (uvarint (b ∷ bs))

unfoldable pub after_size : List ℕ → Read → Outcome (List DocumentSection)
unfolding sections_loop
after_size bytes (read size rest) = sections_loop (length rest) rest 0
after_size bytes short = sections_loop (length bytes) bytes 0
after_size bytes overflow = panic

unfoldable pub unmarshal_doc_sections : List ℕ → Outcome (List DocumentSection)
unfolding after_size
unmarshal_doc_sections bytes = after_size bytes (uvarint bytes)
