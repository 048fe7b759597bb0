-- ===== src/Bits/Sections/RoundTrip.antt =====
-- `unmarshalDocSections` reads back what `marshalDocSections` wrote.
use zoekt.Prelude.{
  ℕ, zero, suc, ◌+◌, ◌-◌, ◌%◌, ◌^◌, ◌<◌, ◌≤◌, ◌*◌, List, [], ◌∷◌, ◌++◌, length, All,
}
use zoekt.Prelude.{length-append, ◌≡◌, refl, ◌∙◌, arith}
use zoekt.Outcome.{ok, ◌>>=◌}
use zoekt.Bits.Uvarint.{read, put_uvarint, uvarint, uvarint-put_uvarint}
use zoekt.Bits.Uvarint.{length-put_uvarint}
use zoekt.Bits.Deltas.RoundTrip.{delta_bytes, delta_sum, delta-fits, to_sized-bytes}
use zoekt.Bits.Sections.{
  DocumentSection, section_ints, marshal_doc_sections, add_delta, section_end,
}
use zoekt.Bits.Sections.{sections_loop, unmarshal_doc_sections}

-- Both offsets fit 32 bits.
abbrev pub IsU32 : DocumentSection → Type 0
IsU32 s = (s.start < 2 ^ 32) × (s.end < 2 ^ 32)

-- The delta of two uint32 values, and its first byte in front of the rest.
abbrev delta : ℕ → ℕ → ℕ
delta p last = (p + 2 ^ 32 - last) % 2 ^ 32

uvarint-delta :
    (p last : ℕ) (rest : List ℕ)
    → uvarint (put_uvarint (delta p last) ++ rest) ≡ read (delta p last) rest
uvarint-delta p last rest =
    uvarint-put_uvarint (delta p last) rest
      (omega (arith, delta-fits (2 ^ 32) (omega arith) (omega arith) p last))

sections_loop_read :
    (fuel last d : ℕ) (bytes rest : List ℕ)
    → uvarint bytes ≡ read d rest
    → sections_loop (suc fuel) bytes last
      ≡ section_end (add_delta last d) (sections_loop fuel) rest (uvarint rest)
unfolding sections_loop
sections_loop_read fuel last d [] rest e = unfold uvarint in cc
sections_loop_read fuel last d (b ∷ bs) rest e = rw e

sections_loop-bytes :
    (secs : List DocumentSection) (fuel last : ℕ)
    → All IsU32 secs
    → last < 2 ^ 32
    → length (delta_bytes (2 ^ 32) last (section_ints secs)) ≤ fuel
    → sections_loop fuel (delta_bytes (2 ^ 32) last (section_ints secs)) last ≡ ok secs
unfolding section_ints section_end
sections_loop-bytes [] fuel last h hl k = unfold sections_loop in refl
sections_loop-bytes (s ∷ secs) zero last h hl k = absurd (
    omega (
      arith,
      length-append {0} (put_uvarint (delta s.start last))
          (delta_bytes (2 ^ 32) s.start (s.end ∷ section_ints secs)),
      length-put_uvarint (delta s.start last),
    ))
sections_loop-bytes (s ∷ secs) (suc fuel) last h hl k =
    let last_bytes = delta_bytes (2 ^ 32) s.end (section_ints secs) in
    let more = put_uvarint (delta s.end s.start) ++ last_bytes in
    let shorter : length last_bytes ≤ fuel = omega (
      arith,
      length-append {0} (put_uvarint (delta s.start last)) more,
      length-append {0} (put_uvarint (delta s.end s.start)) last_bytes,
      length-put_uvarint (delta s.start last),
    ) in
    sections_loop_read fuel last _ _ more (uvarint-delta s.start last more)
    ∙ rw (delta_sum (2 ^ 32) s.start last h.0.0 hl, uvarint-delta s.end s.start last_bytes)
        (rw (
          delta_sum (2 ^ 32) s.end s.start h.0.1 h.0.0,
          sections_loop-bytes secs fuel s.end h.1 h.0.1 shorter,
        ))

length-section_ints : (secs : List DocumentSection) → length (section_ints secs) ≡ 2 * length secs
unfolding section_ints
length-section_ints [] = omega arith
length-section_ints (s ∷ secs) = omega (arith, length-section_ints secs)

-- `unmarshalDocSections` gives back the sections that `marshalDocSections` was given, if their
-- offsets fit 32 bits and there are fewer than 2 ^ 55 of them.
pub unmarshal-marshal_doc_sections :
    (secs : List DocumentSection)
    → All IsU32 secs
    → length secs < 2 ^ 55
    → (marshal_doc_sections secs >>= unmarshal_doc_sections) ≡ ok secs
unfolding marshal_doc_sections unmarshal_doc_sections
unmarshal-marshal_doc_sections secs h k =
    let ints = section_ints secs in
    let few : length ints < 2 ^ 56 = omega (arith, length-section_ints secs) in
    rw
      (
        to_sized-bytes (2 ^ 32) (omega arith) (omega arith) ints few,
        uvarint-put_uvarint (length ints) (delta_bytes (2 ^ 32) 0 ints) (omega arith),
      )
      (sections_loop-bytes secs _ 0 h (omega arith) (omega arith))
