-- ===== src/Bits/Examples.antt =====
-- Runs of the codings, and the theorems at concrete inputs.
use zoekt.Prelude.{◌%◌, ◌^◌, ◌<◌, List, [], ◌∷◌, ◌++◌, ◌≡◌, ◌≢◌, ◌↔◌, refl, arith}
use zoekt.Outcome.{ok, diverges, ◌>>=◌}
use zoekt.Bits.Uvarint.{read, put_uvarint, uvarint, uvarint-put_uvarint}
use zoekt.Bits.Deltas.{to_sized_deltas, from_sized_deltas, to_sized_deltas16, from_sized_deltas16}
use zoekt.Bits.Deltas.{from_deltas}
use zoekt.Bits.Deltas.RoundTrip.{
  from_sized_deltas-to_sized_deltas, from_sized_deltas16-to_sized_deltas16,
}
use zoekt.Bits.Deltas.Broken.{from_deltas_cut}
use zoekt.Bits.Sections.{DocumentSection, marshal_doc_sections, unmarshal_doc_sections}
use zoekt.Bits.Sections.RoundTrip.{unmarshal-marshal_doc_sections}
use zoekt.Bits.RuneOffsets.{make_rune_offset_map, lookup}
use zoekt.Bits.RuneOffsets.RoundTrip.{lookup-make_rune_offset_map}
use zoekt.Bits.Ngram.{Runes, runes_to_ngram, ngram_to_runes, ngram_to_runes-runes_to_ngram}
use zoekt.Bits.Ngram.{RunesLt, runes_to_ngram_mono}

deltas_written :
    to_sized_deltas (3 ∷ 300 ∷ 5 ∷ []) ≡ ok (3 ∷ 3 ∷ 169 ∷ 2 ∷ 217 ∷ 253 ∷ 255 ∷ 255 ∷ 15 ∷ [])
unfolding to_sized_deltas put_uvarint
deltas_written = refl

-- A lone byte with its top bit set.
deltas_cut : from_deltas (5 ∷ 200 ∷ []) ≡ diverges
unfolding from_deltas uvarint
deltas_cut = refl

uvarint-put_uvarint_example : uvarint (put_uvarint 300 ++ 7 ∷ []) ≡ read 300 (7 ∷ [])
uvarint-put_uvarint_example = uvarint-put_uvarint 300 (7 ∷ []) (omega arith)

from_sized_deltas-to_sized_deltas_example :
    (to_sized_deltas (3 ∷ 300 ∷ 5 ∷ []) >>= from_sized_deltas) ≡ ok (3 ∷ 300 ∷ 5 ∷ [])
from_sized_deltas-to_sized_deltas_example =
    from_sized_deltas-to_sized_deltas (3 ∷ 300 ∷ 5 ∷ []) (omega arith) (omega arith)

from_sized_deltas16-to_sized_deltas16_example :
    (to_sized_deltas16 (3 ∷ 300 ∷ 5 ∷ []) >>= from_sized_deltas16) ≡ ok (3 ∷ 300 ∷ 5 ∷ [])
from_sized_deltas16-to_sized_deltas16_example =
    from_sized_deltas16-to_sized_deltas16 (3 ∷ 300 ∷ 5 ∷ []) (omega arith) (omega arith)

from_deltas_cut_example : from_deltas (5 ∷ 200 ∷ []) ≢ ok (5 ∷ [])
from_deltas_cut_example = from_deltas_cut (5 ∷ 200 ∷ []) (5 ∷ []) (omega arith)

abbrev two_sections : List DocumentSection
two_sections = record { start = 4; end = 10 } ∷ record { start = 12; end = 300 } ∷ []

unmarshal-marshal_doc_sections_example :
    (marshal_doc_sections two_sections >>= unmarshal_doc_sections) ≡ ok two_sections
unmarshal-marshal_doc_sections_example =
    unmarshal-marshal_doc_sections two_sections (omega arith) (omega arith)

-- The third hundred begins at byte 205.
rune_205 : lookup (make_rune_offset_map (0 ∷ 100 ∷ 205 ∷ 305 ∷ [])) 317 ≡ (305, 17)
unfolding lookup make_rune_offset_map
rune_205 = refl

lookup-make_rune_offset_map_example :
    lookup (make_rune_offset_map (0 ∷ 100 ∷ 205 ∷ 305 ∷ [])) 317 ≡ (305, 317 % 100)
lookup-make_rune_offset_map_example =
    lookup-make_rune_offset_map (0 ∷ 100 ∷ 205 ∷ 305 ∷ []) 317 305 (omega arith) (omega arith)
      (omega arith) refl

abbrev abc : Runes
abc = record { first = b'a'; second = b'b'; third = b'c' }

abbrev abd : Runes
abd = record { first = b'a'; second = b'b'; third = b'd' }

ngram_to_runes-runes_to_ngram_example :
    (ngram_to_runes (runes_to_ngram abc) ≡ abc) × (runes_to_ngram abc < 2 ^ 63)
ngram_to_runes-runes_to_ngram_example = ngram_to_runes-runes_to_ngram abc (omega arith)

runes_to_ngram_mono_example : (runes_to_ngram abc < runes_to_ngram abd) ↔ RunesLt abc abd
runes_to_ngram_mono_example = runes_to_ngram_mono abc abd (omega arith) (omega arith)
