-- ===== src/Chunk/Examples.antt =====
-- Test runs of chunked sending: items are their sizes, and what is sent is kept in order.
use zoekt.Prelude.{
  ℕ, ltb, if◌then◌else◌, List, [], ◌∷◌, ◌++◌, length, Option, none, some, ◌≡◌, refl,
}
use zoekt.Chunk.{send_all}
use zoekt.Chunk.Packed.{deliver, concat, outcome, IsSplit, send_all-deliver}

abbrev keep : List ℕ → List (List ℕ) → List (List ℕ) × Option ℕ
keep c sent = (sent ++ c ∷ [], none)

-- Fails with an error once two chunks were sent.
abbrev keep_two : List ℕ → List (List ℕ) → List (List ℕ) × Option ℕ
keep_two c sent = if ltb (length sent) 2 then (sent ++ c ∷ [], none) else (sent, some 7)

abbrev items : List ℕ
items = 600000 ∷ 400000 ∷ 300000 ∷ 2000000 ∷ 5 ∷ []

send_all-items :
    outcome (send_all (λ n. n) keep items [])
    ≡ (none, (600000 ∷ 400000 ∷ []) ∷ (300000 ∷ []) ∷ (2000000 ∷ []) ∷ (5 ∷ []) ∷ [])
unfolding send_all
send_all-items = refl

send_all-fails :
    outcome (send_all (λ n. n) keep_two items [])
    ≡ (some 7, (600000 ∷ 400000 ∷ []) ∷ (300000 ∷ []) ∷ [])
unfolding send_all
send_all-fails = refl

send_all-of_large :
    outcome (send_all (λ n. n) keep (1048576 ∷ []) []) ≡ (none, [] ∷ (1048576 ∷ []) ∷ [])
unfolding send_all
send_all-of_large = refl

send_all-deliver_example :
    (cs : List (List ℕ)) × (concat cs ≡ items)
    × IsSplit (λ n. n) cs
    × ((f : List ℕ → List (List ℕ) → List (List ℕ) × Option ℕ) (s : List (List ℕ))
        → outcome (send_all (λ n. n) f items s) ≡ deliver f cs s)
send_all-deliver_example = send_all-deliver (λ n. n) items
