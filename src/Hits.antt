-- ===== src/Hits.antt =====
-- index/hititer.go: iterators over candidate hits, as offsets in the concatenated documents. The
-- interface `hitIterator`, the law that its implementations keep, and the lists behind it.
pub mod Lists
pub mod InMemory
pub mod Compressed
pub mod Merging
pub mod Distance
mod Examples
use zoekt.Prelude.{ℕ, ◌^◌, ◌<◌, List, ◌≡◌}
use zoekt.Outcome.{Outcome, ok}
use Lists.{IsHits, head_or_max, drop_through}

-- `hitIterator`. A method changes the iterator's own state, which it hands back. `updateStats` is
-- modelled with the implementations.
pub record HitIterator (S : Type 0) : Type 0 where
  pub first : S → Outcome (ℕ × S)
  pub next : ℕ → S → Outcome S

-- `Denotes` says for which list of hits to come a state stands: `first` gives the head of the list,
-- or math.MaxUint32, and `next` drops the hits up to a limit.
pub record IsLawful {S : Type 0} (it : HitIterator S) (Denotes : S → List ℕ → Type 0) : Type 0 where
  pub denotes-IsHits : (s : S) (hits : List ℕ) → Denotes s hits → IsHits hits
  pub first_lem :
      (s : S) (hits : List ℕ)
      → Denotes s hits
      → (s' : S) × (it.first s ≡ ok (head_or_max hits, s')) × Denotes s' hits
  pub next_lem :
      (limit : ℕ) (s : S) (hits : List ℕ)
      → limit < 2 ^ 32
      → Denotes s hits
      → (s' : S) × (it.next limit s ≡ ok s') × Denotes s' (drop_through limit hits)
