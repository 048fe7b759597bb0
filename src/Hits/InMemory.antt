-- ===== src/Hits/InMemory.antt =====
-- `inMemoryIterator` of index/hititer.go.
use zoekt.Prelude.{◌≤◌, ℕ, ◌==◌, if◌then◌else◌, if_cases, List, [], ◌≡◌, refl, subst, ==_iff, arith}
use zoekt.Outcome.{Outcome, ok}
use zoekt.Hits.{HitIterator, IsLawful}
use zoekt.Hits.Lists.{
  max_u32, IsHits, head_or_max, drop_through, drop_through-IsHits, drop_through_max,
}

-- `what` is the ngram, for printing.
pub record InMemoryIterator : Type 0 where
  pub postings : List ℕ
  pub what : ℕ

unfoldable pub first : InMemoryIterator → Outcome (ℕ × InMemoryIterator)
first i = ok (head_or_max i.postings, i)

-- The loop drops postings up to the limit, after math.MaxUint32 has emptied the list.
unfoldable pub next : ℕ → InMemoryIterator → Outcome InMemoryIterator
unfolding drop_through
next limit i =
    let postings = if limit == max_u32 then [] else i.postings in
    ok (record i { postings = drop_through limit postings })

abbrev pub in_memory : HitIterator InMemoryIterator
in_memory = record { first = first; next = next }

next-postings :
    (limit : ℕ) (i : InMemoryIterator)
    → IsHits i.postings
    → next limit i ≡ ok (record i { postings = drop_through limit i.postings })
unfolding next
next-postings limit i h =
    if_cases
      (λ l.
        ok (record i { postings = drop_through limit l })
        ≡ ok (record i { postings = drop_through limit i.postings }))
      (limit == max_u32) [] i.postings
      (λ e.
        let full : max_u32 ≤ limit = let m = (==_iff limit max_u32).0 e in omega arith in
        rw (drop_through_max limit i.postings full h))
      (λ e. refl)

-- The iterator holds these hits, strictly ascending.
abbrev pub Holds : InMemoryIterator → List ℕ → Type 0
Holds i hits = (i.postings ≡ hits) × IsHits i.postings

-- An in-memory iterator stands for its list of postings, if that ascends strictly and stays below
-- math.MaxUint32.
pub in_memory-IsLawful : IsLawful in_memory Holds
unfolding first
in_memory-IsLawful = record {
  denotes-IsHits = λ i hits d. subst IsHits d.0 d.1;
  first_lem = λ i hits d. (i, rw d.0 refl, d);
  next_lem = λ limit i hits h d. (
    record i { postings = drop_through limit i.postings },
    next-postings limit i d.1,
    (rw d.0 refl, drop_through-IsHits limit i.postings d.1),
  );
}
