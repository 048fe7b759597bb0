-- ===== src/Limit/Sequence.antt =====
-- A sequence of calls of the truncator shows what one call on all batches would.
use zoekt.Prelude.{ℕ, zero, suc, if◌then◌else◌, Bool, true, false, inl, inr, ◌⊎◌}
use zoekt.Prelude.{List, [], ◌∷◌, ◌++◌, length, take, append_assoc, ◌≡◌, refl, sym, ap, ◌∙◌, All}
use zoekt.Prelude.{if_true, if_false}
use zoekt.Outcome.{Outcome, ok, ◌>>=◌}
use zoekt.Limit.{FileMatch, SearchOptions, Truncator, limit_docs, limit_shown, truncate}
use zoekt.Limit.Take.{all_of}
use zoekt.Limit.Batches.{cap, lower, cap-append, doc_limited, match_limited}

-- All that is shown by calls with these batches, in order.
unfoldable pub truncate_all :
    SearchOptions → Truncator → List (List FileMatch) → Outcome (List FileMatch)
truncate_all o t [] = ok []
truncate_all o t (fm ∷ fms) = do
  (shown, t') ← truncate o t fm
  rest ← truncate_all o t' fms
  ok (shown.0 ++ rest)

abbrev pub concat : List (List FileMatch) → List FileMatch
concat fms = all_of (λ fm. fm) fms

pub all_of-append :
    {X : Type 0} (hits : FileMatch → List X) (xs ys : List FileMatch)
    → all_of hits (xs ++ ys) ≡ all_of hits xs ++ all_of hits ys
all_of-append hits [] ys = refl
all_of-append hits (x ∷ xs) ys =
    ap (λ l. hits x ++ l) (all_of-append hits xs ys)
    ∙ sym (append_assoc (hits x) (all_of hits xs) (all_of hits ys))

take-All :
    (Good : FileMatch → Type 0) (n : ℕ) (xs : List FileMatch) → All Good xs → All Good (take n xs)
take-All Good zero xs h = tt
take-All Good (suc n) [] h = tt
take-All Good (suc n) (x ∷ xs) h = (h.0, take-All Good n xs h.1)

pub cap-All :
    (Good : FileMatch → Type 0) (b : Bool) (n : ℕ) (xs : List FileMatch)
    → All Good xs
    → All Good (cap b n xs)
cap-All Good true n xs h = take-All Good n xs h
cap-All Good false n xs h = h

pub cap-nil : {A : Type 0} (b : Bool) (n : ℕ) → cap {A = A} b n [] ≡ []
cap-nil true zero = refl
cap-nil true (suc n) = refl
cap-nil false n = refl

cap_zero : {A : Type 0} (b : Bool) (n : ℕ) (xs : List A) → b ≡ true → n ≡ 0 → cap b n xs ≡ []
cap_zero b n xs e z = rw (e, z) refl

pub truncate_done :
    (o : SearchOptions) (t : Truncator) (fm : List FileMatch)
    → t.done ≡ true
    → truncate o t fm ≡ ok (([], false), t)
unfolding truncate
truncate_done o t fm e = if_true t.done _ _ e

pub truncate_on :
    (o : SearchOptions) (t t' : Truncator) (fm shown : List FileMatch)
    → t.done ≡ false
    → limit_shown o (limit_docs o t fm).1 (limit_docs o t fm).0 ≡ ok (shown, t')
    → truncate o t fm ≡ ok ((shown, if t'.done then false else true), t')
unfolding truncate
truncate_on o t t' fm shown e p = if_false t.done _ _ e ∙ rw p refl

pub truncate_all-cons :
    (o : SearchOptions) (t t' : Truncator) (fm shown rest : List FileMatch) (more : Bool)
    (fms : List (List FileMatch))
    → truncate o t fm ≡ ok ((shown, more), t')
    → truncate_all o t' fms ≡ ok rest
    → truncate_all o t (fm ∷ fms) ≡ ok (shown ++ rest)
unfolding truncate_all
truncate_all-cons o t t' fm shown rest more fms p q = rw (p, q) refl

-- No limit leaves anything to show.
abbrev pub Spent : SearchOptions → Truncator → Type 0
Spent o t =
    ((doc_limited o ≡ true) × (t.doc_limit ≡ 0)) ⊎ ((match_limited o ≡ true) × (t.match_limit ≡ 0))

module _ {X : Type 0} (hits : FileMatch → List X) where
  pub Spent-nothing :
      (o : SearchOptions) (t : Truncator) (xs : List FileMatch)
      → Spent o t
      → cap (match_limited o) t.match_limit (all_of hits (cap (doc_limited o) t.doc_limit xs)) ≡ []
  Spent-nothing o t xs (inl (e, z)) =
      ap (λ l. cap (match_limited o) t.match_limit (all_of hits l))
        (cap_zero (doc_limited o) t.doc_limit xs e z)
      ∙ cap-nil (match_limited o) t.match_limit
  Spent-nothing o t xs (inr (e, z)) = cap_zero (match_limited o) t.match_limit _ e z

  -- The cut of all batches is that of the first one, and that of the others with the lowered
  -- limits.
  pub joined :
      (b c : Bool) (D M : ℕ) (fm rest : List FileMatch)
      → cap c M (all_of hits (cap b D (fm ++ rest)))
        ≡ cap c M (all_of hits (cap b D fm))
          ++ cap c
              (lower c M (length (all_of hits (cap b D fm))))
              (all_of hits (cap b (lower b D (length fm)) rest))
  joined b c D M fm rest =
      ap (λ l. cap c M (all_of hits l)) (cap-append b D fm rest)
      ∙ ap (cap c M) (all_of-append hits (cap b D fm) (cap b (lower b D (length fm)) rest))
      ∙ cap-append c M (all_of hits (cap b D fm)) (all_of hits (cap b (lower b D (length fm)) rest))
