-- ===== src/Limit/Batches.antt =====
-- The truncator over a sequence of calls: the batches are cut as if they were one.
use zoekt.Prelude.{
  ℕ, zero, suc, ◌-◌, ◌≤◌, ◌<◌, ltb, leb, ◌==◌, ◌||◌, if◌then◌else◌, if_cases, Bool, true, false,
  inl, inr, ◌⊎◌,
}
use zoekt.Prelude.{List, ◌++◌, length, take, length-take, ◌≡◌, refl, sym, arith, All}
use zoekt.Prelude.{leb→le, leb-false→lt}
use zoekt.Outcome.{Outcome, ok, ◌>>=◌}
use zoekt.Limit.{
  FileMatch, SearchOptions, Truncator, limiter, limit_matches, limit_docs, limit_shown,
}
use zoekt.Limit.Take.{take-append, take_all, all_of}
use zoekt.Limit.Matches.{Limits, limit_loop_lem}

-- The first `n` elements where a limit is set.
abbrev pub cap {ℓ} : {A : Type ℓ} → Bool → ℕ → List A → List A
cap true n xs = take n xs
cap false n xs = xs

abbrev pub lower : Bool → ℕ → ℕ → ℕ
lower true n k = n - k
lower false n k = n

pub cap-append {ℓ} :
    {A : Type ℓ} (b : Bool) (n : ℕ) (xs ys : List A)
    → cap b n (xs ++ ys) ≡ cap b n xs ++ cap b (lower b n (length xs)) ys
cap-append true n xs ys = take-append n xs ys
cap-append false n xs ys = refl

abbrev pub doc_limited : SearchOptions → Bool
doc_limited o = ltb 0 o.max_doc_display_count

abbrev pub match_limited : SearchOptions → Bool
match_limited o = ltb 0 o.max_match_display_count

pub limit_docs_lem :
    (o : SearchOptions) (t : Truncator) (fm : List FileMatch)
    → t.done ≡ false
    → let r = limit_docs o t fm in
      (r.0 ≡ cap (doc_limited o) t.doc_limit fm)
      × (r.1.doc_limit ≡ lower (doc_limited o) t.doc_limit (length fm))
      × (r.1.match_limit ≡ t.match_limit)
      × (r.1.done ≡ true → (doc_limited o ≡ true) × (r.1.doc_limit ≡ 0))
unfolding limit_docs
limit_docs_lem o t fm h = go (doc_limited o)
  where
    full :
        t.doc_limit ≤ length fm
        → t.doc_limit - length (take t.doc_limit fm) ≡ t.doc_limit - length fm
    full l = let k = length-take t.doc_limit fm in omega arith

    go :
        (b : Bool)
        → let r : List FileMatch × Truncator =
            (if b
              then (if leb t.doc_limit (length fm)
                  then (
                    take t.doc_limit fm,
                    record t {
                      done = true;
                      doc_limit = t.doc_limit - length (take t.doc_limit fm);
                    },
                  )
                  else (fm, record t { doc_limit = t.doc_limit - length fm }))
              else (fm, t)) in
          (r.0 ≡ cap b t.doc_limit fm)
          × (r.1.doc_limit ≡ lower b t.doc_limit (length fm))
          × (r.1.match_limit ≡ t.match_limit)
          × (r.1.done ≡ true → (b ≡ true) × (r.1.doc_limit ≡ 0))
    go false = (refl, refl, refl, λ e. cc)
    go true =
        if_cases
          (λ (r : List FileMatch × Truncator).
            (r.0 ≡ take t.doc_limit fm)
            × (r.1.doc_limit ≡ t.doc_limit - length fm)
            × (r.1.match_limit ≡ t.match_limit)
            × (r.1.done ≡ true → (true ≡ true) × (r.1.doc_limit ≡ 0)))
          (leb t.doc_limit (length fm)) _ _
          (λ e.
            let l = leb→le _ _ e in
            let k = length-take t.doc_limit fm in (refl, full l, refl, λ x. (refl, omega arith)))
          (λ e.
            let l = leb-false→lt _ _ e in
            (sym (take_all t.doc_limit fm (omega arith)), refl, refl, λ x. cc))

module _ {X : Type 0} (hits : FileMatch → List X) (Good : FileMatch → Type 0) (o : SearchOptions)
    (law : Limits hits Good (limiter o.chunk_matches)) where
  -- What `limit_shown` leaves behind.
  pub record Cut (b : Bool) (t : Truncator) (fm : List FileMatch)
      (out : Outcome (List FileMatch × Truncator)) : Type 0 where
    pub shown : List FileMatch
    pub after : Truncator
    pub result : out ≡ ok (shown, after)
    pub same : all_of hits shown ≡ cap b t.match_limit (all_of hits fm)
    pub left : after.match_limit ≡ lower b t.match_limit (length (all_of hits fm))
    pub docs : after.doc_limit ≡ t.doc_limit
    pub fewer : length shown ≤ length fm
    pub spent : after.done ≡ true → (t.done ≡ true) ⊎ ((b ≡ true) × (after.match_limit ≡ 0))
    pub fresh : after.done ≡ false → b ≡ true → 0 < after.match_limit

  pub limit_shown_lem :
      (t : Truncator) (fm : List FileMatch)
      → All Good fm
      → (match_limited o ≡ true → 0 < t.match_limit)
      → Cut (match_limited o) t fm (limit_shown o t fm)
  unfolding limit_shown limit_matches
  limit_shown_lem t fm w h = go (match_limited o) h
    where
      zero_left : (n : ℕ) (d : Bool) → (n == 0 || d) ≡ true → (d ≡ true) ⊎ (n ≡ 0)
      zero_left zero d e = inr refl
      zero_left (suc n) d e = let z : (suc n == 0) ≡ false = ground arith in inl cc

      some_left : (n : ℕ) (d : Bool) → (n == 0 || d) ≡ false → 0 < n
      some_left zero d e = cc
      some_left (suc n) d e = omega arith

      go :
          (b : Bool)
          → (b ≡ true → 0 < t.match_limit)
          → Cut b t fm (
              if b
              then (limit_matches fm t.match_limit o.chunk_matches >>= λ r.
                  ok (r.0, record t { match_limit = r.1; done = r.1 == 0 || t.done }))
              else ok (fm, t))
      go false k = record {
        shown = fm;
        after = t;
        result = refl;
        same = refl;
        left = refl;
        docs = refl;
        fewer = omega arith;
        spent = λ e. inl e;
        fresh = λ e l. cc;
      }
      go true k =
          let (r, p, u, l, m) =
            limit_loop_lem hits Good (limiter o.chunk_matches) law t.match_limit fm w (k refl) in
          record {
            shown = r.0;
            after = record t { match_limit = r.1; done = r.1 == 0 || t.done };
            result = rw p refl;
            same = u;
            left = l;
            docs = refl;
            fewer = m;
            spent = λ e. elim (zero_left r.1 t.done e) [ inl d ↦ inl d | inr z ↦ inr (refl, z) ];
            fresh = λ e x. some_left r.1 t.done e;
          }
