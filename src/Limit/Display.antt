-- ===== src/Limit/Display.antt =====
-- The display limits over all calls of a truncator.
use zoekt.Prelude.{ℕ, ◌≤◌, ◌<◌, ltb, Bool, true, false, Bool-cases, inl, inr}
use zoekt.Prelude.{
  List, [], ◌∷◌, ◌++◌, length, length-append, length-take, ◌≡◌, refl, sym, ap, ap₂, ◌∙◌, subst,
  arith, All, ltb→lt,
}
use zoekt.Outcome.{ok}
use zoekt.Limit.{FileMatch, SearchOptions, Truncator, limiter, limit_docs, new_display_truncator}
use zoekt.Limit.Take.{all_of}
use zoekt.Limit.Matches.{Limits}
use zoekt.Limit.Lines.{line_hits, limit_line_matches_lem}
use zoekt.Limit.Chunks.{chunk_hits, limit_chunk_matches_lem}
use zoekt.Limit.Cut.{IsChunk}
use zoekt.Limit.Batches.{
  cap, lower, cap-append, doc_limited, match_limited, limit_docs_lem, limit_shown_lem,
}
use zoekt.Limit.Sequence.{
  truncate_all, concat, all_of-append, cap-All, cap-nil, truncate_done, truncate_on,
}
use zoekt.Limit.Sequence.{truncate_all-cons, Spent, Spent-nothing, joined}

-- What the state keeps between calls.
abbrev IsReady : SearchOptions → Truncator → Type 0
IsReady o t =
    (t.done ≡ false → match_limited o ≡ true → 0 < t.match_limit) × (t.done ≡ true → Spent o t)

cap_longer :
    (b : Bool) (n : ℕ) (xs ys : List FileMatch) → length (cap b n ys) ≤ length (cap b n (xs ++ ys))
cap_longer true n xs ys =
    let a = length-take n ys in
    let b = length-take n (xs ++ ys) in let c = length-append xs ys in omega arith
cap_longer false n xs ys = let c = length-append xs ys in omega arith

module _ {X : Type 0} (hits : FileMatch → List X) (Good : FileMatch → Type 0) (o : SearchOptions)
    (law : Limits hits Good (limiter o.chunk_matches)) where
  -- What the calls with the batches `fms` show.
  abbrev Displayed : Truncator → List (List FileMatch) → Type 0
  Displayed t fms =
      (out : List FileMatch) × (truncate_all o t fms ≡ ok out)
      × (all_of hits out
          ≡ cap (match_limited o) t.match_limit
              (all_of hits (cap (doc_limited o) t.doc_limit (concat fms))))
      × (length out ≤ length (cap (doc_limited o) t.doc_limit (concat fms)))

  nothing_more :
      (t : Truncator) (fm : List FileMatch) (fms : List (List FileMatch))
      → t.done ≡ true
      → Spent o t
      → Displayed t fms
      → Displayed t (fm ∷ fms)
  nothing_more t fm fms e s (out, p, h, l) =
      let none = h ∙ Spent-nothing hits o t (concat fms) s in
      (
        out,
        truncate_all-cons o t t fm [] out false fms (truncate_done o t fm e) p,
        none ∙ sym (Spent-nothing hits o t (concat (fm ∷ fms)) s),
        let k = cap_longer (doc_limited o) t.doc_limit fm (concat fms) in omega arith,
      )

  lengths :
      (t : Truncator) (fm : List FileMatch) (fms : List (List FileMatch))
      (shown out docs : List FileMatch) (t' : Truncator)
      → docs ≡ cap (doc_limited o) t.doc_limit fm
      → t'.doc_limit ≡ lower (doc_limited o) t.doc_limit (length fm)
      → length shown ≤ length docs
      → length out ≤ length (cap (doc_limited o) t'.doc_limit (concat fms))
      → length (shown ++ out) ≤ length (cap (doc_limited o) t.doc_limit (fm ++ concat fms))
  lengths t fm fms shown out docs t' d0 d1 l m =
      let a = ap length (cap-append (doc_limited o) t.doc_limit fm (concat fms)) in
      let b =
        length-append (cap (doc_limited o) t.doc_limit fm)
          (cap (doc_limited o) (lower (doc_limited o) t.doc_limit (length fm)) (concat fms)) in
      let c = length-append shown out in
      let d = ap length d0 in
      let e = ap (λ n. length (cap (doc_limited o) n (concat fms))) d1 in omega arith

  truncate_all_lem :
      (t : Truncator) (fms : List (List FileMatch))
      → All (All Good) fms
      → IsReady o t
      → Displayed t fms
  truncate_all_lem t [] w r = (
    [],
    unfold truncate_all in refl,
    sym (
        ap (λ l. cap (match_limited o) t.match_limit (all_of hits l))
          (cap-nil (doc_limited o) t.doc_limit)
        ∙ cap-nil (match_limited o) t.match_limit),
    omega arith,
  )
  truncate_all_lem t (fm ∷ fms) w r = elim (Bool-cases t.done) [
    | inl e ↦ nothing_more t fm fms e (r.1 e) (truncate_all_lem t fms w.1 r)
    | inr e ↦
        let docs = limit_docs o t fm in
        let (d0, d1, d2, d3) = limit_docs_lem o t fm e in
        let good : All Good docs.0 =
          subst (All Good) (sym d0) (cap-All Good (doc_limited o) t.doc_limit fm w.0) in
        let c =
          limit_shown_lem hits Good o law docs.1 docs.0 good
            (λ x. subst (λ n. 0 < n) (sym d2) (r.0 e x)) in
        let ready : IsReady o c.after = (
          c.fresh,
          λ x. elim (c.spent x) [
            | inl d ↦ let (b, z) = d3 d in inl (b, c.docs ∙ z)
            | inr s ↦ inr s
          ],
        ) in
        let (out, p, h, l) = truncate_all_lem c.after fms w.1 ready in
        let both = lengths t fm fms c.shown out docs.0 c.after d0 (c.docs ∙ d1) c.fewer l in
        (
          c.shown ++ out,
          truncate_all-cons o t c.after fm c.shown out _ fms
              (truncate_on o t c.after fm c.shown e c.result) p,
          all_of-append hits c.shown out
              ∙ ap₂ (λ u v. u ++ v)
                  (c.same ∙ ap₂ (λ m d. cap (match_limited o) m (all_of hits d)) d2 d0)
                  (h
                    ∙ ap₂
                        (λ m d.
                          cap (match_limited o) m
                            (all_of hits (cap (doc_limited o) d (concat fms))))
                        (c.left
                          ∙ ap₂ (λ m d. lower (match_limited o) m (length (all_of hits d))) d2 d0)
                        (c.docs ∙ d1))
              ∙ sym (
                  joined hits (doc_limited o) (match_limited o) t.doc_limit t.match_limit fm
                    (concat fms)),
          both,
        )
  ]

new-IsReady : (o : SearchOptions) → IsReady o (new_display_truncator o)
new-IsReady o = (λ e x. ltb→lt 0 o.max_match_display_count x, λ e. cc)

any_files : (fms : List (List FileMatch)) → All (All (λ file. Unit {0})) fms
any_files [] = tt
any_files (fm ∷ fms) = (each fm, any_files fms)
  where
    each : (files : List FileMatch) → All (λ file. Unit {0}) files
    each [] = tt
    each (file ∷ files) = (tt, each files)

-- However the files are cut into batches, the calls of a new truncator return, and show of line
-- matches what one list would: the line fragments shown are those of the first documents, as many
-- as the document limit allows, and of these the first ones that the match limit allows, where
-- these limits are set. No more documents are shown than the document limit allows.
pub truncate_all-line_hits :
    (o : SearchOptions) (fms : List (List FileMatch))
    → o.chunk_matches ≡ false
    → (out : List FileMatch) × (truncate_all o (new_display_truncator o) fms ≡ ok out)
      × (all_of line_hits out
          ≡ cap (ltb 0 o.max_match_display_count) o.max_match_display_count (
              all_of line_hits
                (cap (ltb 0 o.max_doc_display_count) o.max_doc_display_count (concat fms))))
      × (length out
          ≤ length (cap (ltb 0 o.max_doc_display_count) o.max_doc_display_count (concat fms)))
truncate_all-line_hits o fms e =
    truncate_all_lem line_hits (λ file. Unit {0}) o
      (subst (λ b. Limits line_hits (λ file. Unit {0}) (limiter b)) (sym e)
        (λ l file w k. limit_line_matches_lem l file))
      (new_display_truncator o) fms (any_files fms) (new-IsReady o)

-- However the files are cut into batches, the calls of a new truncator return and do not panic, if
-- the ranges of each chunk end on ascending lines between which its content has the line ends, and
-- it has no symbols or as many as ranges, and show of chunk matches what one list would: the ranges
-- shown are those of the first documents, as many as the document limit allows, and of these the
-- first ones that the match limit allows, where these limits are set. No more documents are shown
-- than the document limit allows.
pub truncate_all-chunk_hits :
    (o : SearchOptions) (fms : List (List FileMatch))
    → o.chunk_matches ≡ true
    → All (All (λ file. All IsChunk file.chunk_matches)) fms
    → (out : List FileMatch) × (truncate_all o (new_display_truncator o) fms ≡ ok out)
      × (all_of chunk_hits out
          ≡ cap (ltb 0 o.max_match_display_count) o.max_match_display_count (
              all_of chunk_hits
                (cap (ltb 0 o.max_doc_display_count) o.max_doc_display_count (concat fms))))
      × (length out
          ≤ length (cap (ltb 0 o.max_doc_display_count) o.max_doc_display_count (concat fms)))
truncate_all-chunk_hits o fms e w =
    truncate_all_lem chunk_hits (λ file. All IsChunk file.chunk_matches) o
      (subst (λ b. Limits chunk_hits (λ file. All IsChunk file.chunk_matches) (limiter b)) (sym e)
        limit_chunk_matches_lem)
      (new_display_truncator o) fms w (new-IsReady o)
