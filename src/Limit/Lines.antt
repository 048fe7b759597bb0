-- ===== src/Limit/Lines.antt =====
-- `limitLineMatches` keeps the first fragments of a file.
use zoekt.Prelude.{ℕ, ◌-◌, ltb, ◌==◌, if◌then◌else◌, if_cases}
use zoekt.Prelude.{List, [], ◌∷◌, ◌++◌, length, take, ◌≡◌, refl, sym, ap, ◌∙◌, arith}
use zoekt.Prelude.{ltb-false→le, ==_iff}
use zoekt.Outcome.{ok}
use zoekt.Limit.{LineFragmentMatch, LineMatch, FileMatch, limit_lines, limit_line_matches}
use zoekt.Limit.Take.{take_all, take_full, take_short, all_of}

abbrev pub line_hits : FileMatch → List LineFragmentMatch
line_hits file = all_of (λ lm. lm.line_fragments) file.line_matches

kept_take :
    (limit : ℕ) (fs : List LineFragmentMatch)
    → (if ltb limit (length fs) then take limit fs else fs) ≡ take limit fs
kept_take limit fs =
    if_cases (λ x. x ≡ take limit fs) (ltb limit (length fs)) (take limit fs) fs (λ e. refl)
      (λ e. sym (take_all limit fs (ltb-false→le _ _ e)))

-- What holds of the loop's result on the matches `lms`.
abbrev Shown : ℕ → List LineFragmentMatch → List LineMatch × ℕ → Type 0
Shown limit hits r =
    (all_of (λ lm. lm.line_fragments) r.0 ≡ take limit hits) × (r.1 ≡ limit - length hits)

limit_lines_lem :
    (limit : ℕ) (lms : List LineMatch)
    → Shown limit (all_of (λ lm. lm.line_fragments) lms) (limit_lines limit lms)
unfolding limit_lines
limit_lines_lem limit [] = (sym (take_all limit [] (omega arith)), omega arith)
limit_lines_lem limit (lm ∷ lms) =
    let fs = lm.line_fragments in
    let hits = all_of (λ l. l.line_fragments) lms in
    rw (kept_take limit fs) (
      if_cases (Shown limit (fs ++ hits)) (length (take limit fs) == limit) _ _
        (λ e. take_full limit fs hits ((==_iff _ _).0 e))
        (λ e.
          let (h, l) = limit_lines_lem (limit - length (take limit fs)) lms in
          let (h', l') = take_short limit fs hits in (ap (λ x. take limit fs ++ x) h ∙ h', l ∙ l')))

pub limit_line_matches_lem :
    (limit : ℕ) (file : FileMatch)
    → (cut : FileMatch) × (left : ℕ) × (limit_line_matches limit file ≡ ok (cut, left))
      × (line_hits cut ≡ take limit (line_hits file))
      × (left ≡ limit - length (line_hits file))
unfolding limit_line_matches
limit_line_matches_lem limit file =
    let (h, l) = limit_lines_lem limit file.line_matches in
    (
      record file { line_matches = (limit_lines limit file.line_matches).0 },
      (limit_lines limit file.line_matches).1,
      refl,
      h,
      l,
    )
