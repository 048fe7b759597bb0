-- ===== src/MatchTree/Counts.antt =====
-- The counts that `indexData.Search` (index/eval.go) keeps stand for what was found before.
use zoekt.Prelude.{
  ℕ, suc, ◌≤◌, ◌<◌, ltb, leb, ◌==◌, if_cases, Bool, true, false, ◌&&◌, ◌||◌, ==_iff,
}
use zoekt.Prelude.{List, [], ◌∷◌, ◌≡◌, refl, sym, ap, ◌∙◌, arith}
use native.Mathlib.Decide.{dec_lt}
use zoekt.MatchTree.Search.{
  IndexData, Context, Limits, Answers, Counts, no_counts, over_limit, enter_repo, stops,
  count_matches,
}
use zoekt.MatchTree.Expected.{total, in_repo, full, ends}

-- The code's counts, at a document, stand for what was found before.
pub record Tracks (sh : IndexData) (a : Answers) (from : ℕ) (c : Counts) (seen : List ℕ)
    : Type 0 where
  pub all_counted : c.match_count ≡ total a.match_count seen
  pub current : c.repo_match_count ≡ in_repo sh.repos a.match_count c.last_repo_id seen
  pub ahead : (x : ℕ) → from ≤ x → x < sh.docs → c.last_repo_id ≤ sh.repos x
  pub fresh :
      (x : ℕ)
      → from ≤ x
      → x < sh.docs
      → c.last_repo_id < sh.repos x
      → in_repo sh.repos a.match_count (sh.repos x) seen ≡ 0

over_full :
    (m count r last k : ℕ)
    → last ≤ r
    → (r ≡ last → k ≡ count)
    → (last < r → k ≡ 0)
    → (ltb 0 m && (leb m count && (r == last))) ≡ (ltb 0 m && leb m k)
over_full m count r last k l same new = elim (dec_lt last r) [
  | yes p ↦ let z = new p in ground arith
  | no p ↦ let q : r ≡ last = omega arith in let z = same q in ground arith
]

module _ (sh : IndexData) (o : Limits) (a : Answers) where
  pub Tracks-full :
      (ctx : Context) (value : ℕ → Bool) (from x : ℕ) (c : Counts) (seen : List ℕ)
      → Tracks sh a from c seen
      → from ≤ x
      → x < sh.docs
      → over_limit sh o c x ≡ full sh ctx o a value seen x
  unfolding over_limit
  Tracks-full ctx value from x c seen t l m =
      over_full o.shard_repo_max_match_count c.repo_match_count (sh.repos x) c.last_repo_id
        (in_repo sh.repos a.match_count (sh.repos x) seen) (t.ahead x l m)
        (λ e. ap (λ r. in_repo sh.repos a.match_count r seen) e ∙ sym t.current) (t.fresh x l m)

  pub Tracks-ends :
      (ctx : Context) (value : ℕ → Bool) (from d : ℕ) (c : Counts) (seen : List ℕ)
      → Tracks sh a from c seen
      → stops o a c d ≡ ends sh ctx o a value seen d
  unfolding stops
  Tracks-ends ctx value from d c seen t =
      ap
        (λ n.
          a.canceled d
          || (a.exhausted d || (leb o.shard_max_match_count n && ltb 0 o.shard_max_match_count)))
        t.all_counted

pub Tracks-start : (sh : IndexData) (a : Answers) → Tracks sh a 0 no_counts []
Tracks-start sh a = record {
  all_counted = refl;
  current = refl;
  ahead = λ x p q. omega arith;
  fresh = λ x p q r. refl;
}

-- Documents of one repository stand together, in the order of the repositories.
abbrev pub IsGrouped : IndexData → Type 0
IsGrouped sh = (x y : ℕ) → x ≤ y → y < sh.docs → sh.repos x ≤ sh.repos y

module _ (sh : IndexData) (a : Answers) (grouped : IsGrouped sh) where
  -- The counts of a round that looks at the document `d`.
  pub record Entered (d : ℕ) (c : Counts) (seen : List ℕ) : Type 0 where
    pub tracks : Tracks sh a d c seen
    pub last : c.last_repo_id ≡ sh.repos d

  pub enter_repo-Entered :
      (from d : ℕ) (c : Counts) (seen : List ℕ)
      → Tracks sh a from c seen
      → from ≤ d
      → d < sh.docs
      → Entered d (enter_repo (sh.repos d) c) seen
  unfolding enter_repo
  enter_repo-Entered from d c seen t l m =
      if_cases (λ c'. Entered d c' seen) (c.last_repo_id == sh.repos d) _ _
        (λ e. record {
          tracks = record {
            all_counted = t.all_counted;
            current = t.current;
            ahead = λ x p q. t.ahead x (omega arith) q;
            fresh = λ x p q. t.fresh x (omega arith) q;
          };
          last = (==_iff _ _).0 e;
        })
        (λ e. record {
          tracks = record {
            all_counted = t.all_counted;
            current = sym (t.fresh d l m (let p = t.ahead d l m in ground arith));
            ahead = λ x p q. grouped d x p q;
            fresh = λ x p q r. t.fresh x (omega arith) q (let s = t.ahead d l m in omega arith);
          };
          last = refl;
        })

  pub count-Tracks :
      (d : ℕ) (c : Counts) (seen : List ℕ)
      → d < sh.docs
      → Entered d c seen
      → Tracks sh a (suc d) (count_matches (a.match_count d) c) (d ∷ seen)
  unfolding count_matches
  count-Tracks d c seen m t = record {
    all_counted = let p = t.tracks.all_counted in omega arith;
    current =
        let p = t.tracks.current in
        let q : (sh.repos d == c.last_repo_id) ≡ true = (==_iff _ _).1 (sym t.last) in
        rw q (omega arith);
    ahead = λ x p q. t.tracks.ahead x (omega arith) q;
    fresh = λ x p q r.
        let old = t.tracks.fresh x (omega arith) q r in
        let last = t.last in
        let other : (sh.repos d == sh.repos x) ≡ false = ground arith in rw other (omega arith);
  }

  pub later-Tracks :
      (d : ℕ) (c : Counts) (seen : List ℕ) → Entered d c seen → Tracks sh a (suc d) c seen
  later-Tracks d c seen t = record {
    all_counted = t.tracks.all_counted;
    current = t.tracks.current;
    ahead = λ x p q. t.tracks.ahead x (omega arith) q;
    fresh = λ x p q. t.tracks.fresh x (omega arith) q;
  }
