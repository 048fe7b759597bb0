-- ===== src/MatchTree/NgramDoc/Lawful.antt =====
-- An `ngramDocIterator` over a lawful hit iterator gives the candidates of each document.
use zoekt.Prelude.{ℕ, zero, suc, ◌+◌, ◌-◌, ◌%◌, ◌^◌, ◌<◌, ◌≤◌, ltb, leb, if◌then◌else◌, false}
use zoekt.Prelude.{
  List, [], ◌∷◌, length, get_elem?, some, ◌≡◌, refl, sym, ap, ◌∙◌, arith, lt→ltb, lt→leb_false,
}
use native.Mathlib.Decide.{dec_lt}
use zoekt.Outcome.{Outcome, ok}
use zoekt.Hits.{HitIterator, IsLawful}
use zoekt.Hits.Lists.{max_u32, Above, head_or_max, drop_through, length-Above}
use zoekt.MatchTree.Content.{CandidateMatch}
use zoekt.MatchTree.Facts.{IsMatchIterator}
use zoekt.MatchTree.NgramDoc.{
  NgramDocIterator, end_at, file_start, next_file_index, next_doc_of, prepare_for, candidates_of,
  candidates_in, candidates_loop, ngram_doc_iterator,
}
use zoekt.MatchTree.NgramDoc.FileIndex.{IsAscending, next_file_index_lem}
use zoekt.MatchTree.NgramDoc.InFile.{
  in_file, in_file-drop_through, in_file-Above, candidates_loop_lem,
}

abbrev pub doc_start : List ℕ → ℕ → ℕ
doc_start ends zero = 0
doc_start ends (suc d) = end_at ends d

get_elem?-end_at :
    (ends : List ℕ) (i : ℕ) → i < length ends → get_elem? ends i ≡ some (end_at ends i)
get_elem?-end_at [] i h = absurd (omega arith)
get_elem?-end_at (p ∷ ps) zero h = refl
get_elem?-end_at (p ∷ ps) (suc i) h = get_elem?-end_at ps i (omega arith)

file_start-doc_start :
    (ends : List ℕ) (d : ℕ) → d ≤ length ends → file_start ends d ≡ ok (doc_start ends d)
file_start-doc_start ends zero h = refl
file_start-doc_start ends (suc d) h = rw (file_start, get_elem?-end_at ends d (omega arith)) refl

below_index : (n f d k : ℕ) → n ≡ k → d < (if leb n f then max_u32 else f) → d < k → d < f
below_index n f d k e h l = ground arith

-- Documents in ascending order, at offsets that leave room for the padding.
pub record IsLayout (left right : ℕ) (ends : List ℕ) : Type 0 where
  pub ascending : IsAscending ends
  pub few : length ends < 2 ^ 30
  pub room :
      (d : ℕ) → d < length ends → (left + end_at ends d < 2 ^ 32) × (right + end_at ends d < 2 ^ 32)
  pub padded : left < 2 ^ 32

module _ {S : Type 0} (D : S → List ℕ → Type 0) (left right : ℕ) (ends : List ℕ) where
  -- The candidates that the hits have in each document from `from` on.
  pub record Stands (cs : ℕ → List CandidateMatch) (from : ℕ) (i : NgramDocIterator S)
      : Type 0 where
    pub hits : List ℕ
    pub denotes : D i.iter hits
    pub ends_eq : i.ends ≡ ends
    pub left_eq : i.left_pad ≡ left
    pub right_eq : i.right_pad ≡ right
    pub same :
        (d : ℕ)
        → from ≤ d
        → d < length ends
        → cs d ≡ in_file left right (doc_start ends d) (end_at ends d) hits
    pub passed : (d : ℕ) → from ≤ d → d < i.file_idx → d < length ends → cs d ≡ []

module _ {S : Type 0} {D : S → List ℕ → Type 0} (it : HitIterator S) (law : IsLawful it D)
    (left right : ℕ) (ends : List ℕ) (layout : IsLayout left right ends) where
  -- The hits ascend from the first one.
  head-Above : (s : S) (hits : List ℕ) → D s hits → Above (head_or_max hits) hits
  head-Above s [] d = tt
  head-Above s (p ∷ ps) d = let a = law.denotes-IsHits s (p ∷ ps) d in (omega arith, a.1, a.2)

  next_doc_of_lem :
      (cs : ℕ → List CandidateMatch) (from : ℕ) (i : NgramDocIterator S)
      → Stands D left right ends cs from i
      → (m : ℕ) × (i' : NgramDocIterator S) × (next_doc_of it i ≡ ok (m, i'))
        × Stands D left right ends cs from i'
        × ((d : ℕ) → from ≤ d → d < m → d < length ends → cs d ≡ [])
  unfolding next_doc_of
  next_doc_of_lem cs from i st =
      let (s, p, den) = law.first_lem i.iter st.hits st.denotes in
      let (f, q, first) =
        next_file_index_lem (head_or_max st.hits) i.file_idx ends layout.ascending layout.few in
      let skipped : (d : ℕ) → from ≤ d → d < f → d < length ends → cs d ≡ [] = λ d a b c.
        elim (dec_lt d i.file_idx) [
          | yes old ↦ st.passed d a old c
          | no new ↦
              st.same d a c
              ∙ in_file-Above left right (doc_start ends d) (end_at ends d) (head_or_max st.hits)
                  st.hits (first.before d (omega arith) b) (head-Above s st.hits den)
        ] in
      (
        if leb (length i.ends) f then max_u32 else f,
        record i { iter = s; file_idx = f },
        rw (p, ap (λ x. next_file_index (head_or_max st.hits) i.file_idx x) st.ends_eq ∙ q) refl,
        record {
          hits = st.hits;
          denotes = den;
          ends_eq = st.ends_eq;
          left_eq = st.left_eq;
          right_eq = st.right_eq;
          same = st.same;
          passed = skipped;
        },
        λ d a b c.
            skipped d a (below_index (length i.ends) f d (length ends) (ap length st.ends_eq) b c)
              c,
      )

  -- The hits in front of a document are dropped, which no document from there on needs.
  record Advanced (start : ℕ) (hits : List ℕ) (o : Outcome S) : Type 0 where
    after : S
    hits' : List ℕ
    result : o ≡ ok after
    denotes : D after hits'
    kept :
        (start' stop' : ℕ)
        → start ≤ start'
        → in_file left right start' stop' hits' ≡ in_file left right start' stop' hits

  advance :
      (start : ℕ) (s : S) (hits : List ℕ)
      → D s hits
      → left + start < 2 ^ 32
      → Advanced start hits
          (if ltb 0 start then it.next ((start + left + 2 ^ 32 - 1) % 2 ^ 32) s else ok s)
  advance zero s hits d h = record {
    after = s;
    hits' = hits;
    result = refl;
    denotes = d;
    kept = λ a b c. refl;
  }
  advance (suc k) s hits d h =
      let e : (suc k + left + 2 ^ 32 - 1) % 2 ^ 32 ≡ k + left = omega arith in
      let (s', p, d') =
        law.next_lem ((suc k + left + 2 ^ 32 - 1) % 2 ^ 32) s hits (omega arith) d in
      record {
        after = s';
        hits' = drop_through ((suc k + left + 2 ^ 32 - 1) % 2 ^ 32) hits;
        result = rw (lt→ltb 0 (suc k) (omega arith)) p;
        denotes = d';
        kept = λ start' stop' a. in_file-drop_through left right start' stop' _ hits (omega arith);
      }

  prepare_for-eq :
      (i : NgramDocIterator S) (d : ℕ) (s : S)
      → i.ends ≡ ends
      → i.left_pad ≡ left
      → d < length ends
      → (if ltb 0 (doc_start ends d)
          then it.next ((doc_start ends d + left + 2 ^ 32 - 1) % 2 ^ 32) i.iter
          else ok i.iter)
        ≡ ok s
      → prepare_for it d i ≡ ok (record i { iter = s; file_idx = d })
  unfolding prepare_for
  prepare_for-eq i d s e l h p =
      rw
        (
          ap (λ x. file_start x d) e ∙ file_start-doc_start ends d (omega arith),
          ap
                (λ x.
                  if ltb 0 (doc_start ends d)
                  then it.next ((doc_start ends d + x + 2 ^ 32 - 1) % 2 ^ 32) i.iter
                  else ok i.iter)
                l
              ∙ p,
        )
        refl

  candidates_of-eq :
      (i : NgramDocIterator S) (start stop : ℕ) (cs : List CandidateMatch)
      (result : Outcome (List CandidateMatch × NgramDocIterator S))
      → leb (length i.ends) i.file_idx ≡ false
      → file_start i.ends i.file_idx ≡ ok start
      → candidates_in it i start (end_at i.ends i.file_idx) ≡ result
      → candidates_of it i ≡ result
  unfolding candidates_of
  candidates_of-eq i start stop cs result a b c = rw (a, b) c

  candidates_in-eq :
      (i : NgramDocIterator S) (start stop : ℕ) (cs : List CandidateMatch) (s : S)
      → i.left_pad ≡ left
      → i.right_pad ≡ right
      → candidates_loop it (2 ^ 33) left right start stop i.iter ≡ ok (cs, s)
      → candidates_in it i start stop
        ≡ ok (cs, record i { iter = s; match_count = i.match_count + length cs })
  unfolding candidates_in
  candidates_in-eq i start stop cs s l r p =
      rw
        (ap (λ x. candidates_loop it (2 ^ 33) x i.right_pad start stop i.iter) l
          ∙ ap (λ x. candidates_loop it (2 ^ 33) left x start stop i.iter) r
          ∙ p)
        refl

  ascend : (d d' : ℕ) → d < d' → d' < length ends → end_at ends d ≤ doc_start ends d'
  ascend d zero h k = absurd (omega arith)
  ascend d (suc d') h k = layout.ascending d d' (omega arith) (omega arith)

  start_below : (d d' : ℕ) → d ≤ d' → d' < length ends → doc_start ends d ≤ doc_start ends d'
  start_below zero d' h k = omega arith
  start_below (suc d) zero h k = absurd (omega arith)
  start_below (suc d) (suc d') h k = layout.ascending d d' (omega arith) (omega arith)

  start_room : (d : ℕ) → d < length ends → left + doc_start ends d < 2 ^ 32
  start_room zero h = let p = layout.padded in omega arith
  start_room (suc d) h = (layout.room d (omega arith)).0

  candidates_of_lem :
      (cs : ℕ → List CandidateMatch) (from d : ℕ) (i : NgramDocIterator S)
      → Stands D left right ends cs from i
      → from ≤ d
      → d < length ends
      → (i1 : NgramDocIterator S) × (i2 : NgramDocIterator S) × (prepare_for it d i ≡ ok i1)
        × (candidates_of it i1 ≡ ok (cs d, i2))
        × Stands D left right ends cs (d + 1) i2
  candidates_of_lem cs from d i st a b =
      let start = doc_start ends d in
      let stop = end_at ends d in
      let adv = advance start i.iter st.hits st.denotes (start_room d b) in
      let i1 : NgramDocIterator S = record i { iter = adv.after; file_idx = d } in
      let few =
        length-Above 0 adv.hits' (omega arith)
          (law.denotes-IsHits adv.after adv.hits' adv.denotes) in
      let c =
        candidates_loop_lem it law (2 ^ 33) left right start stop adv.after adv.hits' (omega arith)
          (start_room d b) (layout.room d b).1 adv.denotes in
      let mine = adv.kept start stop (omega arith) ∙ sym (st.same d a b) in
      (
        i1,
        record i1 {
          iter = c.after;
          match_count = i.match_count + length (in_file left right start stop adv.hits');
        },
        prepare_for-eq i d adv.after st.ends_eq st.left_eq b adv.result,
        candidates_of-eq i1 start stop (cs d) _
              (lt→leb_false (length i.ends) d (let e = ap length st.ends_eq in omega arith))
              (ap (λ x. file_start x d) st.ends_eq ∙ file_start-doc_start ends d (omega arith))
              (ap (λ x. candidates_in it i1 start (end_at x d)) st.ends_eq
                ∙ candidates_in-eq i1 start stop (in_file left right start stop adv.hits') c.after
                    st.left_eq st.right_eq c.result)
            ∙ ap
                (λ x. ok (
                  x,
                  record i1 {
                    iter = c.after;
                    match_count = i.match_count + length (in_file left right start stop adv.hits');
                  },
                ))
                mine,
        record {
          hits = c.hits;
          denotes = c.denotes;
          ends_eq = st.ends_eq;
          left_eq = st.left_eq;
          right_eq = st.right_eq;
          same = λ d' x y.
              st.same d' (omega arith) y
              ∙ sym
                  (adv.kept (doc_start ends d') (end_at ends d') (start_below d d' (omega arith) y))
              ∙ sym (c.kept (doc_start ends d') (end_at ends d') (ascend d d' (omega arith) y));
          passed = λ d' x y z. absurd (omega arith);
        },
      )

  -- Over a lawful hit iterator, an `ngramDocIterator` keeps the law of match iterators: it stands
  -- for the hits at which the pattern with its padding lies within a document, as rune offsets from
  -- where the document starts, if the documents ascend, are fewer than 2 ^ 30, and leave room for
  -- the padding.
  pub ngram_doc_iterator-IsMatchIterator :
      IsMatchIterator (ngram_doc_iterator it) (length ends) (Stands D left right ends)
  ngram_doc_iterator-IsMatchIterator = record {
    next_doc_lem = next_doc_of_lem;
    candidates_lem = candidates_of_lem;
  }
