-- ===== src/MatchTree/Verdict.antt =====
-- What a leaf says of a document once it is evaluated, and that `matches` says nothing else.
use zoekt.Prelude.{
  ℕ, ◌<◌, ltb, ◌&&◌, ◌||◌, if◌then◌else◌, if_true, if_false, Bool, true, false, inl, inr, ◌⊎◌,
}
use zoekt.Prelude.{List, [], ◌∷◌, ◌≡◌, refl, sym, ap, ◌∙◌, arith, ltb→lt}
use zoekt.Outcome.{Outcome, ok, ◌>>=◌}
use zoekt.MatchTree.Content.{Libraries, ContentProvider, CandidateMatch}
use zoekt.MatchTree.Leaf.{
  MatchesState, requires_higher_cost, found, none_found, matches_state_pred, non_empty,
}
use zoekt.MatchTree.Leaf.{cost_regexp, cost_memory, cost_content, matches_state_for_slice, evaluate}
use zoekt.MatchTree.Leaf.{
  Leaf, no_match, brute_force, doc, branch, regexp, word, substr, LeafState, branch_mask, start_doc,
}
use zoekt.MatchTree.Leaf.{prune, regexp_found, word_found, leaf_matches}

-- The right answer to `b`, or none yet below the highest cost.
abbrev pub Answers : ℕ → MatchesState → Bool → Type 0
Answers cost ms b =
    (ms ≡ matches_state_pred b) ⊎ ((ms ≡ requires_higher_cost) × (cost < cost_regexp))

abbrev Settled : LeafState → Bool → Type 0
Settled s b = (s.evaluated ≡ true) × (b ≡ non_empty s.candidates)

-- What is to be found, before it is looked for.
abbrev Pending : LeafState → Outcome (List CandidateMatch) → Bool → Type 0
Pending s o b =
    (s.evaluated ≡ false) × (ms : List CandidateMatch) × (o ≡ ok ms) × (b ≡ non_empty ms)

module _ (e : Libraries) (cp : ContentProvider) where
  -- A leaf in this state says `b`.
  abbrev pub Verdict : Leaf → LeafState → Bool → Type 0
  Verdict no_match s b = b ≡ false
  Verdict brute_force s b = b ≡ true
  Verdict (doc num_docs predicate) s b = b ≡ predicate cp.idx
  Verdict (branch file_masks masks repos) s b =
      (mask : ℕ) × (branch_mask file_masks masks repos s.doc_id ≡ ok mask) × (b ≡ ltb 0 mask)
  Verdict (regexp re file_name) s b =
      Settled s b ⊎ Pending s (ok (regexp_found e cp re file_name)) b
  Verdict (word text file_name) s b = Settled s b ⊎ Pending s (word_found e cp text file_name) b
  Verdict (substr file_name) s b = Settled s b ⊎ Pending s (prune e cp s.candidates) b

  pub record LeafStep (cost : ℕ) (l : Leaf) (s : LeafState) (b : Bool)
      (o : Outcome (MatchesState × LeafState)) : Type 0 where
    pub answer : MatchesState
    pub after : LeafState
    pub result : o ≡ ok (answer, after)
    pub verdict : Verdict l after b
    pub right : Answers cost answer b
    pub kept : start_doc after ≡ start_doc s

  again :
      (cost : ℕ) (l : Leaf) (s : LeafState) (b : Bool) (o : Outcome (MatchesState × LeafState))
      → Settled s b
      → Verdict l s b
      → LeafStep cost l s b
          (if s.evaluated then ok (matches_state_for_slice s.candidates, s) else o)
  again cost l s b o (d, h) v = record {
    answer = matches_state_for_slice s.candidates;
    after = s;
    result = if_true s.evaluated _ o d;
    verdict = v;
    right = inl (ap matches_state_pred (sym h));
    kept = refl;
  }

  -- A leaf that is not evaluated at a cost, and is at another.
  look :
      (cost : ℕ) (l : Leaf) (s : LeafState) (b late : Bool) (w : Outcome (List CandidateMatch))
      → Verdict l s b
      → Pending s w b
      → (late ≡ true → cost < cost_regexp)
      → ((ms : List CandidateMatch) → b ≡ non_empty ms → Verdict l (evaluate s ms).1 b)
      → LeafStep cost l s b
          (if late then ok (requires_higher_cost, s) else (w >>= λ ms. ok (evaluate s ms)))
  look cost l s b true w v p below settle = record {
    answer = requires_higher_cost;
    after = s;
    result = refl;
    verdict = v;
    right = inr (refl, below refl);
    kept = refl;
  }
  look cost l s b false w v (d, ms, q, h) below settle = record {
    answer = matches_state_for_slice ms;
    after = (evaluate s ms).1;
    result = rw q refl;
    verdict = settle ms h;
    right = inl (ap matches_state_pred (sym h));
    kept = refl;
  }

  skip :
      (cost : ℕ) (l : Leaf) (s : LeafState) (b : Bool) (x o : Outcome (MatchesState × LeafState))
      → s.evaluated ≡ false
      → LeafStep cost l s b o
      → LeafStep cost l s b (if s.evaluated then x else o)
  skip cost l s b x o d t = record {
    answer = t.answer;
    after = t.after;
    result = if_false s.evaluated x o d ∙ t.result;
    verdict = t.verdict;
    right = t.right;
    kept = t.kept;
  }

  substr_late :
      (cost : ℕ) (f : Bool)
      → ((f && ltb cost cost_memory) || ((if f then false else true) && ltb cost cost_content))
        ≡ true
      → cost < cost_regexp
  substr_late cost true h = ground arith
  substr_late cost false h = ground arith

  nothing : (ms : List CandidateMatch) → prune e cp [] ≡ ok ms → ms ≡ []
  unfolding prune
  nothing ms q = cc

  -- No candidates, no match.
  substr_matches :
      (cost : ℕ) (f : Bool) (s : LeafState) (b : Bool) (cs : List CandidateMatch)
      (w : Outcome (List CandidateMatch))
      → s.candidates ≡ cs
      → Verdict (substr f) s b
      → Pending s (prune e cp cs) b
      → LeafStep cost (substr f) s b (
          if non_empty cs
          then (if (f && ltb cost cost_memory)
                || ((if f then false else true) && ltb cost cost_content)
              then ok (requires_higher_cost, s)
              else (prune e cp cs >>= λ ms. ok (evaluate s ms)))
          else ok (none_found, s))
  substr_matches cost f s b [] w c v (d, ms, q, h) = record {
    answer = none_found;
    after = s;
    result = refl;
    verdict = v;
    right = inl (ap matches_state_pred (sym (h ∙ ap non_empty (nothing ms q))));
    kept = refl;
  }
  substr_matches cost f s b (m ∷ cs) w c v p =
      look cost (substr f) s b _ (prune e cp (m ∷ cs)) v p (substr_late cost f)
        (λ ms h. inl (refl, h))

  pub leaf_matches_lem :
      (cost : ℕ) (l : Leaf) (s : LeafState) (b : Bool)
      → Verdict l s b
      → LeafStep cost l s b (leaf_matches e cp cost l s)
  unfolding leaf_matches
  leaf_matches_lem cost no_match s b v = record {
    answer = none_found;
    after = s;
    result = refl;
    verdict = v;
    right = inl (ap matches_state_pred (sym v));
    kept = refl;
  }
  leaf_matches_lem cost brute_force s b v = record {
    answer = found;
    after = s;
    result = refl;
    verdict = v;
    right = inl (ap matches_state_pred (sym v));
    kept = refl;
  }
  leaf_matches_lem cost (doc num_docs predicate) s b v = record {
    answer = matches_state_pred (predicate cp.idx);
    after = s;
    result = refl;
    verdict = v;
    right = inl (ap matches_state_pred (sym v));
    kept = refl;
  }
  leaf_matches_lem cost (branch file_masks masks repos) s b (mask, p, h) = record {
    answer = matches_state_pred (ltb 0 mask);
    after = s;
    result = rw p refl;
    verdict = (mask, p, h);
    right = inl (ap matches_state_pred (sym h));
    kept = refl;
  }
  leaf_matches_lem cost (regexp re f) s b (inl d) = again cost (regexp re f) s b _ d (inl d)
  leaf_matches_lem cost (regexp re f) s b (inr p) = skip cost (regexp re f) s b _ _ p.0 (
      look cost (regexp re f) s b (ltb cost cost_regexp) (ok (regexp_found e cp re f)) (inr p) p
        (ltb→lt cost cost_regexp) (λ ms h. inl (refl, h)))
  leaf_matches_lem cost (word text f) s b (inl d) = again cost (word text f) s b _ d (inl d)
  leaf_matches_lem cost (word text f) s b (inr p) = skip cost (word text f) s b _ _ p.0 (
      look cost (word text f) s b (ltb cost cost_regexp) (word_found e cp text f) (inr p) p
        (ltb→lt cost cost_regexp) (λ ms h. inl (refl, h)))
  leaf_matches_lem cost (substr f) s b (inl d) = again cost (substr f) s b _ d (inl d)
  leaf_matches_lem cost (substr f) s b (inr p) =
      skip cost (substr f) s b _ _ p.0
        (substr_matches cost f s b s.candidates (prune e cp s.candidates) refl (inr p) p)
