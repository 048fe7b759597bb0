-- ===== src/Query/Constants/Same.antt =====
-- `evalConstants` keeps the meaning of a query.
use zoekt.Prelude.{ℕ, Bool, true, false, bool_eq, List, [], ◌∷◌, ◌≡◌, refl, sym, ap, ap₂, ◌∙◌}
use zoekt.Prelude.{◌⊎◌, inl, inr, if◌then◌else◌, arith}
use zoekt.Query.Syntax.{External, Text, Atom, substring, regexp, branch, branches_repos, repo_ids}
use zoekt.Query.Syntax.{repo_set, file_name_set, Q, Children}
use zoekt.Query.Syntax.{const, atom, symbol, and, or, not, type, boost, nil, cons}
use zoekt.Query.Meaning.{
  Document, IsSound, IsNamedBranch, HasNamedBranches, HaveNamedBranches, combine, meaning,
  meaning_list,
}
use zoekt.Query.Constants.{is_empty_list, eval_atom, keep_child, keep_children, rebuild}
use zoekt.Query.Constants.{eval_and_or_constants, eval_not, eval_type, eval_boost}
use zoekt.Query.Constants.{eval_constants}
use zoekt.Query.Constants.Pass.{pass, pass_list, eval_constants-eq-pass}

is_empty_list→eq {ℓ} : {A : Type ℓ} (l : List A) → is_empty_list l ≡ true → l ≡ []
is_empty_list→eq [] h = refl
is_empty_list→eq (x ∷ xs) h = cc

combine_decided : (b x m : Bool) → m ≡ bool_eq b false → combine b x m ≡ bool_eq b false
combine_decided b x m h = ground arith

module _ {E : External} (d : Document E) where
  -- The loop of `evalAndOrConstants` stands for the truth value `m`: an early return is the
  -- constant that decides.
  abbrev Stands : Bool → Q E ⊎ Children E → Bool → Type 0
  Stands b (inl q) m = (meaning d q ≡ bool_eq b false) × (m ≡ bool_eq b false)
  Stands b (inr cs) m = meaning_list d b cs ≡ m

  keep_child-Stands :
      (b : Bool) (q : Q E) (rest : Q E ⊎ Children E) (m : Bool)
      → Stands b rest m
      → Stands b (keep_child b q rest) (combine b (meaning d q) m)
  unfolding keep_child meaning
  keep_child-Stands true (const true) rest m h = h
  keep_child-Stands true (const false) rest m h = (refl, refl)
  keep_child-Stands false (const true) rest m h = (refl, refl)
  keep_child-Stands false (const false) rest m h = h
  keep_child-Stands b q (inr cs) m h = ap (combine b (meaning d q)) h
  keep_child-Stands b q (inl r) m h = (h.0, combine_decided b (meaning d q) m h.1)

  keep_children-Stands :
      (b : Bool) (cs : Children E) → Stands b (keep_children b cs) (meaning_list d b cs)
  unfolding keep_children meaning
  keep_children-Stands b nil = refl
  keep_children-Stands b (cons q cs) =
      keep_child-Stands b q (keep_children b cs) _ (keep_children-Stands b cs)

  meaning-rebuild :
      (b : Bool) (r : Q E ⊎ Children E) (m : Bool) → Stands b r m → meaning d (rebuild b r) ≡ m
  unfolding rebuild meaning
  meaning-rebuild b (inl q) m h = h.0 ∙ sym h.1
  meaning-rebuild b (inr nil) m h = h
  meaning-rebuild true (inr (cons q cs)) m h = h
  meaning-rebuild false (inr (cons q cs)) m h = h

  meaning-eval_and_or_constants :
      (b : Bool) (cs : Children E) → meaning d (eval_and_or_constants b cs) ≡ meaning_list d b cs
  unfolding eval_and_or_constants
  meaning-eval_and_or_constants b cs =
      meaning-rebuild b (keep_children b cs) _ (keep_children-Stands b cs)

  meaning-eval_not : (q : Q E) → meaning d (eval_not q) ≡ bool_eq (meaning d q) false
  unfolding eval_not meaning
  meaning-eval_not (const v) = refl
  meaning-eval_not q = refl

  meaning-eval_type : (q : Q E) (t : ℕ) → meaning d (eval_type q t) ≡ meaning d q
  unfolding eval_type meaning
  meaning-eval_type (const v) t = refl
  meaning-eval_type q t = refl

  meaning-eval_boost : (q : Q E) (b : E.Float) → meaning d (eval_boost q b) ≡ meaning d q
  unfolding eval_boost meaning
  meaning-eval_boost (const v) b = refl
  meaning-eval_boost q b = refl

  meaning-if :
      (b v : Bool) (a : Atom E)
      → (b ≡ true → d.holds a ≡ v)
      → meaning d (if b then const v else atom a) ≡ d.holds a
  unfolding meaning
  meaning-if true v a h = sym (h refl)
  meaning-if false v a h = refl

  module _ (s : IsSound d) where
    meaning-eval_branch :
        (p : Text) (x : Bool)
        → IsNamedBranch {E = E} (branch p x)
        → meaning d (eval_atom (branch p x)) ≡ d.holds (branch p x)
    unfolding eval_atom meaning
    meaning-eval_branch [] false h = sym s.empty_branch
    meaning-eval_branch [] true h = absurd h
    meaning-eval_branch (c ∷ p) x h = refl

    meaning-eval_atom : (a : Atom E) → IsNamedBranch a → meaning d (eval_atom a) ≡ d.holds a
    unfolding eval_atom meaning
    meaning-eval_atom (substring q) h =
        meaning-if _ _ (substring q) (λ e. s.empty_substring q (is_empty_list→eq q.pattern e))
    meaning-eval_atom (regexp q) h = meaning-if _ _ (regexp q) (s.empty_regexp q)
    meaning-eval_atom (branch p x) h = meaning-eval_branch p x h
    meaning-eval_atom (branches_repos l) h =
        meaning-if _ _ (branches_repos l) (s.empty_branches_repos l)
    meaning-eval_atom (repo_ids r) h = meaning-if _ _ (repo_ids r) (s.empty_repo_ids r)
    meaning-eval_atom (repo_set l) h =
        meaning-if _ _ (repo_set l) (λ e. rw (is_empty_list→eq l e) s.empty_repo_set)
    meaning-eval_atom (file_name_set l) h =
        meaning-if _ _ (file_name_set l) (λ e. rw (is_empty_list→eq l e) s.empty_file_name_set)
    meaning-eval_atom a h = refl

    mutual
      unfolding pass meaning

      meaning-pass : (q : Q E) → HasNamedBranches q → meaning d (pass q) ≡ meaning d q
      meaning-pass (const b) h = refl
      meaning-pass (atom a) h = meaning-eval_atom a h
      meaning-pass (symbol q) h = refl
      meaning-pass (and cs) h =
          meaning-eval_and_or_constants true (pass_list cs) ∙ meaning-pass_list true cs h
      meaning-pass (or cs) h =
          meaning-eval_and_or_constants false (pass_list cs) ∙ meaning-pass_list false cs h
      meaning-pass (not q) h =
          meaning-eval_not (pass q) ∙ ap (λ b. bool_eq b false) (meaning-pass q h)
      meaning-pass (type q t) h = meaning-eval_type (pass q) t ∙ meaning-pass q h
      meaning-pass (boost q b) h = meaning-eval_boost (pass q) b ∙ meaning-pass q h

      meaning-pass_list :
          (b : Bool) (cs : Children E)
          → HaveNamedBranches cs
          → meaning_list d b (pass_list cs) ≡ meaning_list d b cs
      meaning-pass_list b nil h = refl
      meaning-pass_list b (cons q cs) h =
          ap₂ (combine b) (meaning-pass q h.0) (meaning-pass_list b cs h.1)

    pub meaning-eval_constants :
        (q : Q E) → HasNamedBranches q → meaning d (eval_constants q) ≡ meaning d q
    meaning-eval_constants q h = rw (eval_constants-eq-pass q) (meaning-pass q h)
