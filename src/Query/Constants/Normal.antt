-- ===== src/Query/Constants/Normal.antt =====
-- What `evalConstants` leaves: trees with no constant below the root and no atom that is constant.
use zoekt.Prelude.{ℕ, Bool, true, false, ◌≡◌, refl, ◌⊎◌, inl, inr}
use zoekt.Prelude.{if◌then◌else◌}
use zoekt.Query.Syntax.{External, Atom, substring, regexp, branch, branches_repos, repo_ids}
use zoekt.Query.Syntax.{repo_set, file_name_set, Q, Children}
use zoekt.Query.Syntax.{const, atom, symbol, and, or, not, type, boost, nil, cons}
use zoekt.Query.Constants.{eval_atom, keep_child, keep_children, rebuild, eval_and_or_constants}
use zoekt.Query.Constants.{eval_not, eval_type, eval_boost}

abbrev pub NotConst : {E : External} → Q E → Type 0
NotConst (const b) = ⊥
NotConst q = Unit {0}

abbrev pub NonEmpty : {E : External} → Children E → Type 0
NonEmpty nil = ⊥
NonEmpty (cons q cs) = Unit {0}

abbrev mutual
  pub IsFolded : {E : External} → Q E → Type 0
  IsFolded (const b) = Unit {0}
  IsFolded (atom a) = eval_atom a ≡ atom a
  IsFolded (symbol q) = Unit {0}
  IsFolded (and cs) = NonEmpty cs × IsKept cs
  IsFolded (or cs) = NonEmpty cs × IsKept cs
  IsFolded (not q) = NotConst q × IsFolded q
  IsFolded (type q t) = NotConst q × IsFolded q
  IsFolded (boost q b) = NotConst q × IsFolded q

  -- Children of a folded And or Or.
  pub IsKept : {E : External} → Children E → Type 0
  IsKept nil = Unit {0}
  IsKept (cons q cs) = NotConst q × IsFolded q × IsKept cs

abbrev pub AllFolded : {E : External} → Children E → Type 0
AllFolded nil = Unit {0}
AllFolded (cons q cs) = IsFolded q × AllFolded cs

-- What the loop of `evalAndOrConstants` hands on.
abbrev IsOutcome : {E : External} → Q E ⊎ Children E → Type 0
IsOutcome (inl q) = IsFolded q
IsOutcome (inr cs) = IsKept cs

keep_child-IsOutcome :
    {E : External} (b : Bool) (q : Q E) (rest : Q E ⊎ Children E)
    → IsFolded q
    → IsOutcome rest
    → IsOutcome (keep_child b q rest)
unfolding keep_child
keep_child-IsOutcome true (const true) rest hq h = h
keep_child-IsOutcome true (const false) rest hq h = tt
keep_child-IsOutcome false (const true) rest hq h = tt
keep_child-IsOutcome false (const false) rest hq h = h
keep_child-IsOutcome b q (inl d) hq h = h
keep_child-IsOutcome b q (inr ks) hq h = (tt, hq, h)

keep_children-IsOutcome :
    {E : External} (b : Bool) (cs : Children E) → AllFolded cs → IsOutcome (keep_children b cs)
unfolding keep_children
keep_children-IsOutcome b nil h = tt
keep_children-IsOutcome b (cons q cs) h =
    keep_child-IsOutcome b q (keep_children b cs) h.0 (keep_children-IsOutcome b cs h.1)

rebuild-IsFolded :
    {E : External} (b : Bool) (r : Q E ⊎ Children E) → IsOutcome r → IsFolded (rebuild b r)
unfolding rebuild
rebuild-IsFolded b (inl q) h = h
rebuild-IsFolded b (inr nil) h = tt
rebuild-IsFolded true (inr (cons q cs)) h = (tt, h)
rebuild-IsFolded false (inr (cons q cs)) h = (tt, h)

pub eval_and_or_constants-IsFolded :
    {E : External} (b : Bool) (cs : Children E)
    → AllFolded cs
    → IsFolded (eval_and_or_constants b cs)
unfolding eval_and_or_constants
eval_and_or_constants-IsFolded b cs h =
    rebuild-IsFolded b (keep_children b cs) (keep_children-IsOutcome b cs h)

pub eval_not-IsFolded : {E : External} (q : Q E) → IsFolded q → IsFolded (eval_not q)
unfolding eval_not
eval_not-IsFolded (const v) h = tt
eval_not-IsFolded q h = (tt, h)

pub eval_type-IsFolded : {E : External} (q : Q E) (t : ℕ) → IsFolded q → IsFolded (eval_type q t)
unfolding eval_type
eval_type-IsFolded (const v) t h = tt
eval_type-IsFolded q t h = (tt, h)

pub eval_boost-IsFolded :
    {E : External} (q : Q E) (b : E.Float) → IsFolded q → IsFolded (eval_boost q b)
unfolding eval_boost
eval_boost-IsFolded (const v) b h = tt
eval_boost-IsFolded q b h = (tt, h)

keep_child_kept :
    {E : External} (b : Bool) (q : Q E) (cs : Children E)
    → NotConst q
    → keep_child b q (inr cs) ≡ inr (cons q cs)
unfolding keep_child
keep_child_kept b (const v) cs h = absurd h
keep_child_kept b q cs h = refl

-- On such trees the loop keeps every child.
pub keep_children_kept :
    {E : External} (b : Bool) (cs : Children E) → IsKept cs → keep_children b cs ≡ inr cs
unfolding keep_children
keep_children_kept b nil h = refl
keep_children_kept b (cons q cs) (c, f, h) =
    rw (keep_children_kept b cs h) (keep_child_kept b q cs c)

pub eval_and_kept :
    {E : External} (cs : Children E)
    → NonEmpty cs
    → IsKept cs
    → eval_and_or_constants true cs ≡ and cs
unfolding eval_and_or_constants
eval_and_kept nil n h = absurd n
eval_and_kept (cons q cs) n h = rw (keep_children_kept true (cons q cs) h)

pub eval_or_kept :
    {E : External} (cs : Children E)
    → NonEmpty cs
    → IsKept cs
    → eval_and_or_constants false cs ≡ or cs
unfolding eval_and_or_constants
eval_or_kept nil n h = absurd n
eval_or_kept (cons q cs) n h = rw (keep_children_kept false (cons q cs) h)

pub eval_not_kept : {E : External} (q : Q E) → NotConst q → eval_not q ≡ not q
unfolding eval_not
eval_not_kept (const v) n = absurd n
eval_not_kept q n = refl

pub eval_type_kept : {E : External} (q : Q E) (t : ℕ) → NotConst q → eval_type q t ≡ type q t
unfolding eval_type
eval_type_kept (const v) t n = absurd n
eval_type_kept q t n = refl

pub eval_boost_kept :
    {E : External} (q : Q E) (b : E.Float) → NotConst q → eval_boost q b ≡ boost q b
unfolding eval_boost
eval_boost_kept (const v) b n = absurd n
eval_boost_kept q b n = refl

atom_test-IsFolded :
    {E : External} (b v : Bool) (a : Atom E)
    → (b ≡ false → eval_atom a ≡ atom a)
    → IsFolded (if b then const v else atom a)
atom_test-IsFolded true v a h = tt
atom_test-IsFolded false v a h = h refl

-- Folding an atom again changes nothing.
pub eval_atom-IsFolded : {E : External} (a : Atom E) → IsFolded (eval_atom a)
unfolding eval_atom
eval_atom-IsFolded (substring s) = atom_test-IsFolded _ _ (substring s) (λ e. rw e)
eval_atom-IsFolded (regexp s) = atom_test-IsFolded _ _ (regexp s) (λ e. rw e)
eval_atom-IsFolded (branch p x) = atom_test-IsFolded _ _ (branch p x) (λ e. rw e)
eval_atom-IsFolded (branches_repos l) = atom_test-IsFolded _ _ (branches_repos l) (λ e. rw e)
eval_atom-IsFolded (repo_ids r) = atom_test-IsFolded _ _ (repo_ids r) (λ e. rw e)
eval_atom-IsFolded (repo_set l) = atom_test-IsFolded _ _ (repo_set l) (λ e. rw e)
eval_atom-IsFolded (file_name_set l) = atom_test-IsFolded _ _ (file_name_set l) (λ e. rw e)
eval_atom-IsFolded a = refl
