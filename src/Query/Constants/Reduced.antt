-- ===== src/Query/Constants/Reduced.antt =====
-- What constant folding (`evalConstants` of query/query.go) is to give: each node's constant, if it
-- has one, said by itself.
use zoekt.Prelude.{
  ℕ, Bool, true, false, bool_eq, ◌&&◌, ◌||◌, List, [], ◌∷◌, Option, none, some, ◌≡◌, refl, sym, ap,
  ap₂, ◌∙◌, if◌then◌else◌, if_true, if_false, Bool-cases, inl, inr,
}
use zoekt.Query.Syntax.{
  External, Text, Atom, substring, regexp, branch, branches_repos, repo_ids, repo_set,
  file_name_set, raw_config, language, repo, repo_regexp, meta, case_q, Q, Children, const, atom,
  symbol, and, or, not, type, boost, nil, cons,
}
use zoekt.Query.Constants.{
  is_empty_list, no_repos, eval_atom, keep_children, rebuild, eval_and_or_constants, eval_not,
  eval_type, eval_boost, eval_constants,
}
use zoekt.Query.Constants.Pass.{pass, pass_list, eval_constants-eq-pass}

-- The constant that an empty list stands for.
abbrev if_none : {A : Type 0} → Bool → List A → Option Bool
if_none v [] = some v
if_none v (x ∷ xs) = none

abbrev if_so : Bool → Bool → Option Bool
if_so v true = some v
if_so v false = none

abbrev all_empty : (E : External) → List (Text × E.Bitmap) → Bool
all_empty E [] = true
all_empty E ((name, b) ∷ l) = E.is_empty b && all_empty E l

-- An empty pattern, expression or branch is true, and an empty set is false.
unfoldable pub atom_constant : {E : External} → Atom E → Option Bool
atom_constant (substring s) = if_none true s.pattern
atom_constant {E} (regexp r) = if_so true (E.is_empty_match r.regexp)
atom_constant (branch p exact) = if_none true p
atom_constant {E} (branches_repos l) = if_so false (all_empty E l)
atom_constant {E} (repo_ids b) = if_so false (E.is_empty b)
atom_constant (repo_set s) = if_none false s
atom_constant (file_name_set s) = if_none false s
atom_constant (raw_config r) = none
atom_constant (language l) = none
atom_constant (repo r) = none
atom_constant (repo_regexp r) = none
atom_constant (meta field value) = none
atom_constant (case_q flavor) = none

unfoldable pub reduced_atom : {E : External} → Atom E → Q E
unfolding atom_constant
reduced_atom a = elim (atom_constant a) [ some v ↦ const v | none ↦ atom a ]

-- Whether the constant `v` is among children, and the children that are not that constant.
unfoldable pub has_const : {E : External} → Bool → Children E → Bool
has_const v nil = false
has_const v (cons (const w) cs) = bool_eq v w || has_const v cs
has_const v (cons q cs) = has_const v cs

unfoldable pub without : {E : External} → Bool → Children E → Children E
without v nil = nil
without v (cons (const w) cs) =
    let rest = without v cs in if bool_eq v w then rest else cons (const w) rest
without v (cons q cs) = cons q (without v cs)

-- False if a child is, and true if all are; else the children that are not constants.
unfoldable pub reduced_and : {E : External} → Children E → Q E
unfolding has_const without
reduced_and cs =
    if has_const false cs
    then const false
    else (elim (without true cs) [ nil ↦ const true | cons q qs ↦ and (cons q qs) ])

-- True if a child is, and false if all are; else the children that are not constants.
unfoldable pub reduced_or : {E : External} → Children E → Q E
unfolding has_const without
reduced_or cs =
    if has_const true cs
    then const true
    else (elim (without false cs) [ nil ↦ const false | cons q qs ↦ or (cons q qs) ])

unfoldable pub reduced_not : {E : External} → Q E → Q E
reduced_not (const true) = const false
reduced_not (const false) = const true
reduced_not q = not q

unfoldable pub reduced_type : {E : External} → Q E → ℕ → Q E
reduced_type (const true) t = const true
reduced_type (const false) t = const false
reduced_type q t = type q t

unfoldable pub reduced_boost : {E : External} → Q E → E.Float → Q E
reduced_boost (const true) b = const true
reduced_boost (const false) b = const false
reduced_boost q b = boost q b

-- One pass from the leaves to the root.
unfoldable mutual
  unfolding reduced_atom reduced_and reduced_or reduced_not reduced_type reduced_boost

  pub reduced : {E : External} → Q E → Q E
  reduced (const b) = const b
  reduced (atom a) = reduced_atom a
  reduced (symbol q) = symbol q
  reduced (and cs) = reduced_and (reduced_list cs)
  reduced (or cs) = reduced_or (reduced_list cs)
  reduced (not q) = reduced_not (reduced q)
  reduced (type q t) = reduced_type (reduced q) t
  reduced (boost q b) = reduced_boost (reduced q) b

  pub reduced_list : {E : External} → Children E → Children E
  reduced_list nil = nil
  reduced_list (cons q cs) = cons (reduced q) (reduced_list cs)

no_repos-eq-all_empty : (E : External) (l : List (Text × E.Bitmap)) → no_repos E l ≡ all_empty E l
unfolding no_repos
no_repos-eq-all_empty E [] = refl
no_repos-eq-all_empty E ((name, b) ∷ l) = elim (Bool-cases (E.is_empty b)) [
  | inl e ↦ rw e (no_repos-eq-all_empty E l)
  | inr e ↦ rw e refl
]

if_so-const :
    {E : External} (v b : Bool) (q : Q E)
    → (if b then const v else q) ≡ (elim (if_so v b) [ some w ↦ const w | none ↦ q ])
if_so-const v true q = refl
if_so-const v false q = refl

none-const :
    {E : External} {A : Type 0} (l : List A) (q : Q E)
    → (if is_empty_list l then const true else q)
      ≡ (elim (if_none true l) [ some w ↦ const w | none ↦ q ])
none-const [] q = refl
none-const (x ∷ l) q = refl

eval_atom-eq-reduced_atom : {E : External} (a : Atom E) → eval_atom a ≡ reduced_atom a
unfolding eval_atom reduced_atom
eval_atom-eq-reduced_atom (substring s) = none-const s.pattern (atom (substring s))
eval_atom-eq-reduced_atom {E} (regexp r) =
    if_so-const true (E.is_empty_match r.regexp) (atom (regexp r))
eval_atom-eq-reduced_atom (branch [] exact) = refl
eval_atom-eq-reduced_atom (branch (x ∷ p) exact) = refl
eval_atom-eq-reduced_atom {E} (branches_repos l) =
    ap (λ b. if b then const false else atom (branches_repos l)) (no_repos-eq-all_empty E l)
    ∙ if_so-const false (all_empty E l) (atom (branches_repos l))
eval_atom-eq-reduced_atom {E} (repo_ids b) = if_so-const false (E.is_empty b) (atom (repo_ids b))
eval_atom-eq-reduced_atom (repo_set []) = refl
eval_atom-eq-reduced_atom (repo_set (x ∷ s)) = refl
eval_atom-eq-reduced_atom (file_name_set []) = refl
eval_atom-eq-reduced_atom (file_name_set (x ∷ s)) = refl
eval_atom-eq-reduced_atom a = refl

-- The loop of `evalAndOrConstants`, when a child decides and when none does.
keep-decided :
    {E : External} (b : Bool) (cs : Children E)
    → has_const (bool_eq b false) cs ≡ true
    → keep_children b cs ≡ inl (const (bool_eq b false))
unfolding keep_children has_const
keep-decided b nil h = cc
keep-decided true (cons (const true) cs) h = keep-decided true cs h
keep-decided true (cons (const false) cs) h = refl
keep-decided false (cons (const true) cs) h = refl
keep-decided false (cons (const false) cs) h = keep-decided false cs h
keep-decided b (cons q cs) h = rw (keep-decided b cs h) refl

keep-without :
    {E : External} (b : Bool) (cs : Children E)
    → has_const (bool_eq b false) cs ≡ false
    → keep_children b cs ≡ inr (without b cs)
unfolding keep_children has_const without
keep-without b nil h = refl
keep-without true (cons (const true) cs) h = keep-without true cs h
keep-without true (cons (const false) cs) h = cc
keep-without false (cons (const true) cs) h = cc
keep-without false (cons (const false) cs) h = keep-without false cs h
keep-without b (cons q cs) h = rw (keep-without b cs h) refl

eval_and-eq-reduced_and :
    {E : External} (cs : Children E) → eval_and_or_constants true cs ≡ reduced_and cs
unfolding eval_and_or_constants reduced_and
eval_and-eq-reduced_and {E} cs = elim (Bool-cases (has_const false cs)) [
  | inl e ↦ ap (rebuild true) (keep-decided true cs e) ∙ sym (if_true (has_const false cs) _ _ e)
  | inr e ↦
      ap (rebuild true) (keep-without true cs e)
      ∙ built (without true cs)
      ∙ sym (if_false (has_const false cs) _ _ e)
]
  where
    built :
        (qs : Children E)
        → rebuild true (inr qs) ≡ (elim qs [ nil ↦ const true | cons q r ↦ and (cons q r) ])
    built nil = refl
    built (cons q r) = refl

eval_or-eq-reduced_or :
    {E : External} (cs : Children E) → eval_and_or_constants false cs ≡ reduced_or cs
unfolding eval_and_or_constants reduced_or
eval_or-eq-reduced_or {E} cs = elim (Bool-cases (has_const true cs)) [
  | inl e ↦ ap (rebuild false) (keep-decided false cs e) ∙ sym (if_true (has_const true cs) _ _ e)
  | inr e ↦
      ap (rebuild false) (keep-without false cs e)
      ∙ built (without false cs)
      ∙ sym (if_false (has_const true cs) _ _ e)
]
  where
    built :
        (qs : Children E)
        → rebuild false (inr qs) ≡ (elim qs [ nil ↦ const false | cons q r ↦ or (cons q r) ])
    built nil = refl
    built (cons q r) = refl

eval_not-eq-reduced_not : {E : External} (q : Q E) → eval_not q ≡ reduced_not q
unfolding eval_not reduced_not
eval_not-eq-reduced_not (const true) = refl
eval_not-eq-reduced_not (const false) = refl
eval_not-eq-reduced_not q = refl

eval_type-eq-reduced_type : {E : External} (q : Q E) (t : ℕ) → eval_type q t ≡ reduced_type q t
unfolding eval_type reduced_type
eval_type-eq-reduced_type (const true) t = refl
eval_type-eq-reduced_type (const false) t = refl
eval_type-eq-reduced_type q t = refl

eval_boost-eq-reduced_boost :
    {E : External} (q : Q E) (b : E.Float) → eval_boost q b ≡ reduced_boost q b
unfolding eval_boost reduced_boost
eval_boost-eq-reduced_boost (const true) b = refl
eval_boost-eq-reduced_boost (const false) b = refl
eval_boost-eq-reduced_boost q b = refl

mutual
  unfolding pass reduced

  pass-eq-reduced : {E : External} (q : Q E) → pass q ≡ reduced q
  pass-eq-reduced (const b) = refl
  pass-eq-reduced (atom a) = eval_atom-eq-reduced_atom a
  pass-eq-reduced (symbol q) = refl
  pass-eq-reduced (and cs) =
      ap (eval_and_or_constants true) (pass_list-eq-reduced_list cs)
      ∙ eval_and-eq-reduced_and (reduced_list cs)
  pass-eq-reduced (or cs) =
      ap (eval_and_or_constants false) (pass_list-eq-reduced_list cs)
      ∙ eval_or-eq-reduced_or (reduced_list cs)
  pass-eq-reduced (not q) = ap eval_not (pass-eq-reduced q) ∙ eval_not-eq-reduced_not (reduced q)
  pass-eq-reduced (type q t) =
      ap (λ r. eval_type r t) (pass-eq-reduced q) ∙ eval_type-eq-reduced_type (reduced q) t
  pass-eq-reduced (boost q b) =
      ap (λ r. eval_boost r b) (pass-eq-reduced q) ∙ eval_boost-eq-reduced_boost (reduced q) b

  pass_list-eq-reduced_list : {E : External} (cs : Children E) → pass_list cs ≡ reduced_list cs
  pass_list-eq-reduced_list nil = refl
  pass_list-eq-reduced_list (cons q cs) =
      ap₂ cons (pass-eq-reduced q) (pass_list-eq-reduced_list cs)

-- `evalConstants`, which folds each subtree again at every level through `Map`, gives what one pass
-- from the leaves to the root gives: empty patterns, expressions and branches are true, empty sets
-- false, an And with a false child is false, without its true children it is what is left of it,
-- and true if nothing is; an Or the other way round; a Not of a constant is the other one, and a
-- Type or a Boost of a constant is the constant. Symbols stay as they are.
pub eval_constants-eq-reduced : {E : External} (q : Q E) → eval_constants q ≡ reduced q
eval_constants-eq-reduced q = eval_constants-eq-pass q ∙ pass-eq-reduced q
