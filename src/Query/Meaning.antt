-- ===== src/Query/Meaning.antt =====
-- What a query says of one document: whether it selects it. The result kind that a Type node asks
-- for and the score of a Boost node do not count.
use zoekt.Prelude.{Bool, true, false, bool_eq, ◌&&◌, ◌||◌, List, [], ◌≡◌}
use zoekt.Query.Syntax.{External, Text, SubstringQuery, RegexpQuery, Atom, Q, Children}
use zoekt.Query.Syntax.{
  substring, regexp, branch, branches_repos, repo_ids, repo_set, file_name_set,
}
use zoekt.Query.Syntax.{const, atom, symbol, and, or, not, type, boost, nil, cons}
use zoekt.Query.Constants.{no_repos}

-- The answers of one document to the nodes without a child.
pub record Document (E : External) : Type 0 where
  pub holds : Atom E → Bool
  pub holds_symbol : Q E → Bool

abbrev pub combine : Bool → Bool → Bool → Bool
combine true a b = a && b
combine false a b = a || b

unfoldable mutual
  pub meaning : {E : External} → Document E → Q E → Bool
  meaning d (const b) = b
  meaning d (atom a) = d.holds a
  meaning d (symbol q) = d.holds_symbol q
  meaning d (and cs) = meaning_list d true cs
  meaning d (or cs) = meaning_list d false cs
  meaning d (not q) = bool_eq (meaning d q) false
  meaning d (type q t) = meaning d q
  meaning d (boost q b) = meaning d q

  -- All of the children, or some.
  pub meaning_list : {E : External} → Document E → Bool → Children E → Bool
  meaning_list d is_and nil = is_and
  meaning_list d is_and (cons q cs) = combine is_and (meaning d q) (meaning_list d is_and cs)

-- The laws that the cases of `evalConstants` on single nodes rest on: an empty pattern, regular
-- expression or part of a branch's name selects every document, each being in a branch, and an
-- empty set none.
pub record IsSound {E : External} (d : Document E) : Type 0 where
  pub empty_substring : (s : SubstringQuery) → s.pattern ≡ [] → d.holds (substring s) ≡ true
  pub empty_regexp :
      (s : RegexpQuery E) → E.is_empty_match s.regexp ≡ true → d.holds (regexp s) ≡ true
  pub empty_branch : d.holds (branch [] false) ≡ true
  pub empty_branches_repos :
      (l : List (Text × E.Bitmap)) → no_repos E l ≡ true → d.holds (branches_repos l) ≡ false
  pub empty_repo_ids : (r : E.Bitmap) → E.is_empty r ≡ true → d.holds (repo_ids r) ≡ false
  pub empty_repo_set : d.holds (repo_set []) ≡ false
  pub empty_file_name_set : d.holds (file_name_set []) ≡ false

-- A query without the exact branch of the empty name, outside Symbol nodes. `evalConstants` folds
-- it to true, though it is to select the documents of a branch with that name.
abbrev pub IsNamedBranch : {E : External} → Atom E → Type 0
IsNamedBranch (branch [] true) = ⊥
IsNamedBranch a = Unit {0}

abbrev mutual
  pub HasNamedBranches : {E : External} → Q E → Type 0
  HasNamedBranches (const b) = Unit {0}
  HasNamedBranches (atom a) = IsNamedBranch a
  HasNamedBranches (symbol q) = Unit {0}
  HasNamedBranches (and cs) = HaveNamedBranches cs
  HasNamedBranches (or cs) = HaveNamedBranches cs
  HasNamedBranches (not q) = HasNamedBranches q
  HasNamedBranches (type q t) = HasNamedBranches q
  HasNamedBranches (boost q b) = HasNamedBranches q

  pub HaveNamedBranches : {E : External} → Children E → Type 0
  HaveNamedBranches nil = Unit {0}
  HaveNamedBranches (cons q cs) = HasNamedBranches q × HaveNamedBranches cs
