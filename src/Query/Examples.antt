-- ===== src/Query/Examples.antt =====
-- Runs of the query transformations, and the theorems at concrete queries.
use zoekt.Prelude.{ℕ, Bool, true, false, ◌==◌, ◌||◌, ◌&&◌, some}
use zoekt.Prelude.{List, [], ◌∷◌, ◌≡◌, refl}
use zoekt.Query.Syntax.{External, Atom, Q}
use zoekt.Query.Syntax.{substring, regexp, branch}
use zoekt.Query.Syntax.{atom, and, or, not, nil, cons}
use zoekt.Query.Map.{map_query, expand_file_content}
use zoekt.Query.Constants.{is_empty_list, eval_constants}
use zoekt.Query.Constants.Reduced.{reduced, eval_constants-eq-reduced}
use zoekt.Query.Flatten.{simplify}
use zoekt.Query.Meaning.{Document, IsSound, HasNamedBranches, meaning}
use zoekt.Query.Simplify.{meaning-simplify, simplify-simplify}
use zoekt.Query.Expand.{
  IsExpanded, expand-IsExpanded, Searches, documented, executed, meaning-expand,
}

-- Regular expressions and bitmaps as lists, which are empty or not.
abbrev lists : External
lists = record {
  Regex = List ℕ;
  is_empty_match = is_empty_list;
  Compiled = List ℕ;
  Bitmap = List ℕ;
  is_empty = is_empty_list;
  Float = ℕ;
}

abbrev has_prefix : List ℕ → List ℕ → Bool
has_prefix [] t = true
has_prefix (x ∷ p) [] = false
has_prefix (x ∷ p) (y ∷ t) = (x == y) && has_prefix p t

abbrev in_name_or_content : List ℕ → Bool → Bool → Bool
in_name_or_content p true false = has_prefix p (1 ∷ 2 ∷ [])
in_name_or_content p false true = has_prefix p (3 ∷ 4 ∷ [])
in_name_or_content p _ _ = has_prefix p (1 ∷ 2 ∷ []) || has_prefix p (3 ∷ 4 ∷ [])

-- The name of the branch of a document, and whether it holds a text.
abbrev main : List ℕ
main = 9 ∷ 8 ∷ 7 ∷ []

abbrev contains : List ℕ → List ℕ → Bool
contains p [] = is_empty_list p
contains p (x ∷ t) = has_prefix p (x ∷ t) || contains p t

-- A document in no repository set and on one branch, whose name begins with 1, 2 and whose content
-- with 3, 4.
abbrev answers : Atom lists → Bool
answers (substring s) = in_name_or_content s.pattern s.file_name s.content
answers (regexp s) = in_name_or_content s.regexp s.file_name s.content
answers (branch p true) = has_prefix p main && has_prefix main p
answers (branch p false) = contains p main
answers a = false

abbrev doc : Document lists
doc = record { holds = answers; holds_symbol = λ q. false }

answers-empty : (p : List ℕ) (a b : Bool) → is_empty_list p ≡ true → in_name_or_content p a b ≡ true
answers-empty [] true true h = refl
answers-empty [] true false h = refl
answers-empty [] false true h = refl
answers-empty [] false false h = refl
answers-empty (x ∷ p) a b h = cc

doc-IsSound : IsSound doc
doc-IsSound = record {
  empty_substring = λ s e. answers-empty s.pattern s.file_name s.content (rw e refl);
  empty_regexp = λ s e. answers-empty s.regexp s.file_name s.content e;
  empty_branch = refl;
  empty_branches_repos = λ l e. refl;
  empty_repo_ids = λ r e. refl;
  empty_repo_set = refl;
  empty_file_name_set = refl;
}

abbrev word : List ℕ → Q lists
word p =
    atom (
      substring
        (record { pattern = p; case_sensitive = false; file_name = false; content = false }))

-- (and (and "1" "" branch:"") (or (not (or)) "3") (and "3"))
abbrev sample : Q lists
sample = and (
    cons (and (cons (word (1 ∷ [])) (cons (word []) (cons (atom (branch [] false)) nil)))) (
      cons (or (cons (not (or nil)) (cons (word (3 ∷ [])) nil)))
        (cons (and (cons (word (3 ∷ [])) nil)) nil)))

abbrev simplified : Q lists
simplified = and (cons (word (1 ∷ [])) (cons (word (3 ∷ [])) nil))

simplify-sample : simplify sample ≡ some simplified
unfolding simplify
simplify-sample = refl

sample_named : HasNamedBranches sample
sample_named = ((tt, (tt, (tt, tt))), ((tt, (tt, tt)), ((tt, tt), tt)))

eval_constants-eq-reduced_example : eval_constants sample ≡ reduced sample
eval_constants-eq-reduced_example = eval_constants-eq-reduced sample

meaning-simplify_example : meaning doc simplified ≡ meaning doc sample
meaning-simplify_example =
    meaning-simplify doc doc-IsSound sample simplified sample_named simplify-sample

simplify-simplify_example : simplify simplified ≡ some simplified
simplify-simplify_example = simplify-simplify sample simplified simplify-sample

expand-IsExpanded_example : IsExpanded (map_query expand_file_content sample)
expand-IsExpanded_example = expand-IsExpanded sample

-- The answers of the same document.
abbrev searches : Searches lists
searches = record {
  name_has = λ p k. in_name_or_content p true false;
  content_has = λ p k. in_name_or_content p false true;
  name_matches = λ p k. in_name_or_content p true false;
  content_matches = λ p k. in_name_or_content p false true;
  others = answers;
  symbols = λ q. false;
}

meaning-expand_example :
    meaning (executed searches) (map_query expand_file_content sample)
    ≡ meaning (documented searches) sample
meaning-expand_example = meaning-expand searches sample
