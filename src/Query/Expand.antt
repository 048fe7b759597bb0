-- ===== src/Query/Expand.antt =====
-- `Map` with `ExpandFileContent`, which index/eval.go and cmd/zoekt run before a search.
use zoekt.Prelude.{Bool, true, false, bool_eq, ◌||◌, ◌≡◌, refl, ap, ap₂, or_false, if◌then◌else◌}
use zoekt.Prelude.{Bool-cases, inl, inr, arith}
use zoekt.Query.Syntax.{External, Text, Atom, substring, regexp, Q, Children}
use zoekt.Query.Syntax.{const, atom, symbol, and, or, not, type, boost, nil, cons}
use zoekt.Query.Map.{map_query, map_query_list, expand_file_content}
use zoekt.Query.Meaning.{Document, combine, meaning, meaning_list}

-- A pattern that searches names or contents, and not both.
abbrev pub IsOneSided : {E : External} → Atom E → Type 0
IsOneSided (substring s) = bool_eq s.file_name s.content ≡ false
IsOneSided (regexp s) = bool_eq s.file_name s.content ≡ false
IsOneSided a = Unit {0}

abbrev mutual
  pub IsExpanded : {E : External} → Q E → Type 0
  IsExpanded (const b) = Unit {0}
  IsExpanded (atom a) = IsOneSided a
  IsExpanded (symbol q) = Unit {0}
  IsExpanded (and cs) = AreExpanded cs
  IsExpanded (or cs) = AreExpanded cs
  IsExpanded (not q) = IsExpanded q
  IsExpanded (type q t) = IsExpanded q
  IsExpanded (boost q b) = IsExpanded q

  pub AreExpanded : {E : External} → Children E → Type 0
  AreExpanded nil = Unit {0}
  AreExpanded (cons q cs) = IsExpanded q × AreExpanded cs

expand_atom-IsExpanded : {E : External} (a : Atom E) → IsExpanded (expand_file_content (atom a))
unfolding expand_file_content
expand_atom-IsExpanded (substring s) = elim (Bool-cases (bool_eq s.file_name s.content)) [
  | inl e ↦ rw e (refl, (refl, tt))
  | inr e ↦ rw e e
]
expand_atom-IsExpanded (regexp s) = elim (Bool-cases (bool_eq s.file_name s.content)) [
  | inl e ↦ rw e (refl, (refl, tt))
  | inr e ↦ rw e e
]
expand_atom-IsExpanded a = tt

mutual
  unfolding map_query expand_file_content

  tree-IsExpanded : {E : External} (q : Q E) → IsExpanded (map_query expand_file_content q)
  tree-IsExpanded (const b) = tt
  tree-IsExpanded (atom a) = expand_atom-IsExpanded a
  tree-IsExpanded (symbol q) = tt
  tree-IsExpanded (and cs) = expand-AreExpanded cs
  tree-IsExpanded (or cs) = expand-AreExpanded cs
  tree-IsExpanded (not q) = tree-IsExpanded q
  tree-IsExpanded (type q t) = tree-IsExpanded q
  tree-IsExpanded (boost q b) = tree-IsExpanded q

  expand-AreExpanded :
      {E : External} (cs : Children E) → AreExpanded (map_query_list expand_file_content cs)
  expand-AreExpanded nil = tt
  expand-AreExpanded (cons q cs) = (tree-IsExpanded q, expand-AreExpanded cs)

bool_eq→eq : (a b : Bool) → bool_eq a b ≡ true → a ≡ b
bool_eq→eq a b h = ground arith

-- After `Map` with `ExpandFileContent` every pattern outside a Symbol node searches either file
-- names or contents, and not both.
pub expand-IsExpanded : {E : External} (q : Q E) → IsExpanded (map_query expand_file_content q)
expand-IsExpanded q = tree-IsExpanded q

-- What a text search answers on the names and on the contents of documents, and the rest.
pub record Searches (E : External) : Type 0 where
  pub name_has : Text → Bool → Bool
  pub content_has : Text → Bool → Bool
  pub name_matches : E.Regex → Bool → Bool
  pub content_matches : E.Regex → Bool → Bool
  pub others : Atom E → Bool
  pub symbols : Q E → Bool

-- How the fields of a pattern are documented: only names, only contents, and, where both or none of
-- the two fields is set, names or contents.
abbrev pub as_documented : Bool → Bool → Bool → Bool → Bool
as_documented true false in_name in_content = in_name
as_documented false true in_name in_content = in_content
as_documented true true in_name in_content = in_name || in_content
as_documented false false in_name in_content = in_name || in_content

abbrev documented_atom : {E : External} → Searches E → Atom E → Bool
documented_atom a (substring s) =
    as_documented s.file_name s.content (a.name_has s.pattern s.case_sensitive)
      (a.content_has s.pattern s.case_sensitive)
documented_atom a (regexp r) =
    as_documented r.file_name r.content (a.name_matches r.regexp r.case_sensitive)
      (a.content_matches r.regexp r.case_sensitive)
documented_atom a x = a.others x

-- How a match tree reads them (`newSubstringMatchTree` and `newRegexpMatchTree` of
-- index/matchtree.go): the field for names alone decides.
abbrev executed_atom : {E : External} → Searches E → Atom E → Bool
executed_atom a (substring s) =
    if s.file_name
    then a.name_has s.pattern s.case_sensitive
    else a.content_has s.pattern s.case_sensitive
executed_atom a (regexp r) =
    if r.file_name
    then a.name_matches r.regexp r.case_sensitive
    else a.content_matches r.regexp r.case_sensitive
executed_atom a x = a.others x

abbrev pub documented : {E : External} → Searches E → Document E
documented a = record { holds = documented_atom a; holds_symbol = a.symbols }

abbrev pub executed : {E : External} → Searches E → Document E
executed a = record { holds = executed_atom a; holds_symbol = a.symbols }

module _ {E : External} (a : Searches E) where
  expand_substring :
      (p : Text) (k n c : Bool)
      → meaning (executed a) (
          expand_file_content (
            atom
              (substring (record { pattern = p; case_sensitive = k; file_name = n; content = c }))))
        ≡ as_documented n c (a.name_has p k) (a.content_has p k)
  unfolding expand_file_content meaning
  expand_substring p k true true = ap (λ b. a.name_has p k || b) (or_false _ _ refl)
  expand_substring p k false false = ap (λ b. a.name_has p k || b) (or_false _ _ refl)
  expand_substring p k true false = refl
  expand_substring p k false true = refl

  expand_regexp :
      (p : E.Regex) (k n c : Bool)
      → meaning (executed a) (
          expand_file_content
            (atom (regexp (record { regexp = p; file_name = n; content = c; case_sensitive = k }))))
        ≡ as_documented n c (a.name_matches p k) (a.content_matches p k)
  unfolding expand_file_content meaning
  expand_regexp p k true true = ap (λ b. a.name_matches p k || b) (or_false _ _ refl)
  expand_regexp p k false false = ap (λ b. a.name_matches p k || b) (or_false _ _ refl)
  expand_regexp p k true false = refl
  expand_regexp p k false true = refl

  meaning-expand_atom :
      (x : Atom E) → meaning (executed a) (expand_file_content (atom x)) ≡ documented_atom a x
  unfolding expand_file_content meaning
  meaning-expand_atom (substring s) =
      expand_substring s.pattern s.case_sensitive s.file_name s.content
  meaning-expand_atom (regexp r) = expand_regexp r.regexp r.case_sensitive r.file_name r.content
  meaning-expand_atom x = refl

  mutual
    unfolding map_query expand_file_content meaning

    tree-expand :
        (q : Q E)
        → meaning (executed a) (map_query expand_file_content q) ≡ meaning (documented a) q
    tree-expand (const b) = refl
    tree-expand (atom x) = meaning-expand_atom x
    tree-expand (symbol q) = refl
    tree-expand (and cs) = list-expand true cs
    tree-expand (or cs) = list-expand false cs
    tree-expand (not q) = ap (λ b. bool_eq b false) (tree-expand q)
    tree-expand (type q t) = tree-expand q
    tree-expand (boost q b) = tree-expand q

    list-expand :
        (is_and : Bool) (cs : Children E)
        → meaning_list (executed a) is_and (map_query_list expand_file_content cs)
          ≡ meaning_list (documented a) is_and cs
    list-expand is_and nil = refl
    list-expand is_and (cons q cs) = ap₂ (combine is_and) (tree-expand q) (list-expand is_and cs)

-- A query as its fields are documented, a pattern with both or none of them set searching names and
-- contents, selects the documents that the query selects after `Map` with `ExpandFileContent` when
-- the field for names alone is read, as a match tree reads it; what Symbol nodes and other atoms
-- answer is the same.
pub meaning-expand :
    {E : External} (a : Searches E) (q : Q E)
    → meaning (executed a) (map_query expand_file_content q) ≡ meaning (documented a) q
meaning-expand a q = tree-expand a q
