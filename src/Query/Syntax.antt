-- ===== src/Query/Syntax.antt =====
-- The query language of query/query.go: the node types of a query tree, and what they take from
-- packages outside the repository.
use zoekt.Prelude.{ℕ, suc, ◌+◌, max, Bool, List}

-- Types of other packages that query nodes hold. `Regex` is `*syntax.Regexp`, `Compiled` is
-- `*regexp.Regexp`, `Bitmap` is `*roaring.Bitmap` and `Float` is `float64`.
pub record External : Type 1 where
  pub Regex : Type 0
  pub is_empty_match : Regex → Bool
  pub Compiled : Type 0
  pub Bitmap : Type 0
  pub is_empty : Bitmap → Bool
  pub Float : Type 0

-- The bytes of a Go string.
abbrev pub Text : Type 0
Text = List ℕ

-- The fields of `query.Substring`.
pub record SubstringQuery : Type 0 where
  pub pattern : Text
  pub case_sensitive : Bool
  pub file_name : Bool
  pub content : Bool

-- The fields of `query.Regexp`.
pub record RegexpQuery (E : External) : Type 0 where
  pub regexp : E.Regex
  pub file_name : Bool
  pub content : Bool
  pub case_sensitive : Bool

-- The node types without a child: those that `Map` and `flatten` leave as they are.
pub data Atom (E : External) : Type 0 where
  substring : SubstringQuery → Atom E
  regexp : RegexpQuery E → Atom E
  branch : Text → Bool → Atom E
  branches_repos : List (Text × E.Bitmap) → Atom E
  repo_ids : E.Bitmap → Atom E
  repo_set : List (Text × Bool) → Atom E
  file_name_set : List Text → Atom E
  raw_config : ℕ → Atom E
  language : Text → Atom E
  repo : E.Compiled → Atom E
  repo_regexp : E.Compiled → Atom E
  meta : Text → E.Compiled → Atom E
  case_q : Text → Atom E

-- `Q`. `Symbol` holds a query that `Map`, `flatten` and `evalConstants` do not enter.
mutual
  pub data Q (E : External) : Type 0 where
    const : Bool → Q E
    atom : Atom E → Q E
    symbol : Q E → Q E
    and : Children E → Q E
    or : Children E → Q E
    not : Q E → Q E
    type : Q E → ℕ → Q E
    boost : Q E → E.Float → Q E

  pub data Children (E : External) : Type 0 where
    nil : Children E
    cons : Q E → Children E → Children E

-- Measures of a tree, for the bounds on recursion.
unfoldable mutual
  pub depth : {E : External} → Q E → ℕ
  depth (const b) = 1
  depth (atom a) = 1
  depth (symbol q) = 1
  depth (and cs) = suc (depth_list cs)
  depth (or cs) = suc (depth_list cs)
  depth (not q) = suc (depth q)
  depth (type q t) = suc (depth q)
  depth (boost q f) = suc (depth q)

  pub depth_list : {E : External} → Children E → ℕ
  depth_list nil = 0
  depth_list (cons q cs) = max (depth q) (depth_list cs)

unfoldable mutual
  pub size : {E : External} → Q E → ℕ
  size (const b) = 1
  size (atom a) = 1
  size (symbol q) = 1
  size (and cs) = suc (size_list cs)
  size (or cs) = suc (size_list cs)
  size (not q) = suc (size q)
  size (type q t) = suc (size q)
  size (boost q f) = suc (size q)

  pub size_list : {E : External} → Children E → ℕ
  size_list nil = 0
  size_list (cons q cs) = size q + size_list cs
