-- ===== src/Query/Map.antt =====
-- `Map`, `mapQueryList` and `ExpandFileContent` of query/query.go.
use zoekt.Prelude.{Bool, true, false, bool_eq, if◌then◌else◌}
use zoekt.Query.Syntax.{External, SubstringQuery, RegexpQuery, Q, Children}
use zoekt.Query.Syntax.{
  substring, regexp, const, atom, symbol, and, or, not, type, boost, nil, cons,
}

unfoldable mutual
  pub map_query : {E : External} → (Q E → Q E) → Q E → Q E
  map_query f (const b) = f (const b)
  map_query f (atom a) = f (atom a)
  map_query f (symbol q) = f (symbol q)
  map_query f (and cs) = f (and (map_query_list f cs))
  map_query f (or cs) = f (or (map_query_list f cs))
  map_query f (not q) = f (not (map_query f q))
  map_query f (type q t) = f (type (map_query f q) t)
  map_query f (boost q b) = f (boost (map_query f q) b)

  pub map_query_list : {E : External} → (Q E → Q E) → Children E → Children E
  map_query_list f nil = nil
  map_query_list f (cons q cs) = cons (map_query f q) (map_query_list f cs)

-- The copies `f` and `c` that search names only and contents only.
abbrev pub substring_in : {E : External} → SubstringQuery → Bool → Q E
substring_in s name = atom (substring (record s { file_name = name; content = bool_eq name false }))

abbrev pub regexp_in : {E : External} → RegexpQuery E → Bool → Q E
regexp_in s name = atom (regexp (record s { file_name = name; content = bool_eq name false }))

unfoldable pub expand_file_content : {E : External} → Q E → Q E
expand_file_content (atom (substring s)) =
    if bool_eq s.file_name s.content
    then or (cons (substring_in s true) (cons (substring_in s false) nil))
    else atom (substring s)
expand_file_content (atom (regexp s)) =
    if bool_eq s.file_name s.content
    then or (cons (regexp_in s true) (cons (regexp_in s false) nil))
    else atom (regexp s)
expand_file_content q = q
