-- ===== src/Query/Constants.antt =====
-- `evalConstants`, `evalAndOrConstants` and `invertConst` of query/query.go.
pub mod Pass
pub mod Reduced
pub mod Normal
mod Depth
pub mod Same
use zoekt.Prelude.{ℕ, zero, suc, Bool, true, false, bool_eq, if◌then◌else◌, List, [], ◌∷◌}
use zoekt.Prelude.{◌⊎◌, inl, inr}
use zoekt.Query.Syntax.{External, Text, Atom, substring, regexp, branch, branches_repos, repo_ids}
use zoekt.Query.Syntax.{repo_set, file_name_set, Q, Children, depth}
use zoekt.Query.Syntax.{const, atom, symbol, and, or, not, type, boost, nil, cons}
use zoekt.Query.Map.{map_query_list}

-- `len(s) == 0`
abbrev pub is_empty_list {ℓ} : {A : Type ℓ} → List A → Bool
is_empty_list [] = true
is_empty_list (x ∷ xs) = false

unfoldable pub no_repos : (E : External) → List (Text × E.Bitmap) → Bool
no_repos E [] = true
no_repos E ((b, r) ∷ l) = if E.is_empty r then no_repos E l else false

-- The cases of `evalConstants` on nodes without a child.
unfoldable pub eval_atom : {E : External} → Atom E → Q E
unfolding no_repos
eval_atom (substring s) = if is_empty_list s.pattern then const true else atom (substring s)
eval_atom {E} (regexp s) = if E.is_empty_match s.regexp then const true else atom (regexp s)
eval_atom (branch p e) = if is_empty_list p then const true else atom (branch p e)
eval_atom {E} (branches_repos l) = if no_repos E l then const false else atom (branches_repos l)
eval_atom {E} (repo_ids r) = if E.is_empty r then const false else atom (repo_ids r)
eval_atom (repo_set s) = if is_empty_list s then const false else atom (repo_set s)
eval_atom (file_name_set s) = if is_empty_list s then const false else atom (file_name_set s)
eval_atom a = atom a

-- One turn of the loop of `evalAndOrConstants`: the early return of a deciding constant, or the
-- children kept.
unfoldable pub keep_child : {E : External} → Bool → Q E → Q E ⊎ Children E → Q E ⊎ Children E
keep_child is_and (const v) rest = if bool_eq v is_and then rest else inl (const v)
keep_child is_and ch (inl decided) = inl decided
keep_child is_and ch (inr kept) = inr (cons ch kept)

unfoldable pub keep_children : {E : External} → Bool → Children E → Q E ⊎ Children E
unfolding keep_child
keep_children is_and nil = inr nil
keep_children is_and (cons ch rest) = keep_child is_and ch (keep_children is_and rest)

unfoldable pub rebuild : {E : External} → Bool → Q E ⊎ Children E → Q E
rebuild is_and (inl decided) = decided
rebuild is_and (inr nil) = const is_and
rebuild is_and (inr (cons q cs)) = if is_and then and (cons q cs) else or (cons q cs)

-- `evalAndOrConstants`, after `mapQueryList`.
unfoldable pub eval_and_or_constants : {E : External} → Bool → Children E → Q E
unfolding keep_children rebuild
eval_and_or_constants is_and children = rebuild is_and (keep_children is_and children)

abbrev pub invert_const : {E : External} → Q E → Q E
invert_const (const v) = const (bool_eq v false)
invert_const q = q

unfoldable pub eval_not : {E : External} → Q E → Q E
eval_not (const v) = invert_const (const v)
eval_not ch = not ch

unfoldable pub eval_type : {E : External} → Q E → ℕ → Q E
eval_type (const v) t = const v
eval_type ch t = type ch t

unfoldable pub eval_boost : {E : External} → Q E → E.Float → Q E
eval_boost (const v) b = const v
eval_boost ch b = boost ch b

-- `evalConstants`. It calls itself on the results of `Map`, which are no subtrees, so it is given
-- the number of nested calls allowed; `Pass.eval_constants-eq-pass` shows that the depth is enough.
unfoldable pub eval_constants_fuel : {E : External} → ℕ → Q E → Q E
unfolding eval_atom eval_and_or_constants eval_not eval_type eval_boost map_query_list
eval_constants_fuel zero q = q
eval_constants_fuel (suc n) (and cs) =
    eval_and_or_constants true (map_query_list (eval_constants_fuel n) cs)
eval_constants_fuel (suc n) (or cs) =
    eval_and_or_constants false (map_query_list (eval_constants_fuel n) cs)
eval_constants_fuel (suc n) (not q) = eval_not (eval_constants_fuel n q)
eval_constants_fuel (suc n) (type q t) = eval_type (eval_constants_fuel n q) t
eval_constants_fuel (suc n) (boost q b) = eval_boost (eval_constants_fuel n q) b
eval_constants_fuel (suc n) (atom a) = eval_atom a
eval_constants_fuel (suc n) (const b) = const b
eval_constants_fuel (suc n) (symbol q) = symbol q

unfoldable pub eval_constants : {E : External} → Q E → Q E
unfolding eval_constants_fuel depth
eval_constants q = eval_constants_fuel (depth q) q
