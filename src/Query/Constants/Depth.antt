-- ===== src/Query/Constants/Depth.antt =====
-- No step of `evalConstants` makes a tree deeper.
use zoekt.Prelude.{ℕ, suc, ◌≤◌, Bool, true, false, if◌then◌else◌, ◌⊎◌, inl, inr, arith}
use zoekt.Query.Syntax.{External, Atom, substring, regexp, branch, branches_repos, repo_ids}
use zoekt.Query.Syntax.{repo_set, file_name_set, Q, Children, depth, depth_list}
use zoekt.Query.Syntax.{const, atom, nil, cons}
use zoekt.Query.Constants.{eval_atom, keep_child, keep_children, rebuild, eval_and_or_constants}
use zoekt.Query.Constants.{eval_not, eval_type, eval_boost}

-- What the loop of `evalAndOrConstants` hands on, within depth `n`.
abbrev Fits : {E : External} → ℕ → Q E ⊎ Children E → Type 0
Fits n (inl q) = depth q ≤ suc n
Fits n (inr cs) = depth_list cs ≤ n

keep_child-Fits :
    {E : External} (b : Bool) (q : Q E) (n : ℕ) (rest : Q E ⊎ Children E)
    → depth q ≤ n
    → Fits n rest
    → Fits n (keep_child b q rest)
unfolding keep_child depth
keep_child-Fits true (const true) n rest hq h = h
keep_child-Fits true (const false) n rest hq h = omega arith
keep_child-Fits false (const true) n rest hq h = omega arith
keep_child-Fits false (const false) n rest hq h = h
keep_child-Fits b q n (inl d) hq h = h
keep_child-Fits b q n (inr ks) hq h = omega arith

keep_children-Fits :
    {E : External} (b : Bool) (cs : Children E) (n : ℕ)
    → depth_list cs ≤ n
    → Fits n (keep_children b cs)
unfolding keep_children depth
keep_children-Fits b nil n h = omega arith
keep_children-Fits b (cons q cs) n h =
    keep_child-Fits b q n (keep_children b cs) (omega arith)
      (keep_children-Fits b cs n (omega arith))

rebuild-depth :
    {E : External} (b : Bool) (n : ℕ) (r : Q E ⊎ Children E)
    → Fits n r
    → depth (rebuild b r) ≤ suc n
unfolding rebuild depth
rebuild-depth b n (inl q) h = h
rebuild-depth b n (inr nil) h = omega arith
rebuild-depth true n (inr (cons q cs)) h = omega arith
rebuild-depth false n (inr (cons q cs)) h = omega arith

pub eval_and_or_constants-depth :
    {E : External} (b : Bool) (cs : Children E) (n : ℕ)
    → depth_list cs ≤ n
    → depth (eval_and_or_constants b cs) ≤ suc n
unfolding eval_and_or_constants
eval_and_or_constants-depth b cs n h =
    rebuild-depth b n (keep_children b cs) (keep_children-Fits b cs n h)

pub eval_not-depth : {E : External} (q : Q E) → depth (eval_not q) ≤ suc (depth q)
unfolding eval_not depth
eval_not-depth (const v) = omega arith
eval_not-depth q = omega arith

pub eval_type-depth : {E : External} (q : Q E) (t : ℕ) → depth (eval_type q t) ≤ suc (depth q)
unfolding eval_type depth
eval_type-depth (const v) t = omega arith
eval_type-depth q t = omega arith

pub eval_boost-depth :
    {E : External} (q : Q E) (b : E.Float) → depth (eval_boost q b) ≤ suc (depth q)
unfolding eval_boost depth
eval_boost-depth (const v) b = omega arith
eval_boost-depth q b = omega arith

atom_test-depth :
    {E : External} (b v : Bool) (a : Atom E) → depth (if b then const v else atom a) ≤ 1
unfolding depth
atom_test-depth true v a = omega arith
atom_test-depth false v a = omega arith

pub eval_atom-depth : {E : External} (a : Atom E) → depth (eval_atom a) ≤ 1
unfolding eval_atom depth
eval_atom-depth (substring s) = atom_test-depth _ _ (substring s)
eval_atom-depth (regexp s) = atom_test-depth _ _ (regexp s)
eval_atom-depth (branch p x) = atom_test-depth _ _ (branch p x)
eval_atom-depth (branches_repos l) = atom_test-depth _ _ (branches_repos l)
eval_atom-depth (repo_ids r) = atom_test-depth _ _ (repo_ids r)
eval_atom-depth (repo_set l) = atom_test-depth _ _ (repo_set l)
eval_atom-depth (file_name_set l) = atom_test-depth _ _ (file_name_set l)
eval_atom-depth a = omega arith
