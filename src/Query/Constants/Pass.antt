-- ===== src/Query/Constants/Pass.antt =====
-- `evalConstants` as one pass from the leaves up, and the proof that the nested calls add nothing.
use zoekt.Prelude.{ℕ, zero, suc, ◌≤◌, true, false, ◌≡◌, refl, ap, ap₂, ◌∙◌, arith}
use zoekt.Query.Syntax.{External, Q, Children, depth, depth_list}
use zoekt.Query.Syntax.{const, atom, symbol, and, or, not, type, boost, nil, cons}
use zoekt.Query.Map.{map_query, map_query_list}
use zoekt.Query.Constants.{eval_atom, eval_and_or_constants, eval_not, eval_type, eval_boost}
use zoekt.Query.Constants.{eval_constants_fuel, eval_constants}
use zoekt.Query.Constants.Normal.{IsFolded, IsKept, AllFolded, eval_and_or_constants-IsFolded}
use zoekt.Query.Constants.Normal.{eval_not-IsFolded, eval_type-IsFolded, eval_boost-IsFolded}
use zoekt.Query.Constants.Normal.{eval_and_kept, eval_or_kept, eval_not_kept, eval_type_kept}
use zoekt.Query.Constants.Normal.{eval_boost_kept, eval_atom-IsFolded}
use zoekt.Query.Constants.Depth.{eval_and_or_constants-depth, eval_not-depth, eval_type-depth}
use zoekt.Query.Constants.Depth.{eval_boost-depth, eval_atom-depth}

unfoldable mutual
  pub pass : {E : External} → Q E → Q E
  pass (const b) = const b
  pass (atom a) = eval_atom a
  pass (symbol q) = symbol q
  pass (and cs) = eval_and_or_constants true (pass_list cs)
  pass (or cs) = eval_and_or_constants false (pass_list cs)
  pass (not q) = eval_not (pass q)
  pass (type q t) = eval_type (pass q) t
  pass (boost q b) = eval_boost (pass q) b

  pub pass_list : {E : External} → Children E → Children E
  pass_list nil = nil
  pass_list (cons q cs) = cons (pass q) (pass_list cs)

mutual
  unfolding pass

  pub pass-IsFolded : {E : External} (q : Q E) → IsFolded (pass q)
  pass-IsFolded (const b) = tt
  pass-IsFolded (atom a) = eval_atom-IsFolded a
  pass-IsFolded (symbol q) = tt
  pass-IsFolded (and cs) =
      eval_and_or_constants-IsFolded true (pass_list cs) (pass_list-AllFolded cs)
  pass-IsFolded (or cs) =
      eval_and_or_constants-IsFolded false (pass_list cs) (pass_list-AllFolded cs)
  pass-IsFolded (not q) = eval_not-IsFolded (pass q) (pass-IsFolded q)
  pass-IsFolded (type q t) = eval_type-IsFolded (pass q) t (pass-IsFolded q)
  pass-IsFolded (boost q b) = eval_boost-IsFolded (pass q) b (pass-IsFolded q)

  pass_list-AllFolded : {E : External} (cs : Children E) → AllFolded (pass_list cs)
  pass_list-AllFolded nil = tt
  pass_list-AllFolded (cons q cs) = (pass-IsFolded q, pass_list-AllFolded cs)

mutual
  unfolding pass

  pub pass_folded : {E : External} (q : Q E) → IsFolded q → pass q ≡ q
  pass_folded (const b) h = refl
  pass_folded (atom a) h = h
  pass_folded (symbol q) h = refl
  pass_folded (and cs) h = rw (pass_list_kept cs h.1) (eval_and_kept cs h.0 h.1)
  pass_folded (or cs) h = rw (pass_list_kept cs h.1) (eval_or_kept cs h.0 h.1)
  pass_folded (not q) h = rw (pass_folded q h.1) (eval_not_kept q h.0)
  pass_folded (type q t) h = rw (pass_folded q h.1) (eval_type_kept q t h.0)
  pass_folded (boost q b) h = rw (pass_folded q h.1) (eval_boost_kept q b h.0)

  pass_list_kept : {E : External} (cs : Children E) → IsKept cs → pass_list cs ≡ cs
  pass_list_kept nil h = refl
  pass_list_kept (cons q cs) h = ap₂ cons (pass_folded q h.1) (pass_list_kept cs h.2)

mutual
  unfolding pass depth

  pass-depth : {E : External} (q : Q E) → depth (pass q) ≤ depth q
  pass-depth (const b) = omega arith
  pass-depth (atom a) = eval_atom-depth a
  pass-depth (symbol q) = omega arith
  pass-depth (and cs) = eval_and_or_constants-depth true (pass_list cs) _ (pass_list-depth cs)
  pass-depth (or cs) = eval_and_or_constants-depth false (pass_list cs) _ (pass_list-depth cs)
  pass-depth (not q) = omega (arith, eval_not-depth (pass q), pass-depth q)
  pass-depth (type q t) = omega (arith, eval_type-depth (pass q) t, pass-depth q)
  pass-depth (boost q b) = omega (arith, eval_boost-depth (pass q) b, pass-depth q)

  pass_list-depth : {E : External} (cs : Children E) → depth_list (pass_list cs) ≤ depth_list cs
  pass_list-depth nil = omega arith
  pass_list-depth (cons q cs) = omega (arith, pass-depth q, pass_list-depth cs)

depth-positive : {E : External} (q : Q E) → ¬ (depth q ≤ 0)
unfolding depth
depth-positive (const b) = omega arith
depth-positive q = omega arith

pass-pass : {E : External} (q : Q E) → pass (pass q) ≡ pass q
pass-pass q = pass_folded (pass q) (pass-IsFolded q)

pass_list-pass_list : {E : External} (cs : Children E) → pass_list (pass_list cs) ≡ pass_list cs
unfolding pass
pass_list-pass_list nil = refl
pass_list-pass_list (cons q cs) = ap₂ cons (pass-pass q) (pass_list-pass_list cs)

-- A function that agrees with `pass` up to depth `n` maps such a tree to what `pass` makes of it:
-- the calls of `Map` on the way up find children that are folded already.
module _ {E : External} (f : Q E → Q E) (n : ℕ)
    (agrees : (q : Q E) → depth q ≤ n → f q ≡ pass q) where
  mutual
    unfolding map_query pass depth

    map_query-pass : (q : Q E) → depth q ≤ n → map_query f q ≡ pass q
    map_query-pass (const b) h = agrees (const b) h
    map_query-pass (atom a) h = agrees (atom a) h
    map_query-pass (symbol q) h = agrees (symbol q) h
    map_query-pass (and cs) h = rw (map_query_list-pass_list cs (omega arith)) (
        agrees (and (pass_list cs)) (omega (arith, pass_list-depth cs))
        ∙ ap (eval_and_or_constants true) (pass_list-pass_list cs))
    map_query-pass (or cs) h = rw (map_query_list-pass_list cs (omega arith)) (
        agrees (or (pass_list cs)) (omega (arith, pass_list-depth cs))
        ∙ ap (eval_and_or_constants false) (pass_list-pass_list cs))
    map_query-pass (not q) h =
        rw (map_query-pass q (omega arith))
          (agrees (not (pass q)) (omega (arith, pass-depth q)) ∙ ap eval_not (pass-pass q))
    map_query-pass (type q t) h = rw (map_query-pass q (omega arith)) (
        agrees (type (pass q) t) (omega (arith, pass-depth q))
        ∙ ap (λ r. eval_type r t) (pass-pass q))
    map_query-pass (boost q b) h = rw (map_query-pass q (omega arith)) (
        agrees (boost (pass q) b) (omega (arith, pass-depth q))
        ∙ ap (λ r. eval_boost r b) (pass-pass q))

    map_query_list-pass_list :
        (cs : Children E) → depth_list cs ≤ n → map_query_list f cs ≡ pass_list cs
    map_query_list-pass_list nil h = refl
    map_query_list-pass_list (cons q cs) h =
        ap₂ cons (map_query-pass q (omega arith)) (map_query_list-pass_list cs (omega arith))

pub eval_constants_fuel-eq-pass :
    {E : External} (n : ℕ) (q : Q E) → depth q ≤ n → eval_constants_fuel n q ≡ pass q
unfolding eval_constants_fuel pass depth
eval_constants_fuel-eq-pass zero q h = absurd (depth-positive q h)
eval_constants_fuel-eq-pass (suc n) (const b) h = refl
eval_constants_fuel-eq-pass (suc n) (atom a) h = refl
eval_constants_fuel-eq-pass (suc n) (symbol q) h = refl
eval_constants_fuel-eq-pass (suc n) (and cs) h = ap (eval_and_or_constants true) (
    map_query_list-pass_list (eval_constants_fuel n) n (eval_constants_fuel-eq-pass n) cs
      (omega arith))
eval_constants_fuel-eq-pass (suc n) (or cs) h = ap (eval_and_or_constants false) (
    map_query_list-pass_list (eval_constants_fuel n) n (eval_constants_fuel-eq-pass n) cs
      (omega arith))
eval_constants_fuel-eq-pass (suc n) (not q) h =
    ap eval_not (eval_constants_fuel-eq-pass n q (omega arith))
eval_constants_fuel-eq-pass (suc n) (type q t) h =
    ap (λ r. eval_type r t) (eval_constants_fuel-eq-pass n q (omega arith))
eval_constants_fuel-eq-pass (suc n) (boost q b) h =
    ap (λ r. eval_boost r b) (eval_constants_fuel-eq-pass n q (omega arith))

-- `evalConstants`, whose calls of `Map` fold each subtree again at every level, gives what one pass
-- from the leaves to the root gives, on every query.
pub eval_constants-eq-pass : {E : External} (q : Q E) → eval_constants q ≡ pass q
unfolding eval_constants
eval_constants-eq-pass q = eval_constants_fuel-eq-pass (depth q) q (omega arith)
