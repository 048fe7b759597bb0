-- ===== src/Query/Simplify.antt =====
-- `Simplify`: it ends, it leaves a query with nothing left to simplify, and it keeps the meaning.
use zoekt.Prelude.{ℕ, zero, suc, ◌<◌, Bool, true, false, Option, none, some, ◌≡◌, ◌∙◌}
use zoekt.Prelude.{if◌then◌else◌, subst, sym, arith}
use zoekt.Query.Syntax.{External, Q, size}
use zoekt.Query.Meaning.{Document, IsSound, HasNamedBranches, meaning}
use zoekt.Query.Constants.{eval_constants}
use zoekt.Query.Constants.Normal.{IsFolded}
use zoekt.Query.Constants.Pass.{pass-IsFolded, pass_folded, eval_constants-eq-pass}
use zoekt.Query.Constants.Same.{meaning-eval_constants}
use zoekt.Query.Flatten.{flatten, simplify_loop, simplify}
use zoekt.Query.Flatten.Normal.{IsFlat, Shrinks, flatten-Shrinks}
use zoekt.Query.Flatten.Folded.{flatten-IsFolded}
use zoekt.Query.Flatten.Same.{meaning-flatten}
use zoekt.Query.Flatten.Fixed.{flatten_flat}

-- How a loop that starts at `q` ends.
abbrev Ends : {E : External} → Q E → Option (Q E) → Type 0
Ends q none = ⊥
Ends {E} q (some r) =
    IsFlat r × (IsFolded q → IsFolded r) × ((d : Document E) → meaning d r ≡ meaning d q)

-- The loop goes on from the smaller tree, and its end serves for the larger one.
Ends-before :
    {E : External} (q q' : Q E) (o : Option (Q E))
    → (IsFolded q → IsFolded q')
    → ((d : Document E) → meaning d q' ≡ meaning d q)
    → Ends q' o
    → Ends q o
Ends-before q q' none k m h = h
Ends-before q q' (some r) k m (flat, folded, same) = (flat, λ f. folded (k f), λ d. same d ∙ m d)

simplify_loop-Ends : {E : External} (n : ℕ) (q : Q E) → size q < n → Ends q (simplify_loop n q)
unfolding simplify_loop
simplify_loop-Ends {E} zero q h = absurd (omega arith)
simplify_loop-Ends {E} (suc n) q h =
    round (flatten q).0 (flatten q).1 (flatten-Shrinks q) (λ f. (flatten-IsFolded q f).0)
      (λ d. meaning-flatten d q) (λ q' s. simplify_loop-Ends n q' (omega arith))
  where
    round :
        (q' : Q E) (changed : Bool)
        → Shrinks q (q', changed)
        → (IsFolded q → IsFolded q')
        → ((d : Document E) → meaning d q' ≡ meaning d q)
        → ((x : Q E) → size x < size q → Ends x (simplify_loop n x))
        → Ends q (if changed then simplify_loop n q' else some q')
    round q' true s k m next = Ends-before q q' (simplify_loop n q') k m (next q' s)
    round q' false s k m next = (subst IsFlat (sym s.0) s.1, k, m)

simplify-Ends : {E : External} (q : Q E) → Ends (eval_constants q) (simplify q)
unfolding simplify
simplify-Ends q =
    let folded = eval_constants q in simplify_loop-Ends (suc (size folded)) folded (omega arith)

eval_constants-IsFolded : {E : External} (q : Q E) → IsFolded (eval_constants q)
eval_constants-IsFolded q = rw (eval_constants-eq-pass q) (pass-IsFolded q)

simplify_result :
    {E : External} (q r : Q E) → simplify q ≡ some r → Ends (eval_constants q) (some r)
simplify_result q r e = subst (Ends (eval_constants q)) e (simplify-Ends q)

-- What `Simplify` returns selects the documents that the query selects, for every document on which
-- empty patterns, and the empty part of a branch's name, hold and empty sets do not, if the query
-- has no exact branch of the empty name outside Symbol nodes.
pub meaning-simplify :
    {E : External} (d : Document E)
    → IsSound d
    → (q r : Q E) → HasNamedBranches q
    → simplify q ≡ some r
    → meaning d r ≡ meaning d q
meaning-simplify d s q r h e = (simplify_result q r e).2 d ∙ meaning-eval_constants d s q h

simplify_loop_flat : {E : External} (n : ℕ) (q : Q E) → IsFlat q → simplify_loop (suc n) q ≡ some q
unfolding simplify_loop
simplify_loop_flat n q h = rw (flatten_flat q h)

-- A result of `Simplify` is simplified: a second run gives it back.
pub simplify-simplify : {E : External} (q r : Q E) → simplify q ≡ some r → simplify r ≡ some r
unfolding simplify
simplify-simplify q r e =
    let (flat, folded, same) = simplify_result q r e in
    let fixed : eval_constants r ≡ r =
      eval_constants-eq-pass r ∙ pass_folded r (folded (eval_constants-IsFolded q)) in
    rw fixed (simplify_loop_flat (size r) r flat)
