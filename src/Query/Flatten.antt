-- ===== src/Query/Flatten.antt =====
-- `flatten`, `flattenAndOr` and `Simplify` of query/query.go.
pub mod Normal
pub mod Folded
pub mod Same
pub mod Fixed
use zoekt.Prelude.{ℕ, zero, suc, Bool, true, false, ◌||◌, if◌then◌else◌, Option, none, some}
use zoekt.Query.Syntax.{External, Q, Children, size}
use zoekt.Query.Syntax.{const, atom, symbol, and, or, not, type, boost, nil, cons}
use zoekt.Query.Constants.{eval_constants}

unfoldable pub append_children : {E : External} → Children E → Children E → Children E
append_children nil ds = ds
append_children (cons q cs) ds = cons q (append_children cs ds)

-- One turn of the loop of `flattenAndOr`: `ch` is a flattened child and `sub` whether that changed
-- it; `is_and` is whether `typ` is an And.
unfoldable pub splice : {E : External} → Bool → Q E → Bool → Children E × Bool → Children E × Bool
unfolding append_children
splice true (and ds) sub (flat, changed) = (append_children ds flat, true)
splice false (or ds) sub (flat, changed) = (append_children ds flat, true)
splice is_and ch sub (flat, changed) = (cons ch flat, sub || changed)

-- The loop goes on from a child to the rest; what the rest gives stands behind it.
abbrev pub splice_pair : {E : External} → Bool → Q E × Bool → Children E × Bool → Children E × Bool
splice_pair is_and (ch, sub) rest = splice is_and ch sub rest

unfoldable mutual
  unfolding splice

  pub flatten : {E : External} → Q E → Q E × Bool
  flatten (and (cons q nil)) = (q, true)
  flatten (or (cons q nil)) = (q, true)
  flatten (and cs) = let (flat, changed) = flatten_and_or true cs in (and flat, changed)
  flatten (or cs) = let (flat, changed) = flatten_and_or false cs in (or flat, changed)
  flatten (not q) = let (child, changed) = flatten q in (not child, changed)
  flatten (type q t) = let (child, changed) = flatten q in (type child t, changed)
  flatten (boost q b) = let (child, changed) = flatten q in (boost child b, changed)
  flatten q = (q, false)

  pub flatten_and_or : {E : External} → Bool → Children E → Children E × Bool
  flatten_and_or is_and nil = (nil, false)
  flatten_and_or is_and (cons q cs) = splice_pair is_and (flatten q) (flatten_and_or is_and cs)

-- The loop of `Simplify`. `none` means that the fuel ran out; `Simplify.simplify_total` shows that
-- the number of nodes is enough.
unfoldable pub simplify_loop : {E : External} → ℕ → Q E → Option (Q E)
unfolding flatten
simplify_loop zero q = none
simplify_loop (suc n) q =
    let (q', changed) = flatten q in
    let rest = simplify_loop n q' in if changed then rest else some q'

unfoldable pub simplify : {E : External} → Q E → Option (Q E)
unfolding simplify_loop eval_constants size
simplify q = let folded = eval_constants q in simplify_loop (suc (size folded)) folded
