-- ===== src/Query/Flatten/Folded.antt =====
-- `flatten` brings no constant back below the root.
use zoekt.Prelude.{Bool, true, false}
use zoekt.Query.Syntax.{External, Q, Children}
use zoekt.Query.Syntax.{const, atom, symbol, and, or, not, type, boost, nil, cons}
use zoekt.Query.Constants.Normal.{NotConst, NonEmpty, IsFolded, IsKept}
use zoekt.Query.Flatten.{append_children, splice, flatten, flatten_and_or}

append-IsKept :
    {E : External} (cs ds : Children E) → IsKept cs → IsKept ds → IsKept (append_children cs ds)
unfolding append_children
append-IsKept nil ds h k = k
append-IsKept (cons q cs) ds (n, f, h) k = (n, f, append-IsKept cs ds h k)

append-NonEmpty :
    {E : External} (cs ds : Children E) → NonEmpty cs → NonEmpty (append_children cs ds)
unfolding append_children
append-NonEmpty nil ds h = absurd h
append-NonEmpty (cons q cs) ds h = tt

splice-IsKept :
    {E : External} (b sub : Bool) (q : Q E) (p : Children E × Bool)
    → NotConst q
    → IsFolded q
    → IsKept p.0
    → NonEmpty (splice b q sub p).0 × IsKept (splice b q sub p).0
unfolding splice
splice-IsKept true sub (and ds) (flat, c) n f h =
    (append-NonEmpty ds flat f.0, append-IsKept ds flat f.1 h)
splice-IsKept false sub (or ds) (flat, c) n f h =
    (append-NonEmpty ds flat f.0, append-IsKept ds flat f.1 h)
splice-IsKept b sub q (flat, c) n f h = (tt, (n, f, h))

mutual
  unfolding flatten

  -- A flattened tree is folded if the tree was, and is no constant if the tree was none.
  pub flatten-IsFolded :
      {E : External} (q : Q E)
      → IsFolded q
      → IsFolded (flatten q).0 × (NotConst q → NotConst (flatten q).0)
  flatten-IsFolded (const b) h = (tt, λ n. n)
  flatten-IsFolded (atom a) h = (h, λ n. n)
  flatten-IsFolded (symbol q) h = (tt, λ n. n)
  flatten-IsFolded (and nil) h = absurd h.0
  flatten-IsFolded (and (cons q nil)) h = (h.1.1, λ _. h.1.0)
  flatten-IsFolded (and (cons q (cons r cs))) h =
      let (more, kept) = flatten_and_or-IsKept true (cons q (cons r cs)) h.1 in
      ((more tt, kept), λ n. tt)
  flatten-IsFolded (or nil) h = absurd h.0
  flatten-IsFolded (or (cons q nil)) h = (h.1.1, λ _. h.1.0)
  flatten-IsFolded (or (cons q (cons r cs))) h =
      let (more, kept) = flatten_and_or-IsKept false (cons q (cons r cs)) h.1 in
      ((more tt, kept), λ n. tt)
  flatten-IsFolded (not q) h = let (f, n) = flatten-IsFolded q h.1 in ((n h.0, f), λ _. tt)
  flatten-IsFolded (type q t) h = let (f, n) = flatten-IsFolded q h.1 in ((n h.0, f), λ _. tt)
  flatten-IsFolded (boost q b) h = let (f, n) = flatten-IsFolded q h.1 in ((n h.0, f), λ _. tt)

  flatten_and_or-IsKept :
      {E : External} (b : Bool) (cs : Children E)
      → IsKept cs
      → (NonEmpty cs → NonEmpty (flatten_and_or b cs).0) × IsKept (flatten_and_or b cs).0
  flatten_and_or-IsKept b nil h = (λ n. n, tt)
  flatten_and_or-IsKept b (cons q cs) (n, f, h) =
      let (g, m) = flatten-IsFolded q f in
      let (more, kept) =
        splice-IsKept b _ (flatten q).0 _ (m n) g (flatten_and_or-IsKept b cs h).1 in
      (λ _. more, kept)
