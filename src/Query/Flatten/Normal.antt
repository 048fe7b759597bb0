-- ===== src/Query/Flatten/Normal.antt =====
-- What `flatten` leaves alone, and what it does to the size of a tree.
use zoekt.Prelude.{suc, ◌+◌, ◌≤◌, ◌<◌, Bool, true, false, ◌||◌, ◌≡◌, refl, ap, ap₂, subst, arith}
use zoekt.Query.Syntax.{External, Q, Children, size, size_list}
use zoekt.Query.Syntax.{const, atom, symbol, and, or, not, type, boost, nil, cons}
use zoekt.Query.Flatten.{append_children, splice, flatten, flatten_and_or}

abbrev pub NotSingle : {E : External} → Children E → Type 0
NotSingle nil = Unit {0}
NotSingle (cons q nil) = ⊥
NotSingle (cons q (cons r cs)) = Unit {0}

-- Not an And (for `true`), not an Or (for `false`).
abbrev pub NotKind : {E : External} → Bool → Q E → Type 0
NotKind true (and cs) = ⊥
NotKind false (or cs) = ⊥
NotKind is_and q = Unit {0}

-- No And or Or with one child, no And right under an And, no Or right under an Or.
abbrev mutual
  pub IsFlat : {E : External} → Q E → Type 0
  IsFlat (const b) = Unit {0}
  IsFlat (atom a) = Unit {0}
  IsFlat (symbol q) = Unit {0}
  IsFlat (and cs) = NotSingle cs × AreFlat true cs
  IsFlat (or cs) = NotSingle cs × AreFlat false cs
  IsFlat (not q) = IsFlat q
  IsFlat (type q t) = IsFlat q
  IsFlat (boost q b) = IsFlat q

  pub AreFlat : {E : External} → Bool → Children E → Type 0
  AreFlat is_and nil = Unit {0}
  AreFlat is_and (cons q cs) = NotKind is_and q × IsFlat q × AreFlat is_and cs

-- A step that reports a change makes the tree smaller; one that reports none leaves it, and then it
-- was flat.
abbrev pub Shrinks : {E : External} → Q E → Q E × Bool → Type 0
Shrinks q (r, true) = size r < size q
Shrinks q (r, false) = (r ≡ q) × IsFlat q

abbrev ShrinkList : {E : External} → Bool → Children E → Children E × Bool → Type 0
ShrinkList is_and cs (ds, true) = size_list ds < size_list cs
ShrinkList is_and cs (ds, false) = (ds ≡ cs) × AreFlat is_and cs

size_list-append :
    {E : External} (cs ds : Children E)
    → size_list (append_children cs ds) ≡ size_list cs + size_list ds
unfolding append_children size
size_list-append nil ds = omega arith
size_list-append (cons q cs) ds = omega (arith, size_list-append cs ds)

Shrinks-le : {E : External} (q r : Q E) (b : Bool) → Shrinks q (r, b) → size r ≤ size q
Shrinks-le q r true h = omega arith
Shrinks-le q r false h = rw h.0 (omega arith)

ShrinkList-le :
    {E : External} (b c : Bool) (cs ds : Children E)
    → ShrinkList b cs (ds, c)
    → size_list ds ≤ size_list cs
ShrinkList-le b true cs ds h = omega arith
ShrinkList-le b false cs ds h = rw h.0 (omega arith)

-- A child that is spliced in goes away itself.
append-ShrinkList :
    {E : External} (q : Q E) (ds cs flat : Children E)
    → suc (size_list ds) ≤ size q
    → size_list flat ≤ size_list cs
    → size_list (append_children ds flat) < size_list (cons q cs)
unfolding size
append-ShrinkList q ds cs flat h k = omega (arith, size_list-append ds flat)

cons-ShrinkList :
    {E : External} (b sub changed : Bool) (q ch : Q E) (cs flat : Children E)
    → NotKind b ch
    → Shrinks q (ch, sub)
    → ShrinkList b cs (flat, changed)
    → ShrinkList b (cons q cs) (cons ch flat, sub || changed)
unfolding size
cons-ShrinkList b true changed q ch cs flat n h k = omega (arith, ShrinkList-le b changed cs flat k)
cons-ShrinkList b false true q ch cs flat n h k = omega (arith, Shrinks-le q ch false h)
cons-ShrinkList b false false q ch cs flat n h k =
    (ap₂ cons h.0 k.0, (subst (NotKind b) h.0 n, h.1, k.1))

splice-ShrinkList :
    {E : External} (b sub : Bool) (q ch : Q E) (cs flat : Children E) (changed : Bool)
    → Shrinks q (ch, sub)
    → ShrinkList b cs (flat, changed)
    → ShrinkList b (cons q cs) (splice b ch sub (flat, changed))
unfolding splice size
splice-ShrinkList true sub q (and ds) cs flat changed h k =
    append-ShrinkList q ds cs flat (Shrinks-le q (and ds) sub h)
      (ShrinkList-le true changed cs flat k)
splice-ShrinkList false sub q (or ds) cs flat changed h k =
    append-ShrinkList q ds cs flat (Shrinks-le q (or ds) sub h)
      (ShrinkList-le false changed cs flat k)
splice-ShrinkList b sub q ch cs flat changed h k = cons-ShrinkList b sub changed q ch cs flat tt h k

-- A node over a flattened child, and over flattened children.
wrap-Shrinks :
    {E : External} (f : Q E → Q E) (q r : Q E) (b : Bool)
    → ((x : Q E) → size (f x) ≡ suc (size x))
    → ((x : Q E) → IsFlat x → IsFlat (f x))
    → Shrinks q (r, b)
    → Shrinks (f q) (f r, b)
wrap-Shrinks f q r true s k h = omega (arith, s q, s r)
wrap-Shrinks f q r false s k h = (ap f h.0, k q h.1)

and-Shrinks :
    {E : External} (cs : Children E) (p : Children E × Bool)
    → NotSingle cs
    → ShrinkList true cs p
    → Shrinks (and cs) (and p.0, p.1)
unfolding size
and-Shrinks cs (ds, true) n h = omega arith
and-Shrinks cs (ds, false) n h = (ap and h.0, (n, h.1))

or-Shrinks :
    {E : External} (cs : Children E) (p : Children E × Bool)
    → NotSingle cs
    → ShrinkList false cs p
    → Shrinks (or cs) (or p.0, p.1)
unfolding size
or-Shrinks cs (ds, true) n h = omega arith
or-Shrinks cs (ds, false) n h = (ap or h.0, (n, h.1))

mutual
  unfolding flatten size

  pub flatten-Shrinks : {E : External} (q : Q E) → Shrinks q (flatten q)
  flatten-Shrinks (const b) = (refl, tt)
  flatten-Shrinks (atom a) = (refl, tt)
  flatten-Shrinks (symbol q) = (refl, tt)
  flatten-Shrinks (and nil) = (refl, (tt, tt))
  flatten-Shrinks (and (cons q nil)) = omega arith
  flatten-Shrinks (and (cons q (cons r cs))) =
      and-Shrinks (cons q (cons r cs)) _ tt (flatten_and_or-ShrinkList true (cons q (cons r cs)))
  flatten-Shrinks (or nil) = (refl, (tt, tt))
  flatten-Shrinks (or (cons q nil)) = omega arith
  flatten-Shrinks (or (cons q (cons r cs))) =
      or-Shrinks (cons q (cons r cs)) _ tt (flatten_and_or-ShrinkList false (cons q (cons r cs)))
  flatten-Shrinks (not q) = wrap-Shrinks not q _ _ (λ x. refl) (λ x h. h) (flatten-Shrinks q)
  flatten-Shrinks (type q t) =
      wrap-Shrinks (λ x. type x t) q _ _ (λ x. refl) (λ x h. h) (flatten-Shrinks q)
  flatten-Shrinks (boost q b) =
      wrap-Shrinks (λ x. boost x b) q _ _ (λ x. refl) (λ x h. h) (flatten-Shrinks q)

  flatten_and_or-ShrinkList :
      {E : External} (b : Bool) (cs : Children E) → ShrinkList b cs (flatten_and_or b cs)
  flatten_and_or-ShrinkList b nil = (refl, tt)
  flatten_and_or-ShrinkList b (cons q cs) =
      splice-ShrinkList b _ q _ cs _ _ (flatten-Shrinks q) (flatten_and_or-ShrinkList b cs)
