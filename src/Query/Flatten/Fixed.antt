-- ===== src/Query/Flatten/Fixed.antt =====
-- `flatten` reports no change on a flat tree, and gives it back.
use zoekt.Prelude.{Bool, true, false, ◌≡◌, refl}
use zoekt.Query.Syntax.{External, Q, Children}
use zoekt.Query.Syntax.{const, atom, symbol, and, or, not, type, boost, nil, cons}
use zoekt.Query.Flatten.{splice, flatten, flatten_and_or}
use zoekt.Query.Flatten.Normal.{NotKind, IsFlat, AreFlat}

splice_apart :
    {E : External} (b : Bool) (q : Q E) (cs : Children E)
    → NotKind b q
    → splice b q false (cs, false) ≡ (cons q cs, false)
unfolding splice
splice_apart true (and ds) cs h = absurd h
splice_apart false (or ds) cs h = absurd h
splice_apart b q cs h = refl

mutual
  unfolding flatten

  pub flatten_flat : {E : External} (q : Q E) → IsFlat q → flatten q ≡ (q, false)
  flatten_flat (const b) h = refl
  flatten_flat (atom a) h = refl
  flatten_flat (symbol q) h = refl
  flatten_flat (and nil) h = refl
  flatten_flat (and (cons q nil)) h = absurd h.0
  flatten_flat (and (cons q (cons r cs))) h = rw (flatten_and_or_flat true (cons q (cons r cs)) h.1)
  flatten_flat (or nil) h = refl
  flatten_flat (or (cons q nil)) h = absurd h.0
  flatten_flat (or (cons q (cons r cs))) h = rw (flatten_and_or_flat false (cons q (cons r cs)) h.1)
  flatten_flat (not q) h = rw (flatten_flat q h)
  flatten_flat (type q t) h = rw (flatten_flat q h)
  flatten_flat (boost q b) h = rw (flatten_flat q h)

  flatten_and_or_flat :
      {E : External} (b : Bool) (cs : Children E) → AreFlat b cs → flatten_and_or b cs ≡ (cs, false)
  flatten_and_or_flat b nil h = refl
  flatten_and_or_flat b (cons q cs) h =
      rw (flatten_flat q h.1, flatten_and_or_flat b cs h.2) (splice_apart b q cs h.0)
