-- ===== src/Query/Flatten/Same.antt =====
-- `flatten` keeps the meaning of a query.
use zoekt.Prelude.{Bool, true, false, bool_eq, ◌≡◌, refl, sym, ap, ap₂, ◌∙◌}
use zoekt.Query.Syntax.{External, Q, Children}
use zoekt.Query.Syntax.{const, atom, symbol, and, or, not, type, boost, nil, cons}
use zoekt.Query.Meaning.{Document, combine, meaning, meaning_list}
use zoekt.Query.Flatten.{append_children, splice, flatten, flatten_and_or}

combine_assoc : (x a b c : Bool) → combine x (combine x a b) c ≡ combine x a (combine x b c)
combine_assoc true true b c = refl
combine_assoc true false b c = refl
combine_assoc false true b c = refl
combine_assoc false false b c = refl

combine_unit : (x a : Bool) → combine x x a ≡ a
combine_unit true a = refl
combine_unit false a = refl

combine_unit_right : (x a : Bool) → combine x a x ≡ a
combine_unit_right true true = refl
combine_unit_right true false = refl
combine_unit_right false true = refl
combine_unit_right false false = refl

module _ {E : External} (d : Document E) where
  meaning_list-append :
      (b : Bool) (cs ds : Children E)
      → meaning_list d b (append_children cs ds)
        ≡ combine b (meaning_list d b cs) (meaning_list d b ds)
  unfolding meaning append_children
  meaning_list-append b nil ds = sym (combine_unit b _)
  meaning_list-append b (cons q cs) ds =
      ap (combine b (meaning d q)) (meaning_list-append b cs ds) ∙ sym (combine_assoc b _ _ _)

  meaning-splice :
      (b sub : Bool) (q : Q E) (p : Children E × Bool)
      → meaning_list d b (splice b q sub p).0 ≡ combine b (meaning d q) (meaning_list d b p.0)
  unfolding splice meaning
  meaning-splice true sub (and ds) (flat, c) = meaning_list-append true ds flat
  meaning-splice false sub (or ds) (flat, c) = meaning_list-append false ds flat
  meaning-splice b sub q (flat, c) = refl

  mutual
    unfolding meaning flatten

    pub meaning-flatten : (q : Q E) → meaning d (flatten q).0 ≡ meaning d q
    meaning-flatten (const b) = refl
    meaning-flatten (atom a) = refl
    meaning-flatten (symbol q) = refl
    meaning-flatten (and nil) = refl
    meaning-flatten (and (cons q nil)) = sym (combine_unit_right true (meaning d q))
    meaning-flatten (and (cons q (cons r cs))) = meaning-flatten_and_or true (cons q (cons r cs))
    meaning-flatten (or nil) = refl
    meaning-flatten (or (cons q nil)) = sym (combine_unit_right false (meaning d q))
    meaning-flatten (or (cons q (cons r cs))) = meaning-flatten_and_or false (cons q (cons r cs))
    meaning-flatten (not q) = ap (λ b. bool_eq b false) (meaning-flatten q)
    meaning-flatten (type q t) = meaning-flatten q
    meaning-flatten (boost q b) = meaning-flatten q

    meaning-flatten_and_or :
        (b : Bool) (cs : Children E)
        → meaning_list d b (flatten_and_or b cs).0 ≡ meaning_list d b cs
    meaning-flatten_and_or b nil = refl
    meaning-flatten_and_or b (cons q cs) =
        meaning-splice b _ (flatten q).0 (flatten_and_or b cs)
        ∙ ap₂ (combine b) (meaning-flatten q) (meaning-flatten_and_or b cs)
