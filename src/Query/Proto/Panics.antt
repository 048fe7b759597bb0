-- ===== src/Query/Proto/Panics.antt =====
-- The queries that no message stands for (query/query_proto.go).
use zoekt.Prelude.{Bool, true, false, ◌||◌, List, [], ◌∷◌, some, ◌≡◌, refl, ◌⊎◌, inl, inr, ◌↔◌}
use zoekt.Prelude.{ℕ}
use zoekt.Outcome.{Outcome, ok, panic, ◌>>=◌}
use zoekt.Query.Syntax.{
  External, Text, Atom, substring, regexp, branch, branches_repos, repo_ids, repo_set,
  file_name_set, raw_config, language, repo, repo_regexp, meta, case_q, Q, const, atom, symbol, and,
  or, not, type, boost, Children, nil, cons,
}
use zoekt.Query.Proto.Messages.{Message, Proto, Protos}
use zoekt.Query.Proto.{Codec, kind_of, branches_to, atom_to_proto, q_to_proto, q_to_proto_list}

abbrev pub is_meta : {E : External} → Atom E → Bool
is_meta (meta field value) = true
is_meta (case_q flavor) = true
is_meta (substring s) = false
is_meta (regexp r) = false
is_meta (branch pattern exact) = false
is_meta (branches_repos bs) = false
is_meta (repo_ids b) = false
is_meta (repo_set s) = false
is_meta (file_name_set s) = false
is_meta (raw_config r) = false
is_meta (language l) = false
is_meta (repo r) = false
is_meta (repo_regexp r) = false

-- Whether a `Meta` or a `caseQ` occurs.
unfoldable mutual
  pub has_meta : {E : External} → Q E → Bool
  has_meta (const b) = false
  has_meta (atom a) = is_meta a
  has_meta (symbol q) = has_meta q
  has_meta (and cs) = has_meta_list cs
  has_meta (or cs) = has_meta_list cs
  has_meta (not q) = has_meta q
  has_meta (type q t) = has_meta q
  has_meta (boost q f) = has_meta q

  pub has_meta_list : {E : External} → Children E → Bool
  has_meta_list nil = false
  has_meta_list (cons q cs) = has_meta q || has_meta_list cs

-- An outcome that returns, if the test fails, and panics, if it holds.
abbrev PanicsIf : {A : Type 0} → Bool → Outcome A → Type 0
PanicsIf {A} b o = ((a : A) × (o ≡ ok a) × (b ≡ false)) ⊎ ((o ≡ panic) × (b ≡ true))

PanicsIf-map :
    {A B : Type 0} (f : A → B) (b : Bool) (o : Outcome A)
    → PanicsIf b o
    → PanicsIf b (o >>= λ a. ok (f a))
PanicsIf-map f b o (inl (a, e, h)) = inl (f a, rw e refl, h)
PanicsIf-map f b o (inr (e, h)) = inr (rw e refl, h)

PanicsIf-both :
    {A B C : Type 0} (f : A → B → C) (b d : Bool) (o : Outcome A) (p : Outcome B)
    → PanicsIf b o
    → PanicsIf d p
    → PanicsIf (b || d) (o >>= λ x. p >>= λ y. ok (f x y))
PanicsIf-both f b d o p (inl (x, e, h)) (inl (y, e', h')) =
    inl (f x y, rw (e, e') refl, rw (h, h') refl)
PanicsIf-both f b d o p (inl (x, e, h)) (inr (e', h')) = inr (rw (e, e') refl, rw (h, h') refl)
PanicsIf-both f b d o p (inr (e, h)) q = inr (rw e refl, rw h refl)

module _ {E : External} (c : Codec E)
    (total : (b : E.Bitmap) → (bytes : List ℕ) × (c.to_bytes b ≡ some bytes)) where
  branches_to-returns :
      (bs : List (Text × E.Bitmap)) → (l : List (Text × List ℕ)) × (branches_to c bs ≡ ok l)
  unfolding branches_to
  branches_to-returns [] = ([], refl)
  branches_to-returns ((name, b) ∷ bs) =
      let (bytes, e) = total b in
      let (l, e') = branches_to-returns bs in ((name, bytes) ∷ l, rw (e, e') refl)

  atom-PanicsIf : (a : Atom E) → PanicsIf (is_meta a) (atom_to_proto c a)
  unfolding atom_to_proto
  atom-PanicsIf (substring s) = inl (_, refl, refl)
  atom-PanicsIf (regexp r) = inl (_, refl, refl)
  atom-PanicsIf (branch pattern exact) = inl (_, refl, refl)
  atom-PanicsIf (branches_repos bs) =
      let (l, e) = branches_to-returns bs in inl (Message.branches_repos l, rw e refl, refl)
  atom-PanicsIf (repo_ids b) =
      let (bytes, e) = total b in inl (Message.repo_ids bytes, rw e refl, refl)
  atom-PanicsIf (repo_set s) = inl (_, refl, refl)
  atom-PanicsIf (file_name_set s) = inl (_, refl, refl)
  atom-PanicsIf (raw_config r) = inl (_, refl, refl)
  atom-PanicsIf (language l) = inl (_, refl, refl)
  atom-PanicsIf (repo r) = inl (_, refl, refl)
  atom-PanicsIf (repo_regexp r) = inl (_, refl, refl)
  atom-PanicsIf (meta field value) = inr (refl, refl)
  atom-PanicsIf (case_q flavor) = inr (refl, refl)

  mutual
    unfolding has_meta q_to_proto

    tree-PanicsIf : (q : Q E) → PanicsIf (has_meta q) (q_to_proto c q)
    tree-PanicsIf (const b) = inl (_, refl, refl)
    tree-PanicsIf (atom a) = PanicsIf-map Proto.message _ _ (atom-PanicsIf a)
    tree-PanicsIf (symbol q) = PanicsIf-map Proto.symbol _ _ (tree-PanicsIf q)
    tree-PanicsIf (and cs) = PanicsIf-map Proto.and _ _ (list-PanicsIf cs)
    tree-PanicsIf (or cs) = PanicsIf-map Proto.or _ _ (list-PanicsIf cs)
    tree-PanicsIf (not q) = PanicsIf-map Proto.not _ _ (tree-PanicsIf q)
    tree-PanicsIf (type q t) = PanicsIf-map (λ p. Proto.type p (kind_of t)) _ _ (tree-PanicsIf q)
    tree-PanicsIf (boost q f) = PanicsIf-map (λ p. Proto.boost p f) _ _ (tree-PanicsIf q)

    list-PanicsIf : (cs : Children E) → PanicsIf (has_meta_list cs) (q_to_proto_list c cs)
    list-PanicsIf nil = inl (_, refl, refl)
    list-PanicsIf (cons q cs) =
        PanicsIf-both Protos.cons _ _ _ _ (tree-PanicsIf q) (list-PanicsIf cs)

-- `QToProto` panics on a query if and only if a `Meta` or a `caseQ` occurs in it, and returns a
-- message if none does, where each bitmap has bytes.
pub q_to_proto-has_meta :
    {E : External} (c : Codec E)
    → ((b : E.Bitmap) → (bytes : List ℕ) × (c.to_bytes b ≡ some bytes))
    → (q : Q E)
    → ((q_to_proto c q ≡ panic) ↔ (has_meta q ≡ true))
      × (has_meta q ≡ false → (p : Proto E) × (q_to_proto c q ≡ ok p))
q_to_proto-has_meta c total q = elim (tree-PanicsIf c total q) [
  | inl (p, e, h) ↦ ((λ x. cc, λ x. cc), λ x. (p, e))
  | inr (e, h) ↦ ((λ x. h, λ x. e), λ x. absurd (cc))
]
