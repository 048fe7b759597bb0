-- ===== src/Query/Proto/RoundTrip.antt =====
-- Queries come back from their messages (query/query_proto.go).
use zoekt.Prelude.{ℕ, zero, suc, ◌<◌, List, [], ◌∷◌, some, ◌≡◌, refl, ap, arith}
use zoekt.Outcome.{ok}
use zoekt.Query.Syntax.{
  External, Text, Atom, substring, regexp, branch, branches_repos, repo_ids, repo_set,
  file_name_set, raw_config, language, repo, repo_regexp, meta, case_q, Q, const, atom, symbol, and,
  or, not, type, boost, Children, nil, cons,
}
use zoekt.Query.Proto.Messages.{Message, Proto, Protos}
use zoekt.Query.Proto.{
  Codec, kind_of, type_of, branches_to, atom_to_proto, q_to_proto, q_to_proto_list, branches_from,
  message_from_proto, q_from_proto, q_from_proto_list, done,
}
use zoekt.Query.Proto.Flags.{raw_config_from-flags_of}
use zoekt.Query.Proto.Sets.{IsDistinct, file_name_set_from-IsDistinct}

type_of-kind_of : (t : ℕ) → t < 3 → type_of (kind_of t) ≡ t
type_of-kind_of zero h = refl
type_of-kind_of (suc zero) h = refl
type_of-kind_of (suc (suc zero)) h = refl
type_of-kind_of (suc (suc (suc t))) h = absurd (omega arith)

module _ {E : External} (c : Codec E) where
  -- The bytes of a bitmap are its own.
  abbrev pub Restores : E.Bitmap → Type 0
  Restores b = (bytes : List ℕ) × (c.to_bytes b ≡ some bytes) × (c.unmarshal_binary bytes ≡ some b)

  abbrev pub AllRestore : List (Text × E.Bitmap) → Type 0
  AllRestore [] = Unit {0}
  AllRestore ((name, b) ∷ bs) = Restores b × AllRestore bs

  -- A node without a child that the messages have, whose expressions and bitmaps can be read back.
  abbrev pub IsPortableAtom : Atom E → Type 0
  IsPortableAtom (substring s) = Unit {0}
  IsPortableAtom (regexp r) = c.parse_regex (c.regex_string r.regexp) ≡ some r.regexp
  IsPortableAtom (branch pattern exact) = Unit {0}
  IsPortableAtom (branches_repos bs) = AllRestore bs
  IsPortableAtom (repo_ids b) = Restores b
  IsPortableAtom (repo_set s) = Unit {0}
  IsPortableAtom (file_name_set s) = IsDistinct s
  IsPortableAtom (raw_config r) = r < 64
  IsPortableAtom (language l) = Unit {0}
  IsPortableAtom (repo r) = c.compile (c.compiled_string r) ≡ some r
  IsPortableAtom (repo_regexp r) = c.compile (c.compiled_string r) ≡ some r
  IsPortableAtom (meta field value) = ⊥
  IsPortableAtom (case_q flavor) = ⊥

  abbrev Returns : Atom E → Type 0
  Returns a = (m : Message) × (atom_to_proto c a ≡ ok m) × (message_from_proto c m ≡ done a)

  branches_from-branches_to :
      (bs : List (Text × E.Bitmap))
      → AllRestore bs
      → (l : List (Text × List ℕ)) × (branches_to c bs ≡ ok l) × (branches_from c l ≡ done bs)
  unfolding branches_to branches_from
  branches_from-branches_to [] h = ([], refl, refl)
  branches_from-branches_to ((name, b) ∷ bs) ((bytes, to, from), h) =
      let (l, to', from') = branches_from-branches_to bs h in
      ((name, bytes) ∷ l, rw (to, to') refl, rw (from, from') refl)

  atom-Returns : (a : Atom E) → IsPortableAtom a → Returns a
  unfolding atom_to_proto message_from_proto
  atom-Returns (substring s) h = (_, refl, refl)
  atom-Returns (regexp r) h = (_, refl, rw h refl)
  atom-Returns (branch pattern exact) h = (_, refl, refl)
  atom-Returns (branches_repos bs) h =
      let (l, to, from) = branches_from-branches_to bs h in
      (Message.branches_repos l, rw to refl, rw from refl)
  atom-Returns (repo_ids b) (bytes, to, from) = (Message.repo_ids bytes, rw to refl, rw from refl)
  atom-Returns (repo_set s) h = (_, refl, refl)
  atom-Returns (file_name_set s) h =
      (_, refl, ap (λ n. done (file_name_set n)) (file_name_set_from-IsDistinct s h))
  atom-Returns (raw_config r) h =
      (_, refl, ap (λ n. done (raw_config n)) (raw_config_from-flags_of r h))
  atom-Returns (language l) h = (_, refl, refl)
  atom-Returns (repo r) h = (_, refl, rw h refl)
  atom-Returns (repo_regexp r) h = (_, refl, rw h refl)
  atom-Returns (meta field value) h = absurd h
  atom-Returns (case_q flavor) h = absurd h

  -- A tree of such nodes, with kinds that the messages have.
  unfoldable mutual
    pub IsPortable : Q E → Type 0
    IsPortable (const b) = Unit {0}
    IsPortable (atom a) = IsPortableAtom a
    IsPortable (symbol q) = IsPortable q
    IsPortable (and cs) = AllPortable cs
    IsPortable (or cs) = AllPortable cs
    IsPortable (not q) = IsPortable q
    IsPortable (type q t) = IsPortable q × (t < 3)
    IsPortable (boost q f) = IsPortable q

    pub AllPortable : Children E → Type 0
    AllPortable nil = Unit {0}
    AllPortable (cons q cs) = IsPortable q × AllPortable cs

  mutual
    unfolding IsPortable q_to_proto q_from_proto

    tree-Returns :
        (q : Q E)
        → IsPortable q
        → (p : Proto E) × (q_to_proto c q ≡ ok p) × (q_from_proto c p ≡ done q)
    tree-Returns (const b) h = (_, refl, refl)
    tree-Returns (atom a) h =
        let (m, to, from) = atom-Returns a h in (Proto.message m, rw to refl, rw from refl)
    tree-Returns (symbol q) h =
        let (p, to, from) = tree-Returns q h in (Proto.symbol p, rw to refl, rw from refl)
    tree-Returns (and cs) h =
        let (ps, to, from) = list-Returns cs h in (Proto.and ps, rw to refl, rw from refl)
    tree-Returns (or cs) h =
        let (ps, to, from) = list-Returns cs h in (Proto.or ps, rw to refl, rw from refl)
    tree-Returns (not q) h =
        let (p, to, from) = tree-Returns q h in (Proto.not p, rw to refl, rw from refl)
    tree-Returns (type q t) h =
        let (p, to, from) = tree-Returns q h.0 in
        (
          Proto.type p (kind_of t),
          rw to refl,
          rw from (ap (λ k. done (type q k)) (type_of-kind_of t h.1)),
        )
    tree-Returns (boost q f) h =
        let (p, to, from) = tree-Returns q h in (Proto.boost p f, rw to refl, rw from refl)

    list-Returns :
        (cs : Children E)
        → AllPortable cs
        → (ps : Protos E) × (q_to_proto_list c cs ≡ ok ps) × (q_from_proto_list c ps ≡ done cs)
    list-Returns nil h = (_, refl, refl)
    list-Returns (cons q cs) h =
        let (p, to, from) = tree-Returns q h.0 in
        let (ps, to', from') = list-Returns cs h.1 in
        (Protos.cons p ps, rw (to, to') refl, rw (from, from') refl)

-- `QToProto` returns, without a panic, and `QFromProto` gives back the query it was given, for
-- trees of the nodes that the messages have: no `Meta` and no `caseQ`, kinds below 3, flags below
-- 64, sets of distinct names, and expressions and bitmaps that their own packages read back.
pub q_from_proto-q_to_proto :
    {E : External} (c : Codec E) (q : Q E)
    → IsPortable c q
    → (p : Proto E) × (q_to_proto c q ≡ ok p) × (q_from_proto c p ≡ done q)
q_from_proto-q_to_proto c q h = tree-Returns c q h
