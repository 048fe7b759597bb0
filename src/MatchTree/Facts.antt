-- ===== src/MatchTree/Facts.antt =====
-- What the leaves of a match tree say of the documents of a shard, and where they stand in it.
use zoekt.Prelude.{
  ℕ, zero, suc, ◌+◌, ◌-◌, ◌^◌, ◌<◌, ◌≤◌, ltb, Bool, true, false, Bool-cases, inl, inr,
}
use zoekt.Prelude.{List, [], length, ◌≡◌, refl, sym, ap, subst, ◌∙◌, arith}
use native.Mathlib.Decide.{ℕ_discrete}
use zoekt.Outcome.{ok}
use zoekt.Hits.Lists.{max_u32}
use zoekt.MatchTree.Content.{Libraries, ContentProvider, CandidateMatch}
use zoekt.MatchTree.Leaf.{
  Leaf, no_match, brute_force, doc, branch, regexp, word, substr, LeafState, branch_mask, start_doc,
}
use zoekt.MatchTree.Leaf.{non_empty, prune, regexp_found, word_found}
use zoekt.MatchTree.Verdict.{Verdict}
use zoekt.MatchTree.Docs.{MatchIterator, doc_loop, branch_loop, leaf_next_doc, leaf_prepare}

-- An iterator stands for the candidates of each document from `from` on: `nextDoc` skips documents
-- without candidates only, and `prepare` and `candidates` give those of a document.
pub record IsMatchIterator {I : Type 0} (it : MatchIterator I) (docs : ℕ)
    (Denotes : (ℕ → List CandidateMatch) → ℕ → I → Type 0) : Type 0 where
  pub next_doc_lem :
      (cs : ℕ → List CandidateMatch) (from : ℕ) (i : I)
      → Denotes cs from i
      → (m : ℕ) × (i' : I) × (it.next_doc_of i ≡ ok (m, i'))
        × Denotes cs from i'
        × ((d : ℕ) → from ≤ d → d < m → d < docs → cs d ≡ [])
  pub candidates_lem :
      (cs : ℕ → List CandidateMatch) (from d : ℕ) (i : I)
      → Denotes cs from i
      → from ≤ d
      → d < docs
      → (i1 : I) × (i2 : I) × (it.prepare_for d i ≡ ok i1)
        × (it.candidates_of i1 ≡ ok (cs d, i2))
        × Denotes cs (d + 1) i2

-- A leaf that goes through the documents knows how many there are.
abbrev pub IsSized : ℕ → Leaf → Type 0
IsSized docs (doc num_docs predicate) = num_docs ≡ docs
IsSized docs (branch file_masks masks repos) = length file_masks ≡ docs
IsSized docs l = Unit {0}

-- What `nextDoc` returns is not behind a document of which the leaf says yes.
abbrev pub Skips : ℕ → ℕ → ℕ → (ℕ → Bool) → Type 0
Skips docs from m says = (d : ℕ) → from ≤ d → d < m → d < docs → says d ≡ false

doc_loop-skips :
    (left : ℕ) (p : ℕ → Bool) (i d : ℕ) → i ≤ d → d < doc_loop left p i → d < i + left → p d ≡ false
unfolding doc_loop
doc_loop-skips zero p i d a b c = absurd (omega arith)
doc_loop-skips (suc left) p i d a b c = elim (Bool-cases (p i)) [
  | inl yes' ↦ let b' : d < i = rw yes' at b in absurd (omega arith)
  | inr no' ↦
      let b' : d < doc_loop left p (suc i) = rw no' at b in
      elim (ℕ_discrete i d) [
        | yes same ↦ subst (λ k. p k ≡ false) same no'
        | no other ↦ doc_loop-skips left p (suc i) d (omega arith) b' (omega arith)
      ]
]

branch_loop-skips :
    (left : ℕ) (file_masks masks repos : List ℕ) (i : ℕ)
    → ((d : ℕ)
        → i ≤ d
        → d < i + left
        → (mask : ℕ) × (branch_mask file_masks masks repos d ≡ ok mask))
    → (m : ℕ) × (branch_loop left file_masks masks repos i ≡ ok m)
      × ((d mask : ℕ)
          → i ≤ d
          → d < m
          → d < i + left
          → branch_mask file_masks masks repos d ≡ ok mask
          → ltb 0 mask ≡ false)
unfolding branch_loop
branch_loop-skips zero fs ms rs i total = (max_u32, refl, λ d mask a b c h. absurd (omega arith))
branch_loop-skips (suc left) fs ms rs i total =
    let (mask, p) = total i (omega arith) (omega arith) in
    let (m, q, skips) =
      branch_loop-skips left fs ms rs (suc i) (λ d a b. total d (omega arith) (omega arith)) in
    elim (Bool-cases (ltb 0 mask)) [
      | inl on ↦ (i, rw (p, on) refl, λ d mask' a b c h. absurd (omega arith))
      | inr off ↦ (
        m,
        rw (p, off) q,
        λ d mask' a b c h. elim (ℕ_discrete i d) [
          | yes same ↦ same_mask mask mask' i d same p h off
          | no other ↦ skips d mask' (omega arith) b (omega arith) h
        ],
      )
    ]
  where
    same_mask :
        (mask mask' i d : ℕ)
        → i ≡ d
        → branch_mask fs ms rs i ≡ ok mask
        → branch_mask fs ms rs d ≡ ok mask'
        → ltb 0 mask ≡ false
        → ltb 0 mask' ≡ false
    same_mask mask mask' i d same p h off =
        let q : ok mask ≡ ok mask' = sym p ∙ ap (branch_mask fs ms rs) same ∙ h in
        let r : mask ≡ mask' = cc in subst (λ k. ltb 0 k ≡ false) r off

-- Where a leaf begins to look for the next document; it does not depend on that for some.
abbrev pub StartsAt : Leaf → LeafState → ℕ → Type 0
StartsAt no_match s from = Unit {0}
StartsAt (substr f) s from = Unit {0}
StartsAt l s from = start_doc s ≡ from

pub leaf_prepare-StartsAt :
    (l : Leaf) (d : ℕ) (cs : List CandidateMatch) (s : LeafState)
    → d + 1 < 2 ^ 32
    → StartsAt l (leaf_prepare d l cs s) (d + 1)
unfolding leaf_prepare
leaf_prepare-StartsAt no_match d cs s h = tt
leaf_prepare-StartsAt brute_force d cs s h = omega arith
leaf_prepare-StartsAt (doc num_docs predicate) d cs s h = omega arith
leaf_prepare-StartsAt (branch file_masks masks repos) d cs s h = omega arith
leaf_prepare-StartsAt (regexp re f) d cs s h = omega arith
leaf_prepare-StartsAt (word text f) d cs s h = omega arith
leaf_prepare-StartsAt (substr f) d cs s h = tt

-- The leaves but substring leaves, which have iterators.
abbrev pub IsPlain : Leaf → Type 0
IsPlain (substr f) = ⊥
IsPlain l = Unit {0}

module _ (e : Libraries) (cp : ℕ → ContentProvider) (docs : ℕ) where
  -- The leaf says `b` of the document `d`; `cs` are its candidates there.
  abbrev pub Says : Leaf → ℕ → List CandidateMatch → Bool → Type 0
  Says no_match d cs b = b ≡ false
  Says brute_force d cs b = b ≡ true
  Says (doc num_docs predicate) d cs b = b ≡ predicate d
  Says (branch file_masks masks repos) d cs b =
      (mask : ℕ) × (branch_mask file_masks masks repos d ≡ ok mask) × (b ≡ ltb 0 mask)
  Says (regexp re f) d cs b = b ≡ non_empty (regexp_found e (cp d) re f)
  Says (word text f) d cs b =
      (ms : List CandidateMatch) × (word_found e (cp d) text f ≡ ok ms) × (b ≡ non_empty ms)
  Says (substr f) d cs b =
      (ms : List CandidateMatch) × (prune e (cp d) cs ≡ ok ms) × (b ≡ non_empty ms)

  -- A prepared leaf is ready to say it.
  pub leaf_prepare-Verdict :
      (l : Leaf) (d : ℕ) (cs : List CandidateMatch) (b : Bool) (s : LeafState)
      → (cp d).idx ≡ d
      → Says l d cs b
      → Verdict e (cp d) l (leaf_prepare d l cs s) b
  unfolding leaf_prepare
  leaf_prepare-Verdict no_match d cs b s i h = h
  leaf_prepare-Verdict brute_force d cs b s i h = h
  leaf_prepare-Verdict (doc num_docs predicate) d cs b s i h = h ∙ ap predicate (sym i)
  leaf_prepare-Verdict (branch file_masks masks repos) d cs b s i h = h
  leaf_prepare-Verdict (regexp re f) d cs b s i h = inr (refl, regexp_found e (cp d) re f, refl, h)
  leaf_prepare-Verdict (word text f) d cs b s i h = inr (refl, h.0, h.1, h.2)
  leaf_prepare-Verdict (substr f) d cs b s i h = inr (refl, h.0, h.1, h.2)

  pub leaf_next_doc-Skips :
      (l : Leaf) (s : LeafState) (from : ℕ) (says : ℕ → Bool) (cs : ℕ → List CandidateMatch)
      → IsPlain l
      → IsSized docs l
      → StartsAt l s from
      → ((d : ℕ) → d < docs → Says l d (cs d) (says d))
      → (m : ℕ) × (leaf_next_doc l s ≡ ok m) × Skips docs from m says
  unfolding leaf_next_doc
  leaf_next_doc-Skips no_match s from says cs pl sz st h = (max_u32, refl, λ d a b c. h d c)
  leaf_next_doc-Skips brute_force s from says cs pl sz st h =
      (start_doc s, refl, λ d a b c. absurd (omega arith))
  leaf_next_doc-Skips (doc num_docs predicate) s from says cs pl sz st h = (
    doc_loop (num_docs - start_doc s) predicate (start_doc s),
    refl,
    λ d a b c.
        h d c
        ∙ doc_loop-skips (num_docs - start_doc s) predicate (start_doc s) d (omega arith) b
            (omega arith),
  )
  leaf_next_doc-Skips (branch fs ms rs) s from says cs pl sz st h =
      let (m, q, skips) =
        branch_loop-skips (length fs - start_doc s) fs ms rs (start_doc s)
          (λ d a b. let t = h d (omega arith) in (t.0, t.1)) in
      (m, q, λ d a b c. let t = h d c in t.2 ∙ skips d t.0 (omega arith) b (omega arith) t.1)
  leaf_next_doc-Skips (regexp re f) s from says cs pl sz st h =
      (start_doc s, refl, λ d a b c. absurd (omega arith))
  leaf_next_doc-Skips (word text f) s from says cs pl sz st h =
      (start_doc s, refl, λ d a b c. absurd (omega arith))
  leaf_next_doc-Skips (substr f) s from says cs pl sz st h = absurd pl
