-- ===== src/Hits/Merging/Lawful.antt =====
-- A merging iterator hands out the union of the hits of its iterators.
use zoekt.Prelude.{ℕ, ◌^◌, ◌<◌, ◌≤◌, List, [], ◌∷◌, ◌≡◌, refl, sym, ap, ◌∙◌, arith}
use zoekt.Outcome.{ok}
use zoekt.Hits.{HitIterator, IsLawful}
use zoekt.Hits.Lists.{max_u32, IsHits, head_or_max, drop_through}
use zoekt.Hits.Merging.{MergingIterator, first_loop, first, next_loop, next, merging}
use zoekt.Hits.Merging.Union.{union, lesser, union-Above, head-union, drop_through-union}

abbrev pub unions : List (List ℕ) → List ℕ
unions [] = []
unions (l ∷ ls) = union l (unions ls)

lesser_assoc : (a b c : ℕ) → lesser (lesser a b) c ≡ lesser a (lesser b c)
lesser_assoc a b c = ground arith

lesser_max : (hits : List ℕ) → IsHits hits → lesser max_u32 (head_or_max hits) ≡ head_or_max hits
lesser_max [] h = refl
lesser_max (p ∷ ps) h = let small = h.1 in ground arith

lesser-le_max : (r : ℕ) → r ≤ max_u32 → lesser r max_u32 ≡ r
lesser-le_max r h = ground arith

lesser-le : (r a : ℕ) → r ≤ max_u32 → lesser r a ≤ max_u32
lesser-le r a h = ground arith

module _ {S : Type 0} (Denotes : S → List ℕ → Type 0) where
  -- Each iterator stands for the list at its place.
  abbrev Each : List S → List (List ℕ) → Type 0
  Each [] [] = Unit {0}
  Each (j ∷ js) [] = ⊥
  Each [] (l ∷ ls) = ⊥
  Each (j ∷ js) (l ∷ ls) = Denotes j l × Each js ls

  -- The union of the lists for which the iterators stand.
  abbrev pub Merges : MergingIterator S → List ℕ → Type 0
  Merges i hits = (ls : List (List ℕ)) × Each i.iters ls × (hits ≡ unions ls)

module _ {S : Type 0} {Denotes : S → List ℕ → Type 0} (it : HitIterator S)
    (law : IsLawful it Denotes) where
  open law use {denotes-IsHits, first_lem, next_lem}

  unions-IsHits : (js : List S) (ls : List (List ℕ)) → Each Denotes js ls → IsHits (unions ls)
  unions-IsHits [] [] e = tt
  unions-IsHits (j ∷ js) [] e = absurd e
  unions-IsHits [] (l ∷ ls) e = absurd e
  unions-IsHits (j ∷ js) (l ∷ ls) e =
      union-Above 0 l (unions ls) (denotes-IsHits j l e.0) (unions-IsHits js ls e.1)

  first_loop_lem :
      (js : List S) (ls : List (List ℕ)) (r : ℕ)
      → Each Denotes js ls
      → r ≤ max_u32
      → (js' : List S) × (first_loop it r js ≡ ok (lesser r (head_or_max (unions ls)), js'))
        × Each Denotes js' ls
  unfolding first_loop
  first_loop_lem [] [] r e h = ([], ap (λ x. ok (x, [])) (sym (lesser-le_max r h)), tt)
  first_loop_lem (j ∷ js) [] r e h = absurd e
  first_loop_lem [] (l ∷ ls) r e h = absurd e
  first_loop_lem (j ∷ js) (l ∷ ls) r e h =
      let (j', p, d) = first_lem j l e.0 in
      let (js', q, ds) =
        first_loop_lem js ls (lesser r (head_or_max l)) e.1 (lesser-le r (head_or_max l) h) in
      let least =
        lesser_assoc r (head_or_max l) (head_or_max (unions ls))
        ∙ ap (lesser r)
            (sym (head-union l (unions ls) (denotes-IsHits j l e.0) (unions-IsHits js ls e.1))) in
      (j' ∷ js', rw (p, q, least), (d, ds))

  next_loop_lem :
      (limit : ℕ) (js : List S) (ls : List (List ℕ))
      → limit < 2 ^ 32
      → Each Denotes js ls
      → (js' : List S) × (next_loop it limit js ≡ ok js')
        × (ls' : List (List ℕ)) × Each Denotes js' ls'
        × (unions ls' ≡ drop_through limit (unions ls))
  unfolding next_loop
  next_loop_lem limit [] [] h e = ([], refl, [], tt, unfold drop_through in refl)
  next_loop_lem limit (j ∷ js) [] h e = absurd e
  next_loop_lem limit [] (l ∷ ls) h e = absurd e
  next_loop_lem limit (j ∷ js) (l ∷ ls) h e =
      let (j', p, d) = next_lem limit j l h e.0 in
      let (js', q, ls', ds, u) = next_loop_lem limit js ls h e.1 in
      let both =
        drop_through-union limit 0 l (unions ls) (denotes-IsHits j l e.0)
          (unions-IsHits js ls e.1) in
      (
        j' ∷ js',
        rw (p, q),
        drop_through limit l ∷ ls',
        (d, ds),
        ap (union (drop_through limit l)) u ∙ sym both,
      )

  -- A merging iterator over lawful iterators is lawful: it stands for the union of the lists that
  -- they stand for, each hit taken once.
  pub merging-IsLawful : IsLawful (merging it) (Merges Denotes)
  unfolding first next
  merging-IsLawful = record {
    denotes-IsHits = λ i hits (ls, e, u). rw u (unions-IsHits i.iters ls e);
    first_lem = λ i hits (ls, e, u).
        let (js', p, ds) = first_loop_lem i.iters ls max_u32 e (omega arith) in
        (
          record i { iters = js' },
          rw (p, lesser_max (unions ls) (unions-IsHits i.iters ls e), u),
          (ls, ds, u),
        );
    next_lem = λ limit i hits h (ls, e, u).
        let (js', p, ls', ds, v) = next_loop_lem limit i.iters ls h e in
        (record i { iters = js' }, rw p, (ls', ds, rw u (sym v)));
  }
