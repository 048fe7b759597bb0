-- ===== src/MatchTree/Visible.antt =====
-- The search of a shard (`indexData.Search` of index/eval.go) shows nothing that is tombstoned or
-- of another tenant.
use zoekt.Prelude.{
  ℕ, zero, suc, ◌-◌, ◌<◌, leb, ◌==◌, if◌then◌else◌, if_cases, Bool, true, false, ◌||◌, Bool-cases,
  inl, inr, bool_eq,
}
use zoekt.Prelude.{List, [], ◌∷◌, some, ◌≡◌, ◌≢◌, refl, sym, ap, subst, arith, All, leb-false→lt}
use zoekt.Outcome.{Outcome, ok, ◌>>=◌, >>=-ok}
use zoekt.MatchTree.Content.{Libraries, ContentProvider}
use zoekt.MatchTree.Tree.{MatchTree, decide}
use zoekt.MatchTree.Docs.{MatchIterator, Leaves, greater, next_doc, prepare}
use zoekt.MatchTree.Search.{
  IndexData, Context, Limits, Answers, Counts, no_counts, same_name, tombstoned, has_access, hidden,
  over_limit, enter_repo, stops, count_matches, visible_from, search_loop, search,
}
use zoekt.MatchTree.Found.{visible_from_lem}

-- A document of the shard, of a repository that is not tombstoned and, where tenants are enforced
-- and the context is not the system's, of the tenant in the context, and whose name is no
-- tombstone.
pub record IsVisible (sh : IndexData) (ctx : Context) (d : ℕ) : Type 0 where
  pub inside : d < sh.docs
  pub alive : (sh.repo_meta_data (sh.repos d)).tombstone ≡ false
  pub allowed :
      ctx.enforce_tenant ≡ true
      → ctx.system_tenant ≡ false
      → ctx.tenant ≡ some (sh.repo_meta_data (sh.repos d)).tenant_id
  pub kept : All (λ name. name ≢ sh.file_name d) (sh.repo_meta_data (sh.repos d)).file_tombstones

same_name_refl : (a : List ℕ) → same_name a a ≡ true
unfolding same_name
same_name_refl [] = refl
same_name_refl (x ∷ xs) = let e : (x == x) ≡ true = ground arith in rw (e, same_name_refl xs) refl

tombstoned_none :
    (name : List ℕ) (ks : List (List ℕ)) → tombstoned name ks ≡ false → All (λ k. k ≢ name) ks
unfolding tombstoned
tombstoned_none name [] h = tt
tombstoned_none name (k ∷ ks) h = elim (Bool-cases (same_name name k)) [
  | inl e ↦
      let f : (true || tombstoned name ks) ≡ false =
        subst (λ b. (b || tombstoned name ks) ≡ false) e h in
      cc
  | inr e ↦ (
    λ p. let s = same_name_refl name in let q = ap (same_name name) p in cc,
    tombstoned_none name ks (subst (λ b. (b || tombstoned name ks) ≡ false) e h),
  )
]

has_access_tenant :
    (ctx : Context) (id : ℕ)
    → has_access ctx id ≡ true
    → ctx.enforce_tenant ≡ true
    → ctx.system_tenant ≡ false
    → ctx.tenant ≡ some id
unfolding has_access
has_access_tenant ctx id h e s = ground arith

none_of :
    (p q r : Bool) → (p || (bool_eq q false || r)) ≡ false → (p ≡ false) × (q ≡ true) × (r ≡ false)
none_of p q r h = ground arith

hidden-IsVisible :
    (sh : IndexData) (ctx : Context) (d : ℕ)
    → d < sh.docs
    → hidden sh ctx d ≡ false
    → IsVisible sh ctx d
unfolding hidden
hidden-IsVisible sh ctx d l h =
    let (p, q, r) = none_of _ _ _ h in
    record {
      inside = l;
      alive = p;
      allowed = λ e s. has_access_tenant ctx _ q e s;
      kept = tombstoned_none (sh.file_name d) _ r;
    }

left_false : (p q : Bool) → (p || q) ≡ false → p ≡ false
left_false p q h = ground arith

module _ {I : Type 0} (it : MatchIterator I) (e : Libraries) (cp : ℕ → ContentProvider)
    (sh : IndexData) (ctx : Context) (o : Limits) (a : Answers) (t : MatchTree) where
  -- What a run that returns `files` shows.
  abbrev Shows : Outcome (List ℕ) → Type 0
  Shows out = (files : List ℕ) → out ≡ ok files → All (IsVisible sh ctx) files

  Shows-nil : Shows (ok [])
  Shows-nil [] h = tt
  Shows-nil (x ∷ xs) h = cc

  Shows-cons :
      (d : ℕ) (out : Outcome (List ℕ))
      → IsVisible sh ctx d
      → Shows out
      → Shows (out >>= λ files. ok (d ∷ files))
  Shows-cons d out v s files h =
      let (rest, p, q) = >>=-ok (λ fs. ok (d ∷ fs)) out (sym h) in
      subst (Shows_of) (same rest files p) (v, s rest q)
    where
      Shows_of : List ℕ → Type 0
      Shows_of fs = All (IsVisible sh ctx) fs

      same : (rest' files' : List ℕ) → ok (d ∷ rest') ≡ ok files' → d ∷ rest' ≡ files'
      same rest' files' p = cc

  after_bind :
      {A : Type 0} (m : Outcome A) (f : A → Outcome (List ℕ))
      → ((x : A) → Shows (f x))
      → Shows (m >>= f)
  after_bind m f s files h = let (x, p, q) = >>=-ok f m (sym h) in s x files p

  search_loop-Shows :
      (fuel from : ℕ) (c : Counts) (ls : Leaves I)
      → Shows (search_loop it e cp sh ctx o a t fuel from c ls)
  unfolding search_loop
  search_loop-Shows zero from c ls = λ files h. cc
  search_loop-Shows (suc fuel) from c ls = after_bind (next_doc it t ls) _ (λ r.
      let g = greater r.0 from in
      let over = λ (x : ℕ). hidden sh ctx x || over_limit sh o c x in
      let d = visible_from (sh.docs - g) over g in
      let (lo, hi, hid, shown) = visible_from_lem (sh.docs - g) over g in
      if_cases Shows (leb sh.docs d) _ _ (λ x. Shows-nil)
        (λ inside.
          let l = leb-false→lt _ _ inside in
          let v = hidden-IsVisible sh ctx d l (left_false _ _ (shown (omega arith))) in
          if_cases Shows (stops o a (enter_repo (sh.repos d) c) d) _ _ (λ x. Shows-nil)
            (λ on. after_bind (prepare it d t r.1) _ (λ ls2.
              after_bind (decide e (cp d) t ls2.states) _ (λ v2.
                let rest =
                  search_loop-Shows fuel (suc d)
                    (if v2.0
                      then count_matches (a.match_count d) (enter_repo (sh.repos d) c)
                      else enter_repo (sh.repos d) c)
                    (record ls2 { states = v2.1.leaves }) in
                if_cases Shows v2.0 _ _
                  (λ x.
                    if_cases Shows (a.reserve d) _ _ (λ y. Shows-cons d _ v rest) (λ y. Shows-nil))
                  (λ x. rest))))))

-- Whatever the search of a shard returns, it shows no document of a tombstoned repository, none
-- with a tombstone for its name, and, where tenants are enforced and the context is not the
-- system's, none of a repository of another tenant than the one in the context, whatever the match
-- tree, its iterators, the limits and the answers are.
pub search-IsVisible :
    {I : Type 0} (it : MatchIterator I) (e : Libraries) (cp : ℕ → ContentProvider) (sh : IndexData)
    (ctx : Context) (o : Limits) (a : Answers) (t : MatchTree) (ls : Leaves I) (files : List ℕ)
    → search it e cp sh ctx o a t ls ≡ ok files
    → All (IsVisible sh ctx) files
unfolding search
search-IsVisible it e cp sh ctx o a t ls files h =
    search_loop-Shows it e cp sh ctx o a t (suc sh.docs) 0 no_counts ls files h
