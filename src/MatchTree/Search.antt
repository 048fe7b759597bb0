-- ===== src/MatchTree/Search.antt =====
-- The loop of `indexData.Search` (index/eval.go) over the documents of a shard: which documents it
-- passes over, when it stops, and which files it keeps. What the loop asks of others, it asks at
-- most once for a document, so these answers are functions of the document.
use zoekt.Prelude.{
  ℕ, zero, suc, ◌+◌, ◌-◌, ltb, leb, ◌==◌, if◌then◌else◌, Bool, true, false, ◌&&◌, ◌||◌, bool_eq,
  List, [], ◌∷◌, Option, none, some,
}
use zoekt.Outcome.{Outcome, ok, diverges, ◌>>=◌}
use zoekt.MatchTree.Content.{Libraries, ContentProvider}
use zoekt.MatchTree.Tree.{MatchTree, decide}
use zoekt.MatchTree.Docs.{MatchIterator, Leaves, greater, next_doc, prepare}

-- Equality of the bytes of two names.
unfoldable pub same_name : List ℕ → List ℕ → Bool
same_name [] [] = true
same_name [] (b ∷ bs) = false
same_name (a ∷ as') [] = false
same_name (a ∷ as') (b ∷ bs) = (a == b) && same_name as' bs

-- A look-up among the keys of `FileTombstones`.
unfoldable pub tombstoned : List ℕ → List (List ℕ) → Bool
unfolding same_name
tombstoned name [] = false
tombstoned name (k ∷ ks) = same_name name k || tombstoned name ks

-- Of `zoekt.Repository` the fields that the loop reads.
pub record Repository : Type 0 where
  pub tombstone : Bool
  pub tenant_id : ℕ
  pub file_tombstones : List (List ℕ)

-- Of `indexData`, with `docs` the number of `fileBranchMasks`.
pub record IndexData : Type 0 where
  pub docs : ℕ
  pub repos : ℕ → ℕ
  pub repo_meta_data : ℕ → Repository
  pub file_name : ℕ → List ℕ

-- What a context says of a tenant: whether tenants are enforced, whether it is the system's, and
-- the ID of the tenant that it carries, if any.
pub record Context : Type 0 where
  pub enforce_tenant : Bool
  pub system_tenant : Bool
  pub tenant : Option ℕ

-- `tenant.HasAccess`
unfoldable pub has_access : Context → ℕ → Bool
has_access ctx id =
    if bool_eq ctx.enforce_tenant false
    then true
    else (if ctx.system_tenant then true else elim ctx.tenant [ some t ↦ t == id | none ↦ false ])

-- The skips for tombstones and tenants.
unfoldable pub hidden : IndexData → Context → ℕ → Bool
unfolding has_access tombstoned
hidden sh ctx d =
    let repo = sh.repo_meta_data (sh.repos d) in
    repo.tombstone
    || (bool_eq (has_access ctx repo.tenant_id) false
        || tombstoned (sh.file_name d) repo.file_tombstones)

-- The limits of `SearchOptions`; 0 stands for every number that is not positive.
pub record Limits : Type 0 where
  pub shard_max_match_count : ℕ
  pub shard_repo_max_match_count : ℕ

-- What others answer in the round that looks at a document: whether the context is cancelled,
-- whether the budget is exhausted, how many matches `gatherMatches` and what fills the file give,
-- and whether the budget has room for the file.
pub record Answers : Type 0 where
  pub canceled : ℕ → Bool
  pub exhausted : ℕ → Bool
  pub match_count : ℕ → ℕ
  pub reserve : ℕ → Bool

-- `lastRepoID`, `repoMatchCount` and `res.Stats.MatchCount`
pub record Counts : Type 0 where
  pub last_repo_id : ℕ
  pub repo_match_count : ℕ
  pub match_count : ℕ

abbrev pub no_counts : Counts
no_counts = record { last_repo_id = 0; repo_match_count = 0; match_count = 0 }

-- The skip of documents over ShardRepoMaxMatchCount.
unfoldable pub over_limit : IndexData → Limits → Counts → ℕ → Bool
over_limit sh o c d =
    ltb 0 o.shard_repo_max_match_count
    && (leb o.shard_repo_max_match_count c.repo_match_count && (sh.repos d == c.last_repo_id))

-- The first document from `d` on that is not passed over, with `left` to go.
unfoldable pub visible_from : ℕ → (ℕ → Bool) → ℕ → ℕ
visible_from zero skipped d = d
visible_from (suc left) skipped d =
    let more = visible_from left skipped (suc d) in if skipped d then more else d

-- The counts of a round that looks at a document of the repository `r`.
unfoldable pub enter_repo : ℕ → Counts → Counts
enter_repo r c =
    if c.last_repo_id == r then c else record c { last_repo_id = r; repo_match_count = 0 }

-- `canceled || budget.Exhausted() || ...`
unfoldable pub stops : Limits → Answers → Counts → ℕ → Bool
stops o a c d =
    a.canceled d
    || (a.exhausted d
        || (leb o.shard_max_match_count c.match_count && ltb 0 o.shard_max_match_count))

unfoldable pub count_matches : ℕ → Counts → Counts
count_matches n c = record c {
  repo_match_count = c.repo_match_count + n;
  match_count = c.match_count + n;
}

module _ {I : Type 0} (it : MatchIterator I) (e : Libraries) (cp : ℕ → ContentProvider)
    (sh : IndexData) (ctx : Context) (o : Limits) (a : Answers) (t : MatchTree) where
  -- The loop, with `from` the document behind `lastDoc`. Each round goes on behind the document
  -- that it looks at, so one round more than there are documents is enough fuel.
  unfoldable pub search_loop : ℕ → ℕ → Counts → Leaves I → Outcome (List ℕ)
  unfolding visible_from
  search_loop zero from c ls = diverges
  search_loop (suc fuel) from c ls = next_doc it t ls >>= λ r.
      let g = greater r.0 from in
      let d = visible_from (sh.docs - g) (λ x. hidden sh ctx x || over_limit sh o c x) g in
      let c1 = enter_repo (sh.repos d) c in
      let matched = prepare it d t r.1 >>= λ ls2. decide e (cp d) t ls2.states >>= λ v.
      let c2 = if v.0 then count_matches (a.match_count d) c1 else c1 in
      let rest = search_loop fuel (suc d) c2 (record ls2 { states = v.1.leaves }) in
      let kept = if a.reserve d then (rest >>= λ files. ok (d ∷ files)) else ok [] in
      if v.0 then kept else rest in
      if leb sh.docs d then ok [] else (if stops o a c1 d then ok [] else matched)

  unfoldable pub search : Leaves I → Outcome (List ℕ)
  unfolding search_loop
  search ls = search_loop (suc sh.docs) 0 no_counts ls
