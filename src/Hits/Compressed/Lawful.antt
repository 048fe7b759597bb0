-- ===== src/Hits/Compressed/Lawful.antt =====
-- A compressed posting iterator hands out the hits that `fromDeltas` decodes.
use zoekt.Prelude.{ℕ, zero, suc, ◌+◌, ◌%◌, ◌^◌, ◌≤◌, ◌<◌, leb, ◌==◌, if_cases, ==_iff}
use zoekt.Prelude.{
  List, [], ◌∷◌, length, ◌≡◌, refl, sym, ap, subst, ◌∙◌, arith, leb→le, leb-false→lt, lt→leb_false,
  Bool-cases, inl, inr, false,
}
use zoekt.Outcome.{Outcome, ok, >>=-ok}
use zoekt.Bits.Uvarint.{Read, read, short, overflow, uvarint, uvarint_takes}
use zoekt.Bits.Deltas.{decode_round, from_deltas_loop, from_deltas}
use zoekt.Hits.{IsLawful}
use zoekt.Hits.Lists.{
  max_u32, IsHits, Above, Above-weaken, head_or_max, drop_through, drop_through_le,
  drop_through_behind,
}
use zoekt.Hits.Lists.{drop_through_max}
use zoekt.Hits.Compressed.{
  CompressedPostingIterator, Cursor, start, new_compressed_posting_iterator,
}
use zoekt.Hits.Compressed.{skip_round, skip_loop, spent_hit, first, next, compressed}

-- The hits behind a first hit and a blob.
pub data Denotes (hit : ℕ) (blob : List ℕ) (hits : List ℕ) : Type 0 where
  spent : hit ≡ max_u32 → hits ≡ [] → Denotes hit blob hits
  live :
      (fuel : ℕ) (ps : List ℕ)
      → hits ≡ hit ∷ ps
      → from_deltas_loop (2 ^ 32) fuel blob hit ≡ ok ps
      → IsHits (hit ∷ ps)
      → Denotes hit blob hits

Denotes-IsHits : (hit : ℕ) (blob hits : List ℕ) → Denotes hit blob hits → IsHits hits
Denotes-IsHits hit blob hits (spent h e) = rw e tt
Denotes-IsHits hit blob hits (live fuel ps e d h) = rw e h

head-Denotes : (hit : ℕ) (blob hits : List ℕ) → Denotes hit blob hits → hit ≡ head_or_max hits
head-Denotes hit blob hits (spent h e) = rw e h
head-Denotes hit blob hits (live fuel ps e d h) = rw e refl

-- The loop ends at a cursor behind which the hits past the limit stand.
abbrev Skips : ℕ → Outcome Cursor → List ℕ → Type 0
Skips limit o hits =
    (c : Cursor) × (o ≡ ok c)
    × Denotes (spent_hit limit c.hit c.rest) c.rest (drop_through limit hits)

skip_end :
    (limit hit loaded : ℕ)
    → hit < max_u32
    → Skips limit (ok (record { hit = hit; rest = []; loaded = loaded })) (hit ∷ [])
skip_end limit hit loaded h = (
  record { hit = hit; rest = []; loaded = loaded },
  refl,
  elim (Bool-cases (leb hit limit)) [
    | inl e ↦
        rw e
          (spent refl (drop_through_le limit hit [] (leb→le _ _ e) ∙ unfold drop_through in refl))
    | inr e ↦
        let a : Above (limit + 1) (hit ∷ []) = let l = leb-false→lt _ _ e in (omega arith, h, tt) in
        rw e (
          live 0 [] (drop_through_behind limit (limit + 1) (hit ∷ []) (omega arith) a)
            (unfold from_deltas_loop in refl) (omega arith, h, tt))
  ],
)

skip_here :
    (limit hit loaded b fuel : ℕ) (bs ps : List ℕ)
    → limit < hit
    → from_deltas_loop (2 ^ 32) fuel (b ∷ bs) hit ≡ ok ps
    → IsHits (hit ∷ ps)
    → Skips limit (ok (record { hit = hit; rest = b ∷ bs; loaded = loaded })) (hit ∷ ps)
skip_here limit hit loaded b fuel bs ps l d h =
    let a : Above (limit + 1) (hit ∷ ps) = (omega arith, h.1, h.2) in
    (
      record { hit = hit; rest = b ∷ bs; loaded = loaded },
      refl,
      live fuel ps (drop_through_behind limit (limit + 1) (hit ∷ ps) (omega arith) a) d h,
    )

skip_loop_lem :
    (fuel limit hit : ℕ) (blob : List ℕ) (loaded f : ℕ) (ps : List ℕ)
    → length blob ≤ fuel
    → from_deltas_loop (2 ^ 32) f blob hit ≡ ok ps
    → IsHits (hit ∷ ps)
    → Skips limit (skip_loop fuel limit hit blob loaded) (hit ∷ ps)
unfolding skip_loop from_deltas_loop
skip_loop_lem fuel limit hit [] loaded f ps k d h =
    let e : ps ≡ [] = cc in rw e (skip_end limit hit loaded h.1)
skip_loop_lem zero limit hit (b ∷ bs) loaded f ps k d h = absurd (omega arith)
skip_loop_lem (suc fuel) limit hit (b ∷ bs) loaded zero ps k d h = cc
skip_loop_lem (suc fuel) limit hit (b ∷ bs) loaded (suc f) ps k d h =
    if_cases (λ o. Skips limit o (hit ∷ ps)) (leb hit limit) _ _
      (λ e.
        round (uvarint (b ∷ bs)) (leb→le _ _ e) (λ v rest r. uvarint_takes (b ∷ bs) v rest r)
          (λ rest hit' loaded' qs l d' h'. skip_loop_lem fuel limit hit' rest loaded' f qs l d' h')
          d)
      (λ e. skip_here limit hit loaded b (suc f) bs ps (leb-false→lt _ _ e) d h)
  where
    round :
        (r : Read)
        → hit ≤ limit
        → ((v : ℕ) (rest : List ℕ) → r ≡ read v rest → length rest < length (b ∷ bs))
        → ((rest : List ℕ) (hit' loaded' : ℕ) (qs : List ℕ)
            → length rest ≤ fuel
            → from_deltas_loop (2 ^ 32) f rest hit' ≡ ok qs
            → IsHits (hit' ∷ qs)
            → Skips limit (skip_loop fuel limit hit' rest loaded') (hit' ∷ qs))
        → decode_round (2 ^ 32) hit (from_deltas_loop (2 ^ 32) f) r ≡ ok ps
        → Skips limit
            (skip_round
              (length (b ∷ bs))
              hit
              loaded
              (λ c. skip_loop fuel limit c.hit c.rest c.loaded)
              r)
            (hit ∷ ps)
    round short le takes ih d' = cc
    round overflow le takes ih d' = cc
    round (read v rest) le takes ih d' =
        let (qs, e, d'') = >>=-ok _ (from_deltas_loop (2 ^ 32) f rest _) (sym d') in
        let off = (hit + v % 2 ^ 32) % 2 ^ 32 in
        let same : off ∷ qs ≡ ps = cc in
        let valid : IsHits (off ∷ qs) =
          subst IsHits (sym same) (Above-weaken (hit + 1) 0 ps (omega arith) h.2) in
        let shorter = takes v rest refl in
        let (c, e', den) = ih rest off _ qs (omega arith) d'' valid in
        let left : drop_through limit (hit ∷ ps) ≡ drop_through limit (off ∷ qs) =
          drop_through_le limit hit ps le ∙ ap (drop_through limit) (sym same) in
        (c, e', rw left den)

skip_loop_stop :
    (fuel limit hit : ℕ) (blob : List ℕ) (loaded : ℕ)
    → limit < hit
    → skip_loop fuel limit hit blob loaded ≡ ok (record { hit = hit; rest = blob; loaded = loaded })
unfolding skip_loop
skip_loop_stop fuel limit hit [] loaded h = refl
skip_loop_stop zero limit hit (b ∷ bs) loaded h = rw (lt→leb_false hit limit h)
skip_loop_stop (suc fuel) limit hit (b ∷ bs) loaded h = rw (lt→leb_false hit limit h)

spent_hit_stop : (limit hit : ℕ) (blob : List ℕ) → limit < hit → spent_hit limit hit blob ≡ hit
spent_hit_stop limit hit [] h = rw (lt→leb_false hit limit h)
spent_hit_stop limit hit (b ∷ bs) h = refl

-- `next` on an iterator that stands for a list.
next_lem :
    (limit : ℕ) (i : CompressedPostingIterator) (hits : List ℕ)
    → limit < 2 ^ 32
    → Denotes i.first_hit i.blob hits
    → (j : CompressedPostingIterator) × (next limit i ≡ ok j)
      × Denotes j.first_hit j.blob (drop_through limit hits)
next_lem limit i hits small d = elim (Bool-cases (limit == max_u32)) [
  | inl e ↦
      let full : max_u32 ≤ limit = let m = (==_iff limit max_u32).0 e in omega arith in
      (
        record i { blob = []; first_hit = max_u32 },
        unfold next in rw e,
        spent refl (drop_through_max limit hits full (Denotes-IsHits i.first_hit i.blob hits d)),
      )
  | inr e ↦ below e d
]
  where
    -- A spent iterator stays spent, a live one runs the loop.
    below :
        (limit == max_u32) ≡ false
        → Denotes i.first_hit i.blob hits
        → (j : CompressedPostingIterator) × (next limit i ≡ ok j)
          × Denotes j.first_hit j.blob (drop_through limit hits)
    below e (spent h n) =
        let less : limit < i.first_hit = ground (arith, h) in
        (
          record i {
            blob = i.blob;
            index_bytes_loaded = i.index_bytes_loaded;
            first_hit = spent_hit limit i.first_hit i.blob;
          },
          unfold next in
              rw (
                e,
                skip_loop_stop (length i.blob) limit i.first_hit i.blob i.index_bytes_loaded less,
              ),
          rw (spent_hit_stop limit i.first_hit i.blob less)
              (spent h (rw n (unfold drop_through in refl))),
        )
    below e (live f ps l d' h) =
        let (c, s, den) =
          skip_loop_lem (length i.blob) limit i.first_hit i.blob i.index_bytes_loaded f ps
            (omega arith) d' h in
        (
          record i {
            blob = c.rest;
            index_bytes_loaded = c.loaded;
            first_hit = spent_hit limit c.hit c.rest;
          },
          unfold next in rw (e, s),
          rw l den,
        )

abbrev pub Decodes : CompressedPostingIterator → List ℕ → Type 0
Decodes i hits = Denotes i.first_hit i.blob hits

-- A compressed posting iterator is lawful: it stands for the hits that `fromDeltas` decodes from
-- its first hit and its blob, which have to ascend strictly below math.MaxUint32.
pub compressed-IsLawful : IsLawful compressed Decodes
unfolding first
compressed-IsLawful = record {
  denotes-IsHits = λ i hits d. Denotes-IsHits i.first_hit i.blob hits d;
  first_lem = λ i hits d. (i, ap (λ h. ok (h, i)) (head-Denotes i.first_hit i.blob hits d), d);
  next_lem = next_lem;
}

-- A new iterator on a blob that is not empty stands for the list that `fromDeltas` decodes from the
-- blob, if that list ascends strictly below math.MaxUint32.
pub new-Denotes :
    (b w : ℕ) (bs hits : List ℕ)
    → from_deltas (b ∷ bs) ≡ ok hits
    → IsHits hits
    → (i : CompressedPostingIterator) × (new_compressed_posting_iterator (b ∷ bs) w ≡ ok i)
      × Decodes i hits
unfolding from_deltas new_compressed_posting_iterator
new-Denotes b w bs hits d h = go (uvarint (b ∷ bs)) d
  where
    go :
        (r : Read)
        → decode_round (2 ^ 32) 0 (from_deltas_loop (2 ^ 32) (length bs)) r ≡ ok hits
        → (i : CompressedPostingIterator) × (start (b ∷ bs) w r ≡ ok i)
          × Denotes i.first_hit i.blob hits
    go short d' = cc
    go overflow d' = cc
    go (read v rest) d' =
        let (qs, e, d'') = >>=-ok _ (from_deltas_loop (2 ^ 32) (length bs) rest _) (sym d') in
        let z : (0 + v % 2 ^ 32) % 2 ^ 32 ≡ v % 2 ^ 32 = omega arith in
        let same : v % 2 ^ 32 ∷ qs ≡ hits = ap (λ x. x ∷ qs) (sym z) ∙ cc in
        (
          _,
          refl,
          live (length bs) qs (sym same)
              (subst (λ x. from_deltas_loop (2 ^ 32) (length bs) rest x ≡ ok qs) z d'')
              (subst IsHits (sym same) h),
        )
