-- ===== src/Budget/Bound.antt =====
-- The bound of a budget holds however its goroutines interleave (internal/searchbudget/budget.go).
use zoekt.Prelude.{
  ℕ, zero, suc, ◌+◌, ◌-◌, ◌%◌, ◌^◌, ◌≤◌, ◌<◌, ◌==◌, ==_iff, ltb→lt, ltb-false→le, true, false,
  if_cases, subst,
}
use zoekt.Prelude.{◌≡◌, refl, ap, sym, ◌∙◌, List, [], ◌∷◌, arith}
use zoekt.Budget.{
  FileMatch, Budget, new, exhausted, size, int64_less, Pc, load, swap, refuse, kept, refused,
  reserve, Reserving, advance, step, run, calls,
}

-- What a goroutine has added to `used`.
abbrev pub gain : ℕ → Pc → ℕ
gain n load = 0
gain n (swap used) = 0
gain n refuse = 0
gain n kept = n
gain n refused = 0

abbrev pub kept_size : List Reserving → ℕ
kept_size [] = 0
kept_size (t ∷ ts) = gain (size t.file) t.pc + kept_size ts

-- A file that is refused has no room, and one that is about to be kept had room.
abbrev pub Fair : ℕ → Budget → ℕ → Pc → Type 0
Fair limit b n load = Unit {0}
Fair limit b n (swap used) = used + n ≤ limit
Fair limit b n refuse = limit < b.used + n
Fair limit b n kept = Unit {0}
Fair limit b n refused = (limit < b.used + n) × (exhausted b ≡ true)

abbrev pub AllFair : ℕ → Budget → List Reserving → Type 0
AllFair limit b [] = Unit {0}
AllFair limit b (t ∷ ts) = Fair limit b (size t.file) t.pc × AllFair limit b ts

-- An int64 counts the size of each file.
abbrev pub AllCounted : List FileMatch → Type 0
AllCounted [] = Unit {0}
AllCounted (f ∷ fs) = (size f < 2 ^ 63) × AllCounted fs

abbrev pub files : List Reserving → List FileMatch
files [] = []
files (t ∷ ts) = t.file ∷ files ts

-- What later steps keep of a budget.
record IsLater (limit : ℕ) (b b' : Budget) : Type 0 where
  limit-kept : b'.limit ≡ limit
  grown : b.used ≤ b'.used
  bounded : b'.used ≤ limit
  exhausted-kept : exhausted b ≡ true → exhausted b' ≡ true

Fair-later :
    (limit : ℕ) (b b' : Budget) (n : ℕ) (pc : Pc)
    → IsLater limit b b'
    → Fair limit b n pc
    → Fair limit b' n pc
Fair-later limit b b' n load l h = tt
Fair-later limit b b' n (swap used) l h = h
Fair-later limit b b' n refuse l h = let g = l.grown in omega arith
Fair-later limit b b' n kept l h = tt
Fair-later limit b b' n refused l h = let g = l.grown in (omega arith, l.exhausted-kept h.1)

AllFair-later :
    (limit : ℕ) (b b' : Budget) (ts : List Reserving)
    → IsLater limit b b'
    → AllFair limit b ts
    → AllFair limit b' ts
AllFair-later limit b b' [] l h = tt
AllFair-later limit b b' (t ∷ ts) l h =
    (Fair-later limit b b' (size t.file) t.pc l h.0, AllFair-later limit b b' ts l h.1)

-- The test of `Reserve`, for a budget that is not overdrawn.
int64_less-room :
    (limit used n : ℕ)
    → limit < 2 ^ 63
    → used ≤ limit
    → n < 2 ^ 63
    → (int64_less ((limit + 2 ^ 64 - used) % 2 ^ 64) n ≡ true → limit < used + n)
      × (int64_less ((limit + 2 ^ 64 - used) % 2 ^ 64) n ≡ false → used + n ≤ limit)
int64_less-room limit used n hl hu hn =
    (λ e. let l = ltb→lt _ _ e in omega arith, λ e. let l = ltb-false→le _ _ e in omega arith)

IsLater-refl : (limit : ℕ) (b : Budget) → b.limit ≡ limit → b.used ≤ limit → IsLater limit b b
IsLater-refl limit b e h = record {
  limit-kept = e;
  grown = omega arith;
  bounded = h;
  exhausted-kept = λ x. x;
}

-- What a step keeps of the budget, of the goroutine that takes it, and of what that one has added.
abbrev Moves : ℕ → Budget → ℕ → Pc → Budget × Pc → Type 0
Moves limit b n pc r =
    IsLater limit b r.0 × Fair limit r.0 n r.1 × (r.0.used + gain n pc ≡ b.used + gain n r.1)

reserve-Moves :
    (limit : ℕ) (b : Budget) (n : ℕ) (pc : Pc)
    → limit < 2 ^ 63
    → n < 2 ^ 63
    → b.limit ≡ limit
    → b.used ≤ limit
    → Fair limit b n pc
    → Moves limit b n pc (reserve n pc b)
unfolding reserve
reserve-Moves limit b n load hl hn e hu h =
    let room = int64_less-room b.limit b.used n (rw e hl) (rw e hu) hn in
    if_cases (Moves limit b n load) (int64_less ((b.limit + 2 ^ 64 - b.used) % 2 ^ 64) n)
      (b, refuse) (b, swap b.used)
      (λ less. (IsLater-refl limit b e hu, subst (λ l. l < b.used + n) e (room.0 less), refl))
      (λ less. (IsLater-refl limit b e hu, subst (λ l. b.used + n ≤ l) e (room.1 less), refl))
reserve-Moves limit b n (swap used) hl hn e hu h =
    if_cases (Moves limit b n (swap used)) (b.used == used)
      (record b { used = (used + n) % 2 ^ 64 }, kept) (b, load)
      (λ same.
        let same' : b.used ≡ used = (==_iff b.used used).0 same in
        (
          record {
            limit-kept = e;
            grown = omega arith;
            bounded = omega arith;
            exhausted-kept = λ x. x;
          },
          tt,
          omega arith,
        ))
      (λ other. (IsLater-refl limit b e hu, tt, refl))
reserve-Moves limit b n refuse hl hn e hu h = (
  record { limit-kept = e; grown = omega arith; bounded = hu; exhausted-kept = λ x. refl },
  (h, refl),
  refl,
)
reserve-Moves limit b n kept hl hn e hu h = (IsLater-refl limit b e hu, tt, refl)
reserve-Moves limit b n refused hl hn e hu h = (IsLater-refl limit b e hu, h, refl)

-- What a step keeps of all goroutines.
abbrev AllMove : ℕ → Budget → List Reserving → Budget × List Reserving → Type 0
AllMove limit b ts r =
    IsLater limit b r.0
    × AllFair limit r.0 r.1
    × (r.0.used + kept_size ts ≡ b.used + kept_size r.1)
    × (files r.1 ≡ files ts)

advance-Moves :
    (limit : ℕ) (b : Budget) (t : Reserving)
    → limit < 2 ^ 63
    → size t.file < 2 ^ 63
    → b.limit ≡ limit
    → b.used ≤ limit
    → Fair limit b (size t.file) t.pc
    → Moves limit b (size t.file) t.pc ((advance t b).0, (advance t b).1.pc)
advance-Moves limit b t hl hn e hu h =
    let word : size t.file % 2 ^ 64 ≡ size t.file = omega arith in
    subst (λ n. Moves limit b (size t.file) t.pc (reserve n t.pc b)) (sym word)
      (reserve-Moves limit b (size t.file) t.pc hl hn e hu h)

sum_left : (a b c d k : ℕ) → a + c ≡ b + d → a + (c + k) ≡ b + (d + k)
sum_left a b c d k h = omega arith

sum_right : (a b k k' g : ℕ) → a + k ≡ b + k' → a + (g + k) ≡ b + (g + k')
sum_right a b k k' g h = omega arith

step-AllMove :
    (limit i : ℕ) (b : Budget) (ts : List Reserving)
    → limit < 2 ^ 63
    → AllCounted (files ts)
    → b.limit ≡ limit
    → b.used ≤ limit
    → AllFair limit b ts
    → AllMove limit b ts (step i b ts)
unfolding step
step-AllMove limit i b [] hl hc e hu h = (IsLater-refl limit b e hu, tt, refl, refl)
step-AllMove limit zero b (t ∷ ts) hl hc e hu h =
    let (l, f, g) = advance-Moves limit b t hl hc.0 e hu h.0 in
    (l, (f, AllFair-later limit b (advance t b).0 ts l h.1), sum_left _ _ _ _ _ g, refl)
step-AllMove limit (suc i) b (t ∷ ts) hl hc e hu h =
    let (l, f, g, same) = step-AllMove limit i b ts hl hc.1 e hu h.1 in
    (
      l,
      (Fair-later limit b (step i b ts).0 (size t.file) t.pc l h.0, f),
      sum_right _ _ _ _ _ g,
      ap (λ k. t.file ∷ k) same,
    )

run-AllMove :
    (schedule : List ℕ) (limit : ℕ) (b : Budget) (ts : List Reserving)
    → limit < 2 ^ 63
    → AllCounted (files ts)
    → b.limit ≡ limit
    → b.used ≡ kept_size ts
    → b.used ≤ limit
    → AllFair limit b ts
    → (let r = run schedule b ts in
        (r.0.used ≡ kept_size r.1)
        × (r.0.used ≤ limit)
        × AllFair limit r.0 r.1
        × (files r.1 ≡ files ts))
unfolding run
run-AllMove [] limit b ts hl hc e k hu h = (k, hu, h, refl)
run-AllMove (i ∷ is) limit b ts hl hc e k hu h =
    let (l, f, g, same) = step-AllMove limit i b ts hl hc e hu h in
    let (k', u, f', same') =
      run-AllMove is limit (step i b ts).0 (step i b ts).1 hl (subst AllCounted (sym same) hc)
        l.limit-kept (omega arith) l.bounded f in
    (k', u, f', same' ∙ same)

calls-AllFair : (limit : ℕ) (b : Budget) (fs : List FileMatch) → AllFair limit b (calls fs)
calls-AllFair limit b [] = tt
calls-AllFair limit b (f ∷ fs) = (tt, calls-AllFair limit b fs)

kept_size-calls : (fs : List FileMatch) → kept_size (calls fs) ≡ 0
kept_size-calls [] = refl
kept_size-calls (f ∷ fs) = let rest = kept_size-calls fs in omega arith

files-calls : (fs : List FileMatch) → files (calls fs) ≡ fs
files-calls [] = refl
files-calls (f ∷ fs) = ap (λ k. f ∷ k) (files-calls fs)

-- In whatever order the goroutines that reserve files take their steps: what the budget counts as
-- used is the size of the files that are kept, each counted once, and never more than the limit; a
-- file that is refused had no room and has none after that, and the budget is then exhausted. The
-- limit and the size of each file fit an int64.
pub run-bounded :
    (schedule : List ℕ) (limit : ℕ) (fs : List FileMatch)
    → limit < 2 ^ 63
    → AllCounted fs
    → (let r = run schedule (new limit) (calls fs) in
        (r.0.used ≡ kept_size r.1) × (r.0.used ≤ limit) × AllFair limit r.0 r.1 × (files r.1 ≡ fs))
run-bounded schedule limit fs hl hc =
    let (k, u, f, same) =
      run-AllMove schedule limit (new limit) (calls fs) hl
        (subst AllCounted (sym (files-calls fs)) hc) refl (sym (kept_size-calls fs)) (omega arith)
        (calls-AllFair limit (new limit) fs) in
    (k, u, f, same ∙ files-calls fs)
