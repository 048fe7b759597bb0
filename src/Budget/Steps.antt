-- ===== src/Budget/Steps.antt =====
-- `Reserve` returns: the goroutines of a budget take a bounded number of steps
-- (internal/searchbudget/budget.go).
use zoekt.Prelude.{
  ℕ, zero, suc, ◌+◌, ◌-◌, ◌*◌, ◌%◌, ◌^◌, ◌≤◌, ◌==◌, if◌then◌else◌, ==_iff, if_cases, if_true,
  if_false, length,
}
use zoekt.Prelude.{◌≡◌, refl, ap, sym, subst, ◌∙◌, ◌⊎◌, inl, inr, List, [], ◌∷◌, arith}
use native.Mathlib.Nat.{zero-mul, suc-mul, add_comm}
use zoekt.Budget.{
  FileMatch, Budget, new, size, int64_less, Pc, load, swap, refuse, kept, refused, reserve,
  Reserving, advance, step, calls,
}

-- The call has not returned.
abbrev pub IsOpen : Pc → Type 0
IsOpen load = Unit {0}
IsOpen (swap used) = Unit {0}
IsOpen refuse = Unit {0}
IsOpen kept = ⊥
IsOpen refused = ⊥

abbrev pub IsWaiting : ℕ → List Reserving → Type 0
IsWaiting i [] = ⊥
IsWaiting zero (t ∷ ts) = IsOpen t.pc
IsWaiting (suc i) (t ∷ ts) = IsWaiting i ts

-- Each step of the schedule is one of a goroutine whose call has not returned.
abbrev pub IsBusy : List ℕ → Budget → List Reserving → Type 0
IsBusy [] b ts = Unit {0}
IsBusy (i ∷ is) b ts = IsWaiting i ts × IsBusy is (step i b ts).0 (step i b ts).1

-- The steps that a goroutine has to go if no other one adds to `used`, and `k` for the others until
-- it returns.
abbrev weight : ℕ → ℕ → Pc → ℕ
weight k used load = 2 + k
weight k used (swap u) = (if used == u then 1 else 3) + k
weight k used refuse = 1 + k
weight k used kept = 0
weight k used refused = 0

abbrev weights : ℕ → ℕ → List Reserving → ℕ
weights k used [] = 0
weights k used (t ∷ ts) = weight k used t.pc + weights k used ts

-- To add to `used` sets a goroutine back by two steps at most.
weight-rise : (k used used' : ℕ) (pc : Pc) → weight k used' pc ≤ weight k used pc + 2
weight-rise k used used' load = omega arith
weight-rise k used used' (swap u) =
    if_cases (λ x. x + k ≤ (if used == u then 1 else 3) + k + 2) (used' == u) 1 3
      (λ e. if_cases (λ y. 1 + k ≤ y + k + 2) (used == u) 1 3 (λ d. omega arith) (λ d. omega arith))
      (λ e. if_cases (λ y. 3 + k ≤ y + k + 2) (used == u) 1 3 (λ d. omega arith) (λ d. omega arith))
weight-rise k used used' refuse = omega arith
weight-rise k used used' kept = omega arith
weight-rise k used used' refused = omega arith

rise : (a b c d l : ℕ) → a ≤ b + 2 → c ≤ d + l * 2 → a + c ≤ b + d + suc l * 2
rise a b c d l h g = omega arith

weights-rise :
    (k used used' : ℕ) (ts : List Reserving)
    → weights k used' ts ≤ weights k used ts + length ts * 2
weights-rise k used used' [] = omega arith
weights-rise k used used' (t ∷ ts) =
    let one = weight-rise k used used' t.pc in
    let rest = weights-rise k used used' ts in rise _ _ _ _ _ one rest

-- A step of an open call: nothing is added and it comes closer to its end, or it adds and returns.
abbrev Nears : ℕ → ℕ → Pc → Budget × Pc → Type 0
Nears k used pc r =
    ((r.0.used ≡ used) × (weight k used r.1 + 1 ≤ weight k used pc))
    ⊎ ((used' : ℕ) → weight k used' r.1 + k + 1 ≤ weight k used pc)

reserve-Nears : (k n : ℕ) (b : Budget) (pc : Pc) → IsOpen pc → Nears k b.used pc (reserve n pc b)
unfolding reserve
reserve-Nears k n b load h =
    if_cases (Nears k b.used load) (int64_less ((b.limit + 2 ^ 64 - b.used) % 2 ^ 64) n) (b, refuse)
      (b, swap b.used) (λ e. inl (refl, omega arith))
      (λ e. inl (
        refl,
        subst (λ w. w + k + 1 ≤ 2 + k) (sym (if_true _ 1 3 ((==_iff b.used b.used).1 refl)))
            (omega arith),
      ))
reserve-Nears k n b (swap u) h =
    if_cases (Nears k b.used (swap u)) (b.used == u) (record b { used = (u + n) % 2 ^ 64 }, kept)
      (b, load)
      (λ e. inr (λ used'. subst (λ w. 0 + k + 1 ≤ w + k) (sym (if_true _ 1 3 e)) (omega arith)))
      (λ e. inl (refl, subst (λ w. 2 + k + 1 ≤ w + k) (sym (if_false _ 1 3 e)) (omega arith)))
reserve-Nears k n b refuse h = inl (refl, omega arith)
reserve-Nears k n b kept h = absurd h
reserve-Nears k n b refused h = absurd h

-- A step of a goroutine of a list that has not returned.
abbrev AllNear : ℕ → Budget → List Reserving → Budget × List Reserving → Type 0
AllNear k b ts r =
    ((r.0.used ≡ b.used) × (weights k b.used r.1 + 1 ≤ weights k b.used ts))
    ⊎ (weights k r.0.used r.1 + k + 1 ≤ weights k b.used ts + length ts * 2)

near_first : (w w' v : ℕ) → w' + 1 ≤ w → w' + v + 1 ≤ w + v
near_first w w' v h = omega arith

near_rest : (w v v' : ℕ) → v' + 1 ≤ v → w + v' + 1 ≤ w + v
near_rest w v v' h = omega arith

returned_first :
    (k w w' v v' l : ℕ) → w' + k + 1 ≤ w → v' ≤ v + l * 2 → w' + v' + k + 1 ≤ w + v + suc l * 2
returned_first k w w' v v' l h g = omega arith

returned_rest :
    (k w w' v v' l : ℕ) → w' ≤ w + 2 → v' + k + 1 ≤ v + l * 2 → w' + v' + k + 1 ≤ w + v + suc l * 2
returned_rest k w w' v v' l h g = omega arith

step-AllNear :
    (k i : ℕ) (b : Budget) (ts : List Reserving)
    → IsWaiting i ts
    → AllNear k b ts (step i b ts) × (length (step i b ts).1 ≡ length ts)
unfolding step
step-AllNear k i b [] h = absurd h
step-AllNear k zero b (t ∷ ts) h =
    let r = advance t b in
    (
      elim (reserve-Nears k (size t.file % 2 ^ 64) b t.pc h) [
        | inl c ↦ inl (c.0, near_first _ _ (weights k b.used ts) c.1)
        | inr c ↦
            inr (
              returned_first k _ _ _ _ (length ts) (c r.0.used) (weights-rise k b.used r.0.used ts))
      ],
      refl,
    )
step-AllNear k (suc i) b (t ∷ ts) h =
    let (near, same) = step-AllNear k i b ts h in
    (
      elim near [
        | inl c ↦ inl (c.0, near_rest (weight k b.used t.pc) _ _ c.1)
        | inr c ↦
            inr (
              returned_rest k _ _ _ _ (length ts) (weight-rise k b.used (step i b ts).0.used t.pc)
                c)
      ],
      ap suc same,
    )

nears-less :
    (k : ℕ) (b : Budget) (ts : List Reserving) (r : Budget × List Reserving)
    → length ts * 2 ≤ k
    → AllNear k b ts r
    → weights k r.0.used r.1 + 1 ≤ weights k b.used ts
nears-less k b ts r h (inl c) = rw c.0 c.1
nears-less k b ts r h (inr c) = omega arith

more_steps : (l w w' : ℕ) → l ≤ w' → w' + 1 ≤ w → suc l ≤ w
more_steps l w w' h g = omega arith

suc_times : (n m : ℕ) → suc n * m ≡ m + n * m
suc_times n m = suc-mul n m ∙ add_comm (n * m) m

run-steps :
    (schedule : List ℕ) (k : ℕ) (b : Budget) (ts : List Reserving)
    → length ts * 2 ≤ k
    → IsBusy schedule b ts
    → length schedule ≤ weights k b.used ts
run-steps [] k b ts h busy = omega arith
run-steps (i ∷ is) k b ts h busy =
    let (near, same) = step-AllNear k i b ts busy.0 in
    let less = nears-less k b ts (step i b ts) h near in
    let rest = run-steps is k (step i b ts).0 (step i b ts).1 (omega arith) busy.1 in
    more_steps _ _ _ rest less

weights-calls : (k used : ℕ) (fs : List FileMatch) → weights k used (calls fs) ≡ length fs * (2 + k)
weights-calls k used [] = sym (zero-mul (2 + k))
weights-calls k used (f ∷ fs) =
    ap (λ w. 2 + k + w) (weights-calls k used fs) ∙ sym (suc_times (length fs) (2 + k))

length-calls : (fs : List FileMatch) → length (calls fs) ≡ length fs
length-calls [] = refl
length-calls (f ∷ fs) = ap suc (length-calls fs)

-- Whatever the order in which the goroutines take their steps: as long as each step is one of a
-- goroutine whose call of `Reserve` has not returned, there are at most n * (2 * n + 2) steps for n
-- goroutines, so no failing `CompareAndSwap` keeps all of them from returning.
pub run-ends :
    (schedule : List ℕ) (limit : ℕ) (fs : List FileMatch)
    → IsBusy schedule (new limit) (calls fs)
    → length schedule ≤ length fs * (2 + length fs * 2)
run-ends schedule limit fs busy =
    subst (λ w. length schedule ≤ w) (weights-calls (length fs * 2) 0 fs)
      (run-steps schedule (length fs * 2) (new limit) (calls fs)
        (let l = length-calls fs in omega arith) busy)
