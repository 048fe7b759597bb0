-- ===== src/Budget.antt =====
-- internal/searchbudget/budget.go: a bound on the size of the results that concurrent shards keep.
-- An int64 stands as the number mod 2 ^ 64 that has its bits. A nil budget, which bounds nothing,
-- is left out.
pub mod Bound
pub mod Steps
mod Examples
use zoekt.Prelude.{
  ℕ, zero, suc, ◌+◌, ◌-◌, ◌*◌, ◌%◌, ◌^◌, ltb, ◌==◌, ◌||◌, if◌then◌else◌, Bool, true, false, Option,
  none, some, List, [], ◌∷◌, length,
}

-- Of the results of a file the fields whose lengths count.
pub record ChunkMatch : Type 0 where
  pub content : List ℕ
  pub ranges : List ℕ
  pub symbol_info : List ℕ

pub record LineMatch : Type 0 where
  pub line : List ℕ
  pub before : List ℕ
  pub after : List ℕ
  pub line_fragments : List ℕ

pub record FileMatch : Type 0 where
  pub file_name : List ℕ
  pub repository : List ℕ
  pub content : List ℕ
  pub chunk_matches : List ChunkMatch
  pub line_matches : List LineMatch

-- `flags` by the number of the bit.
pub record Budget : Type 0 where
  pub limit : ℕ
  pub used : ℕ
  pub flags : ℕ → Bool

-- `With`
abbrev pub new : ℕ → Budget
new bytes = record { limit = bytes; used = 0; flags = λ k. false }

-- `ResponseLimit`, the bit number that iota has there.
abbrev pub response_limit : ℕ
response_limit = 4

-- `Mark` of one flag.
abbrev pub mark : ℕ → Budget → Budget
mark flag b = record b { flags = λ k. (k == flag) || b.flags k }

abbrev pub exhausted : Budget → Bool
exhausted b = b.flags response_limit

-- What `ctx.Err()` answers, `none` for nil.
pub data ContextError : Type 0 where
  deadline_exceeded : ContextError
  canceled : ContextError

-- `MarkContext`: `Timeout` is bit 1 and `Cancelled` bit 2.
abbrev pub mark_context : Option ContextError → Budget → Budget
mark_context none b = b
mark_context (some deadline_exceeded) b = mark 1 b
mark_context (some canceled) b = mark 2 b

-- `Finish`, which asks the context twice: `Known` is bit 0 and `ShardError` bit 5.
abbrev pub finish : Option ContextError → Option ContextError → Bool → Budget → Budget
finish first second failed b =
    let b' = mark_context first (mark 0 b) in
    elim second [ none ↦ if failed then mark 5 b' else b' | some e ↦ b' ]

-- The two loops of `Reserve`, and the size of a file that they add up to.
abbrev pub chunk_sizes : List ChunkMatch → ℕ
chunk_sizes [] = 0
chunk_sizes (c ∷ cs) =
    160 + length c.content + length c.ranges * 64 + length c.symbol_info * 16 + chunk_sizes cs

abbrev pub line_sizes : List LineMatch → ℕ
line_sizes [] = 0
line_sizes (l ∷ ls) =
    160
    + length l.line
    + length l.before
    + length l.after
    + length l.line_fragments * 64
    + line_sizes ls

abbrev pub size : FileMatch → ℕ
size f =
    512
    + length f.file_name
    + length f.repository
    + length f.content
    + chunk_sizes f.chunk_matches
    + line_sizes f.line_matches

-- `<` on int64.
abbrev pub int64_less : ℕ → ℕ → Bool
int64_less m n = ltb ((m + 2 ^ 63) % 2 ^ 64) ((n + 2 ^ 63) % 2 ^ 64)

-- Where a goroutine stands in `Reserve`: before `Load`, before `CompareAndSwap` with what was
-- loaded, before `Mark`, and behind either return.
pub data Pc : Type 0 where
  load : Pc
  swap : ℕ → Pc
  refuse : Pc
  kept : Pc
  refused : Pc

-- One atomic step of `Reserve` for the size `n`.
unfoldable pub reserve : ℕ → Pc → Budget → Budget × Pc
reserve n load b =
    if int64_less ((b.limit + 2 ^ 64 - b.used) % 2 ^ 64) n then (b, refuse) else (b, swap b.used)
reserve n (swap used) b =
    if b.used == used then (record b { used = (used + n) % 2 ^ 64 }, kept) else (b, load)
reserve n refuse b = (mark response_limit b, refused)
reserve n kept b = (b, kept)
reserve n refused b = (b, refused)

-- A goroutine that reserves a file.
pub record Reserving : Type 0 where
  pub file : FileMatch
  pub pc : Pc

abbrev pub advance : Reserving → Budget → Budget × Reserving
advance t b = let r = reserve (size t.file % 2 ^ 64) t.pc b in (r.0, record t { pc = r.1 })

-- A step of the goroutine with this number.
unfoldable pub step : ℕ → Budget → List Reserving → Budget × List Reserving
unfolding reserve
step i b [] = (b, [])
step zero b (t ∷ ts) = let r = advance t b in (r.0, r.1 ∷ ts)
step (suc i) b (t ∷ ts) = let r = step i b ts in (r.0, t ∷ r.1)

-- The steps in the order of a schedule.
unfoldable pub run : List ℕ → Budget → List Reserving → Budget × List Reserving
unfolding step
run [] b ts = (b, ts)
run (i ∷ is) b ts = let r = step i b ts in run is r.0 r.1

abbrev pub calls : List FileMatch → List Reserving
calls [] = []
calls (f ∷ fs) = record { file = f; pc = load } ∷ calls fs
