-- ===== src/Query/Proto/Flags.antt =====
-- The flags of a `RawConfig`, there and back.
use zoekt.Prelude.{
  ℕ, zero, suc, ◌+◌, ◌≤◌, ◌<◌, ◌==◌, ◌&&◌, ==_iff, Bool, Bool-cases, true, false, ◌≡◌, refl, subst,
  inl, inr, arith,
}
use zoekt.Query.Proto.{flag_names, flags_of, raw_config_from}

abbrev restored : ℕ → Bool
restored r = raw_config_from (flags_of flag_names r) 0 == r

-- All raw configs from `from` on, `count` of them.
all_restored : ℕ → ℕ → Bool
all_restored zero from = true
all_restored (suc count) from = restored from && all_restored count (from + 1)

and_both : (a b : Bool) → (a && b) ≡ true → (a ≡ true) × (b ≡ true)
and_both true b h = (refl, h)
and_both false b h = (h, cc)

restored-within :
    (count from r : ℕ)
    → all_restored count from ≡ true
    → from ≤ r
    → r < from + count
    → restored r ≡ true
unfolding all_restored
restored-within zero from r h p q = absurd (omega arith)
restored-within (suc count) from r h p q =
    let (here, rest) = and_both (restored from) (all_restored count (from + 1)) h in
    elim (Bool-cases (from == r)) [
      | inl e ↦ subst (λ k. restored k ≡ true) ((==_iff from r).0 e) here
      | inr e ↦
          let other : from ≡ r → ⊥ = λ f. let g = (==_iff from r).1 f in cc in
          restored-within count (from + 1) r rest (omega arith) (omega arith)
    ]

restored_table : all_restored 64 0 ≡ true
unfolding all_restored
restored_table = refl

-- The six flags come back.
pub raw_config_from-flags_of : (r : ℕ) → r < 64 → raw_config_from (flags_of flag_names r) 0 ≡ r
raw_config_from-flags_of r h =
    (==_iff _ r).0 (restored-within 64 0 r restored_table (omega arith) (omega arith))
