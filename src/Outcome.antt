-- ===== src/Outcome.antt =====
-- The ways in which a Go function can end: with a value, in a panic, or not at all.
use zoekt.Prelude.{◌≡◌, refl, sym}

pub data Outcome {ℓ} (A : Type ℓ) : Type ℓ where
  ok : A → Outcome A
  panic : Outcome A
  diverges : Outcome A

infixl 5 ◌>>=◌
abbrev pub ◌>>=◌ {κ ℓ} :
    {B : Type κ} {A : Type ℓ} (o : Outcome A) (next : A → Outcome B) → Outcome B
diverges >>= next = diverges
panic >>= next = panic
ok x >>= next = next x

-- Both parts of a sequence that returns have returned.
pub >>=-ok {κ ℓ} :
    {B : Type κ} {A : Type ℓ} (next : A → Outcome B) (o : Outcome A) {y : B}
    → ok y ≡ (o >>= next)
    → (x : A) × (next x ≡ ok y) × (o ≡ ok x)
>>=-ok next diverges h = cc
>>=-ok next panic h = cc
>>=-ok next (ok x) h = (x, sym h, refl)
