-- ===== src/Effect.antt =====
-- Python code that acts on the outside world and may raise: what happened before a raise stays
-- done. The handlers of the program tell an `EdenError` from any other exception.
use eden_os.Prelude.{String, Bool, true, false, ◌≡◌, refl, ◌⊎◌, inl, inr}
use eden_os.Errors.{EdenError}

pub data Outcome {ℓ} (A : Type ℓ) : Type ℓ where
  ok : A → Outcome A
  eden : EdenError → Outcome A
  -- any other `Exception`, with `type(exc).__name__` and `str(exc)`
  crash : String → String → Outcome A

abbrev pub Eff {ℓ κ} : Type ℓ → Type κ → Type (ℓ ⊔ κ)
Eff W A = W → Outcome A × W

-- Whether the code returned.
abbrev pub returns {ℓ} : {A : Type ℓ} → Outcome A → Bool
returns (ok a) = true
returns (eden e) = false
returns (crash t m) = false

-- To split on a computed outcome and keep the equation.
pub Outcome-cases {ℓ} :
    {A : Type ℓ} (o : Outcome A)
    → ((a : A) × (o ≡ ok a))
      ⊎ (((e : EdenError) × (o ≡ eden e)) ⊎ ((t : String) × (m : String) × (o ≡ crash t m)))
Outcome-cases (ok a) = inl (a, refl)
Outcome-cases (eden e) = inr (inl (e, refl))
Outcome-cases (crash t m) = inr (inr (t, m, refl))
