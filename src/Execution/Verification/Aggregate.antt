-- ===== src/Execution/Verification/Aggregate.antt =====
-- What `CompositeVerifier.verify` makes of its rules.
use eden_os.Prelude.{
  ℕ, Bool, true, ◌≡◌, ◌≤◌, ◌<◌, ◌↔◌, refl, ◌∙◌, max, leb, List, [], ◌∷◌, arith, any, any-append,
}
use eden_os.Effect.{Outcome, ok, eden, crash}
use eden_os.Enums.{rank}
use eden_os.Execution.Types.{Action, Finding, Preparation, blocked, highest}
use eden_os.Execution.Verification.Rules.{Verifier}
use eden_os.Execution.Verification.{findings_of, collect, verify}

abbrev blocks : List Finding → Bool
blocks findings = any (λ f. f.blocking) findings

-- A rule stops an action if it raises, or if one of its findings is blocking.
abbrev pub rule_stops : Outcome (List Finding) → Bool
rule_stops (ok findings) = blocks findings
rule_stops (eden e) = true
rule_stops (crash type message) = true

findings_of-stops :
    (v : Verifier) (r : Outcome (List Finding)) → blocks (findings_of v.name r) ≡ rule_stops r
findings_of-stops v (ok findings) = refl
findings_of-stops v (eden e) = ground arith
findings_of-stops v (crash t m) = refl

-- A verdict is blocked exactly when some rule raised or gave a blocking finding: a check that
-- cannot complete is never read as approval, and no rule can clear what another one blocks.
pub blocked-verify :
    (verifiers : List Verifier) (action : Action) (preparation : Preparation)
    → blocked (verify verifiers action preparation)
      ≡ any (λ v. rule_stops (v.verify action preparation)) verifiers
unfolding blocked verify collect
blocked-verify [] action preparation = refl
blocked-verify (v ∷ vs) action preparation =
    any-append (λ f. f.blocking) (findings_of v.name (v.verify action preparation))
      (collect vs action preparation)
    ∙ ground (
      arith,
      findings_of-stops v (v.verify action preparation),
      blocked-verify vs action preparation,
    )

highest-cons :
    (f : Finding) (fs : List Finding)
    → rank (highest (f ∷ fs)) ≡ max (rank f.risk) (rank (highest fs))
unfolding highest
highest-cons f [] = ground arith
highest-cons f (g ∷ gs) = ground arith

abbrev pub rated : ℕ → List Finding → Bool
rated k findings = any (λ f. leb k (rank f.risk)) findings

-- The risk of a verdict is at least `k`, for a positive `k`, exactly when some finding's is.
pub rated-highest :
    (k : ℕ) (fs : List Finding) → 0 < k → (rated k fs ≡ true) ↔ (k ≤ rank (highest fs))
rated-highest k [] h = (λ e. cc, λ e. unfold highest in absurd (omega arith))
rated-highest k (f ∷ fs) h = ground (arith, highest-cons f fs, rated-highest k fs h)
