-- ===== src/Prelude/Keyed.antt =====
-- A `dict` has every key once, so every entry is what its key gives.
use Prim.Native.String.{String}
use mathlib.Core.Path.{◌≡◌, refl, subst}
use mathlib.Core.Logic.{inl, inr}
use mathlib.Core.Bool.{true, false}
use mathlib.Core.Option.{some}
use mathlib.Core.List.{[], ◌∷◌}
use native.Mathlib.Omega.{arith}
use text.Mathlib.Text.{◌==◌}
use text.Mathlib.TextEquality.{eq_iff}
use eden_os.Prelude.Tests.{Bool-cases}
use eden_os.Prelude.Predicates.{All}
use eden_os.Prelude.Dict.{Dict, get, put, remove}

module _ {ℓ} {V : Type ℓ} where
  abbrev pub Fresh : String → Dict V → Type 0
  Fresh k d = All (λ e. (k == e.0) ≡ false) d

  abbrev pub Distinct : Dict V → Type 0
  Distinct [] = Unit
  Distinct ((k, v) ∷ d) = Fresh k d × Distinct d

  Fresh-put :
      (j k : String) (v : V) (d : Dict V) → (j == k) ≡ false → Fresh j d → Fresh j (put k v d)
  unfolding put
  Fresh-put j k v [] h f = (h, tt)
  Fresh-put j k v ((i, w) ∷ d) h f = elim (Bool-cases (i == k)) [
    | inl e ↦ rw e f
    | inr e ↦ rw e (f.0, Fresh-put j k v d h f.1)
  ]

  pub Distinct-put : (k : String) (v : V) (d : Dict V) → Distinct d → Distinct (put k v d)
  unfolding put
  Distinct-put k v [] h = (tt, tt)
  Distinct-put k v ((i, w) ∷ d) h = elim (Bool-cases (i == k)) [
    | inl e ↦ rw e h
    | inr e ↦ rw e (Fresh-put i k v d e h.0, Distinct-put k v d h.1)
  ]

  Fresh-remove : (j k : String) (d : Dict V) → Fresh j d → Fresh j (remove k d)
  unfolding remove
  Fresh-remove j k [] f = tt
  Fresh-remove j k ((i, w) ∷ d) f = elim (Bool-cases (i == k)) [
    | inl e ↦ rw e (Fresh-remove j k d f.1)
    | inr e ↦ rw e (f.0, Fresh-remove j k d f.1)
  ]

  pub Distinct-remove : (k : String) (d : Dict V) → Distinct d → Distinct (remove k d)
  unfolding remove
  Distinct-remove k [] h = tt
  Distinct-remove k ((i, w) ∷ d) h = elim (Bool-cases (i == k)) [
    | inl e ↦ rw e (Distinct-remove k d h.1)
    | inr e ↦ rw e (Fresh-remove i k d h.0, Distinct-remove k d h.1)
  ]

  pub All-put {κ} :
      (P : String → V → Type κ) (k : String) (v : V) (d : Dict V)
      → P k v
      → All (λ e. P e.0 e.1) d
      → All (λ e. P e.0 e.1) (put k v d)
  unfolding put
  All-put P k v [] h hs = (h, tt)
  All-put P k v ((i, w) ∷ d) h hs = elim (Bool-cases (i == k)) [
    | inl e ↦
        let same : k ≡ i = ground (arith, eq_iff i k, e) in rw e (subst (λ j. P j v) same h, hs.1)
    | inr e ↦ rw e (hs.0, All-put P k v d h hs.1)
  ]

  pub All-remove {κ} :
      (P : String → V → Type κ) (k : String) (d : Dict V)
      → All (λ e. P e.0 e.1) d
      → All (λ e. P e.0 e.1) (remove k d)
  unfolding remove
  All-remove P k [] hs = tt
  All-remove P k ((i, w) ∷ d) hs = elim (Bool-cases (i == k)) [
    | inl e ↦ rw e (All-remove P k d hs.1)
    | inr e ↦ rw e (hs.0, All-remove P k d hs.1)
  ]

  get_later :
      (j : String) (w : V) (c d : Dict V)
      → Fresh j d
      → All (λ e. get e.0 c ≡ some e.1) d
      → All (λ e. get e.0 ((j, w) ∷ c) ≡ some e.1) d
  unfolding get
  get_later j w c [] f h = tt
  get_later j w c ((i, v) ∷ d) f h = (rw f.0 h.0, get_later j w c d f.1 h.1)

  -- Every entry is found under its key.
  pub get-Distinct : (d : Dict V) → Distinct d → All (λ e. get e.0 d ≡ some e.1) d
  unfolding get
  get-Distinct [] h = tt
  get-Distinct ((k, v) ∷ d) h =
      let same : (k == k) ≡ true = ground (arith, eq_iff k k) in
      (rw same refl, get_later k v d d h.0 (get-Distinct d h.1))
