-- ===== src/Core/Kernel/Lifecycle.antt =====
-- What the loops of the kernel's start and stop leave running, if every component keeps to its
-- life cycle.
use eden_os.Prelude.{
  String, Bool, true, false, List, [], ◌∷◌, ◌++◌, ◌≡◌, refl, sym, ap, subst, ◌∙◌, inl, inr, arith,
  if◌then◌else◌, All, All-append, any, any-append, str_eq, eq_iff, Bool-cases,
}
use mathlib.Core.List.{append_assoc, append-nil}
use eden_os.Effect.{ok, Eff, Outcome-cases, returns}
use eden_os.Core.Kernel.{Component, Part, stop_components, reversed, start_each}

module _ {W : Type 0} where
  -- One of the components has the name.
  abbrev pub named : List (Component W) → String → Bool
  named cs n = any (λ c. str_eq c.component_name n) cs

  pub named-reversed : (cs : List (Component W)) (n : String) → named (reversed cs) n ≡ named cs n
  named-reversed [] n = refl
  named-reversed (c ∷ cs) n =
      let p : Component W → Bool = λ c. str_eq c.component_name n in
      let ih = named-reversed cs n in
      let split = any-append p (reversed cs) (c ∷ []) in ground (arith, ih, split)

  pub All-reversed :
      (P : Component W → Type 0) (cs : List (Component W)) → All P cs → All P (reversed cs)
  All-reversed P [] h = tt
  All-reversed P (c ∷ cs) h = All-append P (reversed cs) (c ∷ []) (All-reversed P cs h.1) (h.0, tt)

-- `running n w`: in the world `w` the component named `n` has been started.
module _ {W : Type 0} (running : String → W → Bool) where
  -- A component that acquires with `start` and releases with `stop`, and touches no other's. A
  -- start may find it started already, and nothing is said of what one that raises has acquired.
  pub record IsLifecycle (c : Component W) : Type 0 where
    pub acquires :
        (w : W) → returns (c.start w).0 ≡ true → running c.component_name (c.start w).1 ≡ true
    pub starts_apart :
        (n : String) (w : W)
        → str_eq c.component_name n ≡ false
        → running n (c.start w).1 ≡ running n w
    pub releases : (w : W) → running c.component_name (c.stop w).1 ≡ false
    pub stops_apart :
        (n : String) (w : W)
        → str_eq c.component_name n ≡ false
        → running n (c.stop w).1 ≡ running n w

  -- A resolution starts nothing, and gives such a component.
  pub record IsQuiet (resolve : Part → Eff W (Component W)) : Type 0 where
    pub still : (p : Part) (n : String) (w : W) → running n (resolve p w).1 ≡ running n w
    pub proper : (p : Part) (w : W) (c : Component W) → (resolve p w).0 ≡ ok c → IsLifecycle c

  module _ (c : Component W) (h : IsLifecycle c) (w : W) (n : String) where
    started-at :
        returns (c.start w).0 ≡ true
        → running n (c.start w).1 ≡ (if str_eq c.component_name n then true else running n w)
    started-at e = elim (Bool-cases (str_eq c.component_name n)) [
      | inr f ↦ let apart = h.starts_apart n w f in ground (arith, apart, f)
      | inl f ↦
          let same = (eq_iff c.component_name n).0 f in
          let up = subst (λ m. running m (c.start w).1 ≡ true) same (h.acquires w e) in
          ground (arith, up, f)
    ]

    stopped-at : running n (c.stop w).1 ≡ (if str_eq c.component_name n then false else running n w)
    stopped-at = elim (Bool-cases (str_eq c.component_name n)) [
      | inr f ↦ let apart = h.stops_apart n w f in ground (arith, apart, f)
      | inl f ↦
          let same = (eq_iff c.component_name n).0 f in
          let down = subst (λ m. running m (c.stop w).1 ≡ false) same (h.releases w) in
          ground (arith, down, f)
    ]

  pub stop_components-at :
      (cs : List (Component W)) (w : W) (n : String)
      → All IsLifecycle cs
      → running n (stop_components cs w) ≡ (if named cs n then false else running n w)
  unfolding stop_components
  stop_components-at [] w n h = refl
  stop_components-at (c ∷ cs) w n h =
      let here = stopped-at c h.0 w n in
      let rest = stop_components-at cs (c.stop w).1 n h.1 in ground (arith, here, rest)

  -- From `before`, exactly the components of a list have been started.
  abbrev pub Runs : (before : W) → List (Component W) → W → Type 0
  Runs before cs w = (n : String) → running n w ≡ (if named cs n then true else running n before)

  -- A start that a component failed: those before it are stopped again, those after it were not
  -- started, and nothing is said of that component itself.
  pub record Undone (before : W) (components : List (Component W)) (after : W) : Type 0 where
    pub done : List (Component W)
    pub failing : Component W
    pub rest : List (Component W)
    pub divided : components ≡ done ++ failing ∷ rest
    pub others :
        (n : String)
        → str_eq failing.component_name n ≡ false
        → running n after ≡ (if named done n then false else running n before)

  pub record Failed (before : W) (all : List (Component W)) (started : List (Component W)) (w : W)
      : Type 0 where
    pub failing : Component W
    pub rest : List (Component W)
    pub divided : all ≡ reversed started ++ failing ∷ rest
    pub others :
        (n : String)
        → str_eq failing.component_name n ≡ false
        → running n w ≡ (if named started n then true else running n before)

  -- What the loop of `start` has come to.
  abbrev pub Begun :
      (before : W) → (all : List (Component W)) → Bool × List (Component W) × W → Type 0
  Begun before all (true, started, w) =
      All IsLifecycle started × (reversed started ≡ all) × Runs before started w
  Begun before all (false, started, w) = All IsLifecycle started × Failed before all started w

  pub start_each-Begun :
      (before : W) (all started todo : List (Component W)) (w : W)
      → All IsLifecycle started
      → All IsLifecycle todo
      → all ≡ reversed started ++ todo
      → Runs before started w
      → Begun before all (start_each started todo w)
  unfolding start_each
  start_each-Begun before all started [] w hs ht e runs =
      (hs, sym (append-nil (reversed started)) ∙ sym e, runs)
  start_each-Begun before all started (c ∷ cs) w hs ht e runs =
      let stuck : Failed before all started (c.start w).1 = record {
        failing = c;
        rest = cs;
        divided = e;
        others = λ n f. ht.0.starts_apart n w f ∙ runs n;
      } in
      elim (Outcome-cases (c.start w).0) [
        | inr (inl (x, o)) ↦ rw o (hs, stuck)
        | inr (inr (t, m, o)) ↦ rw o (hs, stuck)
        | inl (u, o) ↦ rw o (
            start_each-Begun before all (c ∷ started) cs (c.start w).1 (ht.0, hs) ht.1
              (e ∙ sym (append_assoc (reversed started) (c ∷ []) cs))
              (λ n.
                let at = started-at c ht.0 w n (ap returns o) in
                let was = runs n in ground (arith, at, was)))
      ]
