-- ===== src/Automation/Contained.antt =====
-- A tick runs exactly the rules that are due, and no failure of theirs escapes it.
use eden_os.Prelude.{
  ℕ, String, true, List, [], ◌∷◌, ◌≡◌, refl, sym, ap, ◌∙◌, arith, All, map, All-keep_sub,
  Bool-cases, subst, ◌&&◌, not, Option-cases, inl, inr, str_eq, eq_iff,
}
use eden_os.Prelude.Dict
use eden_os.Prelude.Dict.{Dict, values}
use eden_os.Effect.{ok}
use eden_os.Automation.Rules.{Rule, AutomationRun}
use eden_os.Automation.Triggers.{listens}
use eden_os.Automation.{
  Runners, Scheduler, State, register, unregister, signal, arm, ask, asked, due, is_due, run_rule,
  guarded_run, run_all, tick,
}
use eden_os.Automation.History.{
  Call, registration, removal, signalling, running, ticking, moving, call, calls, new_scheduler,
  run-found, rules-run,
}

module _ {T : Type 0} where
  -- Every rule is registered under its own name.
  abbrev pub Named : Dict (Rule T) → Type 0
  Named rules = All (λ e. e.0 ≡ e.1.name) rules

  Named-put : (r : Rule T) (rules : Dict (Rule T)) → Named rules → Named (Dict.put r.name r rules)
  unfolding Dict.put
  Named-put r [] h = (refl, tt)
  Named-put r ((k, q) ∷ rules) h = elim (Bool-cases (str_eq k r.name)) [
    | inl e ↦ rw e (ground (arith, eq_iff k r.name), h.1)
    | inr e ↦ rw e (h.0, Named-put r rules h.1)
  ]

  Named-remove :
      (name : String) (rules : Dict (Rule T)) → Named rules → Named (Dict.remove name rules)
  unfolding Dict.remove
  Named-remove name [] h = tt
  Named-remove name ((k, q) ∷ rules) h = elim (Bool-cases (str_eq k name)) [
    | inl e ↦ rw e (Named-remove name rules h.1)
    | inr e ↦ rw e (h.0, Named-remove name rules h.1)
  ]

  name-asked : (r : Rule T) → (asked r).name ≡ r.name
  name-asked r = ground arith

  Named-ask : (rules : Dict (Rule T)) → Named rules → Named (ask rules)
  unfolding ask
  Named-ask [] h = tt
  Named-ask ((k, r) ∷ rules) h = (h.0 ∙ sym (name-asked r), Named-ask rules h.1)

  Named-arm : (event : String) (rules : Dict (Rule T)) → Named rules → Named (arm event rules).1
  unfolding arm
  Named-arm event [] h = tt
  Named-arm event ((k, r) ∷ rules) h = elim (Bool-cases (listens event r.trigger)) [
    | inl e ↦ rw e (h.0, Named-arm event rules h.1)
    | inr e ↦ rw e (h.0, Named-arm event rules h.1)
  ]

  -- A rule that is there can be found, also after the triggers were asked.
  has-ask :
      (name : String) (rules : Dict (Rule T)) → Dict.has name (ask rules) ≡ Dict.has name rules
  unfolding Dict.has Dict.get ask
  has-ask name [] = refl
  has-ask name ((k, r) ∷ rules) = ground (arith, has-ask name rules)

  has-cons :
      (name k : String) (r : Rule T) (rules : Dict (Rule T))
      → Dict.has name rules ≡ true
      → Dict.has name ((k, r) ∷ rules) ≡ true
  unfolding Dict.has Dict.get
  has-cons name k r rules h = ground arith

  has-head : (k : String) (r : Rule T) (rules : Dict (Rule T)) → Dict.has k ((k, r) ∷ rules) ≡ true
  unfolding Dict.has Dict.get
  has-head k r rules = ground (arith, eq_iff k k)

  abbrev Held : Dict (Rule T) → Rule T → Type 0
  Held rules r = Dict.has r.name rules ≡ true

  All-cons :
      (k : String) (q : Rule T) (rules : Dict (Rule T)) (rs : List (Rule T))
      → All (Held rules) rs
      → All (Held ((k, q) ∷ rules)) rs
  All-cons k q rules [] h = tt
  All-cons k q rules (r ∷ rs) h = (has-cons r.name k q rules h.0, All-cons k q rules rs h.1)

  values-Held : (rules : Dict (Rule T)) → Named rules → All (Held rules) (values rules)
  values-Held [] h = tt
  values-Held ((k, r) ∷ rules) h = (
    ap (λ n. Dict.has n ((k, r) ∷ rules)) (sym h.0) ∙ has-head k r rules,
    All-cons k r rules (values rules) (values-Held rules h.1),
  )

module _ {W T : Type 0} (runners : Runners W T) where
  abbrev pub names_of : List AutomationRun → List String
  names_of made = map (λ m. m.rule) made

  -- A rule that is held is run, and leaves a run of its name.
  guarded_run-Held :
      (now : ℕ) (r : Rule T) (s : Scheduler T) (w : W)
      → Held s.rules r
      → (made : AutomationRun) × ((guarded_run runners now r (s, w)).0 ≡ ok made)
        × (made.rule ≡ r.name)
        × ((guarded_run runners now r (s, w)).1.0.rules ≡ s.rules)
  unfolding guarded_run run_rule Dict.has
  guarded_run-Held now r s w held =
      let fired : Scheduler T = record s { last_fired = Dict.put r.name now s.last_fired } in
      elim (Option-cases (Dict.get r.name s.rules)) [
        | inl missing ↦ absurd (ground arith)
        | inr (q, found) ↦ (
          (run_rule runners q r.name (fired, w)).0,
          ap (λ o. o.0) (run-found runners r.name q fired w found),
          refl,
          rules-run runners r.name fired w,
        )
      ]

  run_all-Held :
      (now : ℕ) (rs : List (Rule T)) (s : Scheduler T) (w : W)
      → All (Held s.rules) rs
      → (made : List AutomationRun) × ((run_all runners now rs (s, w)).0 ≡ ok made)
        × (names_of made ≡ map (λ (r : Rule T). r.name) rs)
        × ((run_all runners now rs (s, w)).1.0.rules ≡ s.rules)
  unfolding run_all
  run_all-Held now [] s w h = ([], refl, refl, refl)
  run_all-Held now (r ∷ rs) s w h =
      let (first, ran, named, kept) = guarded_run-Held now r s w h.0 in
      let (s₁, w₁) = (guarded_run runners now r (s, w)).1 in
      let (rest, went, names, same) =
        run_all-Held now rs s₁ w₁ (subst (λ rules. All (Held rules) rs) (sym kept) h.1) in
      (first ∷ rest, rw (ran, went) refl, ground (arith, named, names), same ∙ kept)

  due-Held :
      (now second : ℕ) (s : Scheduler T)
      → Named s.rules
      → All (Held (ask s.rules)) (due now second s)
  unfolding due
  due-Held now second s h =
      All-keep_sub (Held (ask s.rules)) (is_due now second s.last_fired) (values s.rules)
        (All-ask (values s.rules) (values-Held s.rules h))
    where
      All-ask : (rs : List (Rule T)) → All (Held s.rules) rs → All (Held (ask s.rules)) rs
      All-ask [] g = tt
      All-ask (r ∷ rs) g = (has-ask r.name s.rules ∙ g.0, All-ask rs g.1)

  tick-Held :
      (s : Scheduler T) (w : W)
      → Named s.rules
      → (made : List AutomationRun) × ((tick runners (s, w)).0 ≡ ok made)
        × (names_of made
            ≡ map (λ (r : Rule T). r.name) (due (runners.monotonic w) (runners.second_of_day w) s))
        × ((tick runners (s, w)).1.0.rules ≡ ask s.rules)
  unfolding tick
  tick-Held s w h =
      let now = runners.monotonic w in
      let second = runners.second_of_day w in
      run_all-Held now (due now second s) (record s { rules = ask s.rules }) w
        (due-Held now second s h)

  rules-tick :
      (s : Scheduler T) (w : W) → Named s.rules → (tick runners (s, w)).1.0.rules ≡ ask s.rules
  rules-tick s w h = (tick-Held s w h).3

  Named-call :
      (c : Call W T) (state : State runners)
      → Named state.0.rules
      → Named (call runners c state).0.rules
  unfolding call register unregister signal
  Named-call (registration r replace) (s, w) h =
      elim (Bool-cases (Dict.has r.name s.rules && not replace)) [
        | inl e ↦ rw e h
        | inr e ↦ rw e (Named-put r s.rules h)
      ]
  Named-call (removal name) (s, w) h = elim (Bool-cases (Dict.has name s.rules)) [
    | inl e ↦ rw e (Named-remove name s.rules h)
    | inr e ↦ rw e h
  ]
  Named-call (signalling name) (s, w) h = Named-arm name s.rules h
  Named-call (running name) (s, w) h = subst Named (sym (rules-run runners name s w)) h
  Named-call ticking (s, w) h = subst Named (sym (rules-tick s w h)) (Named-ask s.rules h)
  Named-call (moving f) (s, w) h = h

  Named-calls :
      (cs : List (Call W T)) (state : State runners)
      → Named state.0.rules
      → Named (calls runners cs state).0.rules
  unfolding calls
  Named-calls [] state h = h
  Named-calls (c ∷ cs) state h = Named-calls cs (call runners c state) (Named-call c state h)

  -- A broken rule cannot stop the scheduler. After any calls of a new scheduler, a tick never
  -- raises, whatever its runners raise: it returns one run for each rule that is due, under the
  -- rule's name and in the order of registration, and it leaves every rule registered.
  pub tick_contained :
      (cs : List (Call W T)) (w : W)
      → let (s, v) = calls runners cs (new_scheduler, w) in
        (made : List AutomationRun) × ((tick runners (s, v)).0 ≡ ok made)
        × (names_of made
            ≡ map (λ (r : Rule T). r.name) (due (runners.monotonic v) (runners.second_of_day v) s))
        × ((tick runners (s, v)).1.0.rules ≡ ask s.rules)
  tick_contained cs w =
      let (s, v) = calls runners cs (new_scheduler, w) in
      tick-Held s v (Named-calls cs (new_scheduler, w) tt)
