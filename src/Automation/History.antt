-- ===== src/Automation/History.antt =====
-- The calls of a scheduler in any order, and the bound on its history.
use eden_os.Prelude.{
  ℕ, String, Bool, List, [], ◌∷◌, ◌++◌, ◌-◌, ◌≡◌, ◌≤◌, arith, length, length-drop, Option-cases,
  inl, inr, some, none, ap,
}
use eden_os.Prelude.Dict
use eden_os.Effect.{ok, eden}
use eden_os.Automation.Rules.{Rule, AutomationRun}
use eden_os.Automation.{
  Runners, Scheduler, State, register, unregister, signal, remember, run_rule, run, guarded_run,
  run_all, tick, due, ask, not_registered,
}

-- The calls of a scheduler; between them the world moves on.
pub data Call (W T : Type 0) : Type 0 where
  registration : Rule T → Bool → Call W T
  removal : String → Call W T
  signalling : String → Call W T
  running : String → Call W T
  ticking : Call W T
  moving : (W → W) → Call W T

abbrev pub new_scheduler : {T : Type 0} → Scheduler T
new_scheduler = record { rules = []; last_fired = []; history = [] }

module _ {W T : Type 0} (runners : Runners W T) where
  unfoldable pub call : Call W T → State runners → State runners
  call (registration r replace) (s, w) = ((register r replace s).1, w)
  call (removal name) (s, w) = ((unregister name s).1, w)
  call (signalling name) (s, w) = ((signal name s).1, w)
  call (running name) (s, w) = (run runners name (s, w)).1
  call ticking (s, w) = (tick runners (s, w)).1
  call (moving f) (s, w) = (s, f w)

  unfoldable pub calls : List (Call W T) → State runners → State runners
  unfolding call
  calls [] state = state
  calls (c ∷ cs) state = calls cs (call c state)

  pub run-found :
      (name : String) (r : Rule T) (s : Scheduler T) (w : W)
      → Dict.get name s.rules ≡ some r
      → run runners name (s, w)
        ≡ (ok (run_rule runners r name (s, w)).0, (run_rule runners r name (s, w)).1)
  unfolding run
  run-found name r s w found = ground arith

  pub run-missing :
      (name : String) (s : Scheduler T) (w : W)
      → Dict.get name s.rules ≡ none
      → run runners name (s, w) ≡ (eden not_registered, (s, w))
  unfolding run
  run-missing name s w missing = ground arith

  -- A run keeps the rules.
  pub rules-run :
      (name : String) (s : Scheduler T) (w : W) → (run runners name (s, w)).1.0.rules ≡ s.rules
  unfolding run_rule remember
  rules-run name s w = elim (Option-cases (Dict.get name s.rules)) [
    | inl missing ↦ ap (λ o. o.1.0.rules) (run-missing name s w missing)
    | inr (r, found) ↦ ap (λ o. o.1.0.rules) (run-found name r s w found)
  ]

  length-remember :
      (limit : ℕ) (made : AutomationRun) (s : Scheduler T)
      → length (remember limit made s).history ≤ limit
  unfolding remember
  length-remember limit made s =
      let all = s.history ++ made ∷ [] in omega (arith, length-drop (length all - limit) all)

  abbrev Bounded : State runners → Type 0
  Bounded (s, w) = length s.history ≤ runners.history_limit

  run-Bounded :
      (name : String) (state : State runners) → Bounded state → Bounded (run runners name state).1
  unfolding run_rule
  run-Bounded name (s, w) h = elim (Option-cases (Dict.get name s.rules)) [
    | inl missing ↦ ground (arith, h, ap (λ o. length o.1.0.history) (run-missing name s w missing))
    | inr (r, found) ↦
        let made = (run_rule runners r name (s, w)).0 in
        ground (
          arith,
          length-remember runners.history_limit made s,
          ap (λ o. length o.1.0.history) (run-found name r s w found),
        )
  ]

  run_all-Bounded :
      (now : ℕ) (rs : List (Rule T)) (state : State runners)
      → Bounded state
      → Bounded (run_all runners now rs state).1
  unfolding run_all guarded_run
  run_all-Bounded now [] state h = h
  run_all-Bounded now (r ∷ rs) (s, w) h =
      run_all-Bounded now rs _
        (run-Bounded r.name (record s { last_fired = Dict.put r.name now s.last_fired }, w) h)

  call-Bounded : (c : Call W T) (state : State runners) → Bounded state → Bounded (call c state)
  unfolding call register unregister signal tick
  call-Bounded (registration r replace) (s, w) h = ground arith
  call-Bounded (removal name) (s, w) h = ground arith
  call-Bounded (signalling name) (s, w) h = h
  call-Bounded (running name) (s, w) h = run-Bounded name (s, w) h
  call-Bounded ticking (s, w) h =
      run_all-Bounded (runners.monotonic w) (due (runners.monotonic w) (runners.second_of_day w) s)
        (record s { rules = ask s.rules }, w) h
  call-Bounded (moving f) (s, w) h = h

  calls-Bounded :
      (cs : List (Call W T)) (state : State runners) → Bounded state → Bounded (calls cs state)
  unfolding calls
  calls-Bounded [] state h = h
  calls-Bounded (c ∷ cs) state h = calls-Bounded cs (call c state) (call-Bounded c state h)

  -- Whatever a new scheduler is asked to do, in any order and in any world, its history never holds
  -- more than `history_limit` runs.
  pub history_bounded :
      (cs : List (Call W T)) (w : W)
      → length (calls cs (new_scheduler, w)).0.history ≤ runners.history_limit
  history_bounded cs w = calls-Bounded cs (new_scheduler, w) (omega arith)
