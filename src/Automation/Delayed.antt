-- ===== src/Automation/Delayed.antt =====
-- An interval rule that is not to fire at once.
use eden_os.Prelude.{
  ℕ, String, Bool, true, false, none, List, [], ◌∷◌, ◌≡◌, refl, sym, ap, ◌∙◌, arith, All, keep,
  Bool-cases, Option-cases, inl, inr, str_eq, eq_iff, subst, ◌&&◌, ◌||◌, not,
}
use eden_os.Prelude.Dict
use eden_os.Prelude.Dict.{Dict, values, get-put, get-remove}
use eden_os.Automation.Rules.{Rule}
use eden_os.Automation.Triggers.{
  Trigger, interval, daily, event, manual, fires, consumed, listens, signalled,
}
use eden_os.Automation.{
  Runners, Scheduler, register, unregister, signal, arm, ask, asked, due, is_due, run_rule, run,
  guarded_run, run_all, tick, remember,
}
use eden_os.Automation.History.{
  Call, registration, removal, signalling, running, ticking, moving, call, calls, run-found,
  run-missing, rules-run, new_scheduler,
}

-- An `IntervalTrigger` with `fire_immediately=False`.
abbrev pub is_delayed : Trigger → Bool
is_delayed (interval seconds false) = true
is_delayed _ = false

-- Whether a rule is of another name, or its trigger is delayed.
abbrev pub waits : {T : Type 0} → String → Rule T → Bool
waits name r = not (str_eq r.name name) || is_delayed r.trigger

is_delayed-consumed : (t : Trigger) → is_delayed (consumed t) ≡ is_delayed t
unfolding consumed
is_delayed-consumed (interval seconds at_once) = refl
is_delayed-consumed (daily hour minute) = refl
is_delayed-consumed (event own pending) = refl
is_delayed-consumed manual = refl

is_delayed-signalled : (t : Trigger) → is_delayed (signalled t) ≡ is_delayed t
unfolding signalled
is_delayed-signalled (interval seconds at_once) = refl
is_delayed-signalled (daily hour minute) = refl
is_delayed-signalled (event own pending) = refl
is_delayed-signalled manual = refl

-- A delayed trigger does not fire while its rule has never fired.
fires-delayed :
    (t : Trigger) (now second : ℕ) → is_delayed t ≡ true → fires t now second none ≡ false
unfolding fires
fires-delayed (interval seconds true) now second h = cc
fires-delayed (interval seconds false) now second h = refl
fires-delayed (daily hour minute) now second h = cc
fires-delayed (event own pending) now second h = cc
fires-delayed manual now second h = refl

module _ {T : Type 0} (name : String) where
  abbrev AllWait : Dict (Rule T) → Type 0
  AllWait rules = All (λ e. waits name e.1 ≡ true) rules

  AllWait-put :
      (r : Rule T) (rules : Dict (Rule T))
      → waits name r ≡ true
      → AllWait rules
      → AllWait (Dict.put r.name r rules)
  unfolding Dict.put
  AllWait-put r [] w h = (w, tt)
  AllWait-put r ((k, q) ∷ rules) w h = elim (Bool-cases (str_eq k r.name)) [
    | inl e ↦ rw e (w, h.1)
    | inr e ↦ rw e (h.0, AllWait-put r rules w h.1)
  ]

  AllWait-remove :
      (n : String) (rules : Dict (Rule T)) → AllWait rules → AllWait (Dict.remove n rules)
  unfolding Dict.remove
  AllWait-remove n [] h = tt
  AllWait-remove n ((k, q) ∷ rules) h = elim (Bool-cases (str_eq k n)) [
    | inl e ↦ rw e (AllWait-remove n rules h.1)
    | inr e ↦ rw e (h.0, AllWait-remove n rules h.1)
  ]

  waits-asked : (r : Rule T) → waits name (asked r) ≡ waits name r
  waits-asked r = ground (arith, is_delayed-consumed r.trigger)

  AllWait-ask : (rules : Dict (Rule T)) → AllWait rules → AllWait (ask rules)
  unfolding ask
  AllWait-ask [] h = tt
  AllWait-ask ((k, r) ∷ rules) h = (waits-asked r ∙ h.0, AllWait-ask rules h.1)

  AllWait-arm : (own : String) (rules : Dict (Rule T)) → AllWait rules → AllWait (arm own rules).1
  unfolding arm
  AllWait-arm own [] h = tt
  AllWait-arm own ((k, r) ∷ rules) h = elim (Bool-cases (listens own r.trigger)) [
    | inl e ↦ rw e (ground (arith, is_delayed-signalled r.trigger, h.0), AllWait-arm own rules h.1)
    | inr e ↦ rw e (h.0, AllWait-arm own rules h.1)
  ]

  abbrev Other : Rule T → Type 0
  Other r = str_eq r.name name ≡ false

  is_due-Other :
      (r : Rule T) (now second : ℕ) (last : Dict ℕ)
      → waits name r ≡ true
      → Dict.get name last ≡ none
      → is_due now second last r ≡ true
      → Other r
  unfolding is_due
  is_due-Other r now second last w never due_now =
      ground (arith, eq_iff r.name name, fires-delayed r.trigger now second)

  due-Other :
      (rules : Dict (Rule T)) (now second : ℕ) (last : Dict ℕ)
      → AllWait rules
      → Dict.get name last ≡ none
      → All Other (keep (is_due now second last) (values rules))
  due-Other [] now second last h never = tt
  due-Other ((k, r) ∷ rules) now second last h never =
      elim (Bool-cases (is_due now second last r)) [
        | inl e ↦
            rw e (
              is_due-Other r now second last h.0 never e,
              due-Other rules now second last h.1 never,
            )
        | inr e ↦ rw e (due-Other rules now second last h.1 never)
      ]

module _ {W T : Type 0} (runners : Runners W T) (name : String) where
  last_fired-run :
      (n : String) (s : Scheduler T) (w : W) → (run runners n (s, w)).1.0.last_fired ≡ s.last_fired
  unfolding run_rule remember
  last_fired-run n s w = elim (Option-cases (Dict.get n s.rules)) [
    | inl missing ↦ ap (λ o. o.1.0.last_fired) (run-missing runners n s w missing)
    | inr (r, found) ↦ ap (λ o. o.1.0.last_fired) (run-found runners n r s w found)
  ]

  -- Every rule of the name waits, and none of it has fired.
  record IsWaiting (s : Scheduler T) : Type 0 where
    all_wait : AllWait name s.rules
    never : Dict.get name s.last_fired ≡ none

  IsWaiting-run :
      (n : String) (s : Scheduler T) (w : W) → IsWaiting s → IsWaiting (run runners n (s, w)).1.0
  IsWaiting-run n s w h = record {
    all_wait = subst (AllWait name) (sym (rules-run runners n s w)) h.all_wait;
    never = ap (Dict.get name) (last_fired-run n s w) ∙ h.never;
  }

  IsWaiting-run_all :
      (now : ℕ) (rs : List (Rule T)) (s : Scheduler T) (w : W)
      → All (Other name) rs
      → IsWaiting s
      → IsWaiting (run_all runners now rs (s, w)).1.0
  unfolding run_all guarded_run
  IsWaiting-run_all now [] s w others h = h
  IsWaiting-run_all now (r ∷ rs) s w others h =
      let fired : Scheduler T = record s { last_fired = Dict.put r.name now s.last_fired } in
      let (s₁, w₁) = (run runners r.name (fired, w)).1 in
      IsWaiting-run_all now rs s₁ w₁ others.1 (
        IsWaiting-run r.name fired w (record {
          all_wait = h.all_wait;
          never = rw (get-put r.name name now s.last_fired, others.0) h.never;
        }))

  -- What a call may register: under the name, only a rule whose trigger is delayed.
  abbrev pub Delays : Call W T → Type 0
  Delays (registration r replace) = waits name r ≡ true
  Delays _ = Unit

  IsWaiting-call :
      (c : Call W T) (s : Scheduler T) (w : W)
      → Delays c
      → IsWaiting s
      → IsWaiting (call runners c (s, w)).0
  unfolding call register unregister signal tick due
  IsWaiting-call (registration r replace) s w d h =
      elim (Bool-cases (Dict.has r.name s.rules && not replace)) [
        | inl e ↦ rw e h
        | inr e ↦
            rw e (record { all_wait = AllWait-put name r s.rules d h.all_wait; never = h.never })
      ]
  IsWaiting-call (removal n) s w d h = elim (Bool-cases (Dict.has n s.rules)) [
    | inl e ↦ rw e (record {
      all_wait = AllWait-remove name n s.rules h.all_wait;
      never = ground (arith, get-remove n name s.last_fired, h.never);
    })
    | inr e ↦ rw e h
  ]
  IsWaiting-call (signalling own) s w d h = record {
    all_wait = AllWait-arm name own s.rules h.all_wait;
    never = h.never;
  }
  IsWaiting-call (running n) s w d h = IsWaiting-run n s w h
  IsWaiting-call ticking s w d h =
      let now = runners.monotonic w in
      let second = runners.second_of_day w in
      IsWaiting-run_all now (keep (is_due now second s.last_fired) (values s.rules))
        (record s { rules = ask s.rules }) w
        (due-Other name s.rules now second s.last_fired h.all_wait h.never)
        (record { all_wait = AllWait-ask name s.rules h.all_wait; never = h.never })
  IsWaiting-call (moving f) s w d h = h

  IsWaiting-calls :
      (cs : List (Call W T)) (s : Scheduler T) (w : W)
      → All Delays cs
      → IsWaiting s
      → IsWaiting (calls runners cs (s, w)).0
  unfolding calls
  IsWaiting-calls [] s w d h = h
  IsWaiting-calls (c ∷ cs) s w d h =
      let (s₁, w₁) = call runners c (s, w) in
      IsWaiting-calls cs s₁ w₁ d.1 (IsWaiting-call c s w d.0 h)

  -- An interval rule that is not to fire at once never fires. After any calls of a new scheduler,
  -- ticks included, in which every rule that is registered under `name` has an interval trigger
  -- with `fire_immediately=False`, no rule of that name is due, whatever the time.
  pub delayed_never_due :
      (cs : List (Call W T)) (w : W) (now second : ℕ)
      → All Delays cs
      → All
          (λ r. str_eq r.name name ≡ false)
          (due now second (calls runners cs (new_scheduler, w)).0)
  unfolding due Dict.get
  delayed_never_due cs w now second d =
      let s = (calls runners cs (new_scheduler, w)).0 in
      let waiting = IsWaiting-calls cs new_scheduler w d (record { all_wait = tt; never = refl }) in
      due-Other name s.rules now second s.last_fired waiting.all_wait waiting.never
