-- ===== src/Automation/Signals.antt =====
-- What a signal does to the rules that listen for it.
use eden_os.Prelude.{
  ℕ, suc, String, Bool, true, false, Option, [], ◌∷◌, ◌≡◌, ◌⊎◌, refl, arith, All, keep, length,
  Bool-cases, inl, inr, ◌&&◌, ap,
}
use eden_os.Prelude.Dict
use eden_os.Prelude.Dict.{Dict, values}
use eden_os.Automation.Rules.{Rule}
use eden_os.Automation.Triggers.{
  Trigger, interval, daily, event, manual, fires, consumed, listens, signalled,
}
use eden_os.Automation.{Scheduler, signal, arm, ask, asked, is_due}

abbrev pub is_event : Trigger → Bool
is_event (event name pending) = true
is_event _ = false

fires-signalled :
    (name : String) (t : Trigger) (now second : ℕ) (last : Option ℕ)
    → listens name t ≡ true
    → fires (signalled t) now second last ≡ true
unfolding fires signalled listens
fires-signalled name (interval seconds at_once) now second last h = cc
fires-signalled name (daily hour minute) now second last h = cc
fires-signalled name (event own pending) now second last h = refl
fires-signalled name manual now second last h = cc

listens-signalled : (name : String) (t : Trigger) → listens name (signalled t) ≡ listens name t
unfolding signalled listens
listens-signalled name (interval seconds at_once) = refl
listens-signalled name (daily hour minute) = refl
listens-signalled name (event own pending) = refl
listens-signalled name manual = refl

fires-consumed :
    (t : Trigger) (now second : ℕ) (last : Option ℕ)
    → (is_event (consumed t) && fires (consumed t) now second last) ≡ false
unfolding fires consumed
fires-consumed (interval seconds at_once) now second last = refl
fires-consumed (daily hour minute) now second last = refl
fires-consumed (event own pending) now second last = refl
fires-consumed manual now second last = refl

module _ {T : Type 0} (name : String) (now second : ℕ) (last : Dict ℕ) where
  -- An enabled rule that listens is due.
  abbrev pub Roused : Rule T → Type 0
  Roused r = ((r.enabled && listens name r.trigger) ≡ false) ⊎ (is_due now second last r ≡ true)

  Roused-signalled :
      (r : Rule T)
      → listens name r.trigger ≡ true
      → Roused (record r { trigger = signalled r.trigger })
  unfolding is_due
  Roused-signalled r h = elim (Bool-cases r.enabled) [
    | inr e ↦ inl (rw e refl)
    | inl e ↦ inr (rw e (fires-signalled name r.trigger now second (Dict.get r.name last) h))
  ]

  Roused-arm : (rules : Dict (Rule T)) → All Roused (values (arm name rules).1)
  unfolding arm
  Roused-arm [] = tt
  Roused-arm ((k, r) ∷ rules) = elim (Bool-cases (listens name r.trigger)) [
    | inl e ↦ rw e (Roused-signalled r e, Roused-arm rules)
    | inr e ↦ rw e (inl (ground (arith, e)), Roused-arm rules)
  ]

  armed-arm :
      (rules : Dict (Rule T))
      → (arm name rules).0 ≡ length (keep (λ r. listens name r.trigger) (values rules))
  unfolding arm
  armed-arm [] = refl
  armed-arm ((k, r) ∷ rules) = elim (Bool-cases (listens name r.trigger)) [
    | inl e ↦ rw e (ap suc (armed-arm rules))
    | inr e ↦ rw e (armed-arm rules)
  ]

  -- An enabled rule on an event is not due once it was asked.
  abbrev pub Spent : Rule T → Type 0
  Spent r = (r.enabled && is_event r.trigger && is_due now second last r) ≡ false

  Spent-asked : (r : Rule T) → Spent (asked r)
  unfolding is_due
  Spent-asked r = ground (arith, fires-consumed r.trigger now second (Dict.get (asked r).name last))

  Spent-ask : (rules : Dict (Rule T)) → All Spent (values (ask rules))
  unfolding ask
  Spent-ask [] = tt
  Spent-ask ((k, r) ∷ rules) = (Spent-asked r, Spent-ask rules)

  -- A signal counts for one tick. `signal` returns the number of rules that listen for the event;
  -- after it each of them that is enabled is due at any time; and once a tick has asked the
  -- triggers, no enabled rule on an event is due, until it is signalled again.
  pub signal_once :
      (s : Scheduler T)
      → let (armed, s') = signal name s in
        (armed ≡ length (keep (λ r. listens name r.trigger) (values s.rules)))
        × All Roused (values s'.rules)
        × All Spent (values (ask s'.rules))
  unfolding signal
  signal_once s = (armed-arm s.rules, Roused-arm s.rules, Spent-ask (arm name s.rules).1)
