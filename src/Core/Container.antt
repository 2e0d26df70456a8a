-- ===== src/Core/Container.antt =====
-- src/eden/core/container.py: how dependencies are resolved. A key is what `_key` makes of a type
-- and a name. A factory is the calls of `resolve` that it makes before it returns or raises, each
-- with what it does next for every outcome; it does not register anything.
pub mod Terminates
pub mod Singletons
use eden_os.Prelude.{
  ℕ, zero, suc, String, Bool, true, false, not, ◌&&◌, Option, none, some, List, [], ◌∷◌, map,
  if◌then◌else◌,
}
use eden_os.Prelude.Dict
use eden_os.Prelude.Dict.{Dict}
use eden_os.Prelude.Text.{◌⧺◌, contains}
use eden_os.Errors.{EdenError, is_a, dependency_resolution_error}
use eden_os.Effect.{Outcome, ok, eden, crash}

-- `_key`
abbrev pub key_of : (module_name qualname : String) (name : Option String) → String
key_of module_name qualname none = module_name ⧺ "." ⧺ qualname
key_of module_name qualname (some name) = module_name ⧺ "." ⧺ qualname ⧺ "#" ⧺ name

pub data Scope : Type 0 where
  singleton transient : Scope

abbrev pub is_singleton : Scope → Bool
is_singleton singleton = true
is_singleton transient = false

pub data Factory (T : Type 0) : Type 0 where
  finish : Outcome T → Factory T
  ask : (key : String) → (Outcome T → Factory T) → Factory T

-- `_Binding`
pub record Binding (T : Type 0) : Type 0 where
  pub factory : Factory T
  pub scope : Scope
  pub instance_ : Option T

-- `Container`; the stack `_resolving` has its top first.
pub record Container (T : Type 0) : Type 0 where
  pub bindings : Dict (Binding T)
  pub resolving : List String

abbrev pub unresolved : String → EdenError
unresolved message = record { class = dependency_resolution_error; message = message }

abbrev pub tail : List String → List String
tail [] = []
tail (k ∷ ks) = ks

abbrev pub and_then {ℓ} : {A B : Type ℓ} → Option A → (A → Option B) → Option B
and_then none f = none
and_then (some a) f = f a

module _ {T : Type 0} where
  -- `register`
  unfoldable pub register :
      (key : String)
      → Factory T
      → Scope
      → (replace : Bool) → Container T
      → Outcome (Unit {0}) × Container T
  register key factory scope replace c =
      if Dict.has key c.bindings && not replace
      then (eden (unresolved "A binding for this type is already registered."), c)
      else let binding : Binding T = record {
        factory = factory;
        scope = scope;
        instance_ = none;
      } in
        (ok tt, record c { bindings = Dict.put key binding c.bindings })

  -- `register_instance`
  abbrev pub register_instance :
      (key : String) → T → (replace : Bool) → Container T → Outcome (Unit {0}) × Container T
  register_instance key value replace c = register key (finish (ok value)) singleton replace c

  -- `has`
  abbrev pub has : (key : String) → Container T → Bool
  has key c = Dict.has key c.bindings

  -- `clear`
  abbrev pub clear : Container T → Container T
  clear c = record { bindings = []; resolving = [] }

  abbrev cached_in : Option (Binding T) → Option T
  cached_in none = none
  cached_in (some b) = if is_singleton b.scope then b.instance_ else none

  -- The instance that a singleton binding has, if it is not `None`.
  abbrev pub cached : (key : String) → Container T → Option T
  cached key c = cached_in (Dict.get key c.bindings)

  -- `singletons`
  unfoldable pub singletons : Dict (Binding T) → List T
  singletons [] = []
  singletons ((key, b) ∷ rest) = with_cached (cached_in (some b)) (singletons rest)
    where
      with_cached : Option T → List T → List T
      with_cached none vs = vs
      with_cached (some v) vs = v ∷ vs

  -- `_tracking`
  abbrev pub push : (key : String) → Container T → Container T
  push key c = record c { resolving = key ∷ c.resolving }

  abbrev pub pop : Container T → Container T
  pop c = record c { resolving = tail c.resolving }

  -- The factory, on a container whose `resolve` is given; none is a resolution that does not end.
  unfoldable pub run :
      (resolve : String → Container T → Option (Outcome T × Container T))
      → Factory T
      → Container T
      → Option (Outcome T × Container T)
  run resolve (finish o) c = some (o, c)
  run resolve (ask key next) c = and_then (resolve key c) (λ r. run resolve (next r.0) r.1)

  -- The two `except` clauses.
  abbrev pub wrapped : Outcome T → Outcome T
  wrapped (ok v) = ok v
  wrapped (eden e) =
      if is_a e.class dependency_resolution_error
      then eden e
      else eden (unresolved "Factory raised while constructing a dependency.")
  wrapped (crash t m) = eden (unresolved "Factory raised while constructing a dependency.")

  module _ (is_none : T → Bool) where
    -- `binding.instance = instance`
    abbrev pub store : (key : String) → Binding T → Outcome T → Container T → Container T
    store key b (ok v) c =
        let instance_ = if is_none v then none else some v in
        let binding = record b { instance_ = instance_ } in
        let kept = record c { bindings = Dict.put key binding c.bindings } in
        if is_singleton b.scope then kept else c
    store key b (eden e) c = c
    store key b (crash t m) c = c

    abbrev pub made :
        (key : String)
        → Binding T
        → Option (Outcome T × Container T)
        → Option (Outcome T × Container T)
    made key b none = none
    made key b (some r) = some (wrapped r.0, store key b r.0 (pop r.1))

    abbrev pub found :
        (resolve : String → Container T → Option (Outcome T × Container T)) (key : String)
        → Option (Binding T)
        → Option T
        → Container T
        → Option (Outcome T × Container T)
    found resolve key none instance_ c =
        some (eden (unresolved "No binding is registered for this type."), c)
    found resolve key (some b) (some v) c = some (ok v, c)
    found resolve key (some b) none c =
        let fresh = made key b (run resolve b.factory (push key c)) in
        if contains c.resolving key
        then some (eden (unresolved "Circular dependency detected."), c)
        else fresh

    -- `resolve`, with a bound on the depth of its recursion.
    unfoldable pub resolve : ℕ → (key : String) → Container T → Option (Outcome T × Container T)
    unfolding run
    resolve zero key c = none
    resolve (suc depth) key c = found (resolve depth) key (Dict.get key c.bindings) (cached key c) c
