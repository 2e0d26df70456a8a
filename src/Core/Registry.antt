-- ===== src/Core/Registry.antt =====
-- src/eden/core/registry.py: factories under names that are compared without their case and the
-- white space around them. `lower` is Python's `str.lower`.
use eden_os.Prelude.{String, Bool, Option, none, some, ◌≡◌, arith, not, ◌&&◌, if◌then◌else◌, str_eq}
use eden_os.Prelude.Dict
use eden_os.Prelude.Dict.{Dict, get-put, get-remove}
use eden_os.Prelude.Text.{strip}
use eden_os.Errors.{EdenError, registry_error}
use eden_os.Effect.{Outcome, ok, eden, Eff}

abbrev pub refused : String → EdenError
refused message = record { class = registry_error; message = message }

-- The factories by their keys. A factory is a callable that may act and raise.
abbrev pub Factories : (W T : Type 0) → Type 0
Factories W T = Dict (Eff W T)

-- `name.strip().lower()`
unfoldable pub key : (lower : String → String) → String → String
key lower name = lower (strip name)

module _ {W T : Type 0} (lower : String → String) where
  -- `register`
  unfoldable pub register :
      String → Eff W T → (replace : Bool) → Factories W T → Outcome (Unit {0}) × Factories W T
  register name factory replace factories =
      if str_eq (key lower name) ""
      then (eden (refused "Registry keys must not be empty."), factories)
      else if Dict.has (key lower name) factories && not replace
      then (eden (refused "An entry with this name is already registered."), factories)
      else (ok tt, Dict.put (key lower name) factory factories)

  -- `unregister`
  unfoldable pub unregister : String → Factories W T → Outcome (Unit {0}) × Factories W T
  unregister name factories =
      if Dict.has (key lower name) factories
      then (ok tt, Dict.remove (key lower name) factories)
      else (eden (refused "No entry is registered under this name."), factories)

  abbrev called : Option (Eff W T) → Eff W T
  called none w = (eden (refused "No entry is registered under this name."), w)
  called (some factory) w = factory w

  -- `create`
  unfoldable pub create : String → Factories W T → Eff W T
  create name factories w = called (Dict.get (key lower name) factories) w

  -- What a registration does to every later `create`. If it is accepted, then the name, in any
  -- spelling with the same key, runs the new factory, and every other name does what it did.
  pub create-register :
      (name other : String) (factory : Eff W T) (replace : Bool) (factories : Factories W T) (w : W)
      → (register name factory replace factories).0 ≡ ok tt
      → create other (register name factory replace factories).1 w ≡ (
          if str_eq (key lower name) (key lower other) then factory w else create other factories w)
  unfolding register create
  create-register name other factory replace factories w accepted =
      ground (arith, get-put (key lower name) (key lower other) factory factories)

  -- What a removal does to every later `create`: if it is accepted, then the name, in any spelling
  -- with the same key, raises `RegistryError`, and every other name does what it did.
  pub create-unregister :
      (name other : String) (factories : Factories W T) (w : W)
      → (unregister name factories).0 ≡ ok tt
      → create other (unregister name factories).1 w ≡ (
          if str_eq (key lower name) (key lower other)
          then (eden (refused "No entry is registered under this name."), w)
          else create other factories w)
  unfolding unregister create
  create-unregister name other factories w accepted =
      ground (arith, get-remove (key lower name) (key lower other) factories)
