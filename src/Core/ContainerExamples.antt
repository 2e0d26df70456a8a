-- ===== src/Core/ContainerExamples.antt =====
-- The properties of the container at concrete bindings.
use eden_os.Prelude.{ℕ, Bool, false, none, some, [], ◌∷◌, ◌≡◌, refl}
use eden_os.Prelude.Dict
use eden_os.Prelude.Text.{contains}
use eden_os.Errors.{is_a}
use eden_os.Effect.{Outcome, ok, eden}
use eden_os.Core.Container.{
  Factory, finish, ask, Binding, Container, singleton, resolve, unresolved,
}
use eden_os.Core.Container.Terminates.{Ends, resolve-Ends}
use eden_os.Core.Container.Singletons.{enough, resolve_all, singleton_stays}

abbrev is_none : ℕ → Bool
is_none n = false

-- The value that a factory asked for, or the error.
abbrev passed_on : Outcome ℕ → Factory ℕ
passed_on o = finish o

abbrev binding : Factory ℕ → Binding ℕ
binding f = record { factory = f; scope = singleton; instance_ = none }

-- `engine` needs `clock`, and `left` and `right` need each other.
abbrev container : Container ℕ
container = record {
  bindings =
      ("engine", binding (ask "clock" passed_on))
      ∷ ("clock", binding (finish (ok 7)))
      ∷ ("left", binding (ask "right" passed_on))
      ∷ ("right", binding (ask "left" passed_on))
      ∷ [];
  resolving = [];
}

abbrev built : Container ℕ
built = record {
  bindings =
      ("engine", record (binding (ask "clock" passed_on)) { instance_ = some 7 })
      ∷ ("clock", record (binding (finish (ok 7))) { instance_ = some 7 })
      ∷ ("left", binding (ask "right" passed_on))
      ∷ ("right", binding (ask "left" passed_on))
      ∷ [];
  resolving = [];
}

circular :
    resolve is_none 5 "left" container
    ≡ some (eden (unresolved "Circular dependency detected."), container)
unfolding resolve Dict.get Dict.put contains is_a
circular = refl

resolve-Ends_example : Ends is_none (resolve is_none 5 "left" container) container
resolve-Ends_example = resolve-Ends is_none "left" container

singleton_stays_example :
    let last = resolve_all is_none ("left" ∷ "clock" ∷ []) built in
    enough is_none "engine" last ≡ some (ok 7, last)
unfolding resolve Dict.get Dict.put contains
singleton_stays_example =
    singleton_stays is_none "engine" (binding (ask "clock" passed_on)) container built 7
      ("left" ∷ "clock" ∷ []) refl refl refl refl
