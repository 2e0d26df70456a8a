-- ===== src/Core/Examples.antt =====
-- The properties of the registry at concrete inputs.
use eden_os.Prelude.{ℕ, String, false, [], ◌∷◌, ◌≡◌, refl}
use eden_os.Prelude.Dict
use eden_os.Prelude.Text.{strip}
use eden_os.Effect.{ok, Eff}
use eden_os.Core.Registry.{Factories, key, register, unregister}

abbrev lower : String → String
lower s = s

abbrev three : Eff ℕ ℕ
three w = (ok 3, w)

abbrev held : Factories ℕ ℕ
held = ("a", λ w. (ok 7, w)) ∷ []

program : Unit {0}
unfolding register unregister key strip Dict.has Dict.get Dict.put
program = tt

accepted : (register lower " b " three false held).0 ≡ ok tt
unfolding program
accepted = refl

removed : (unregister lower "a" held).0 ≡ ok tt
unfolding program
removed = refl
