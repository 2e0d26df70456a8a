-- ===== src/Execution/Handlers/Newlines.antt =====
-- The universal newlines of Python's `read_text`, which src/eden/execution/handlers.py captures a
-- file with: `\r\n` and `\r` are read as `\n`.
use Prim.Native.Char.{code}
use Prim.Native.String.{String}
use eden_os.Prelude.{Bool, true, false, ◌≡◌, refl, arith, ◌==◌, ◌&&◌, if◌then◌else◌}

-- The rest of the text, and whether a carriage return stood before it.
newlines : Bool → String → String
newlines returned String.[] = ""
newlines returned (String.◌∷◌ c s) =
    let rest = newlines (code c == 13) s in
    if code c == 13
    then String.◌∷◌ "\n" rest
    else if returned && code c == 10
    then rest
    else String.◌∷◌ c rest

unfoldable pub normal : String → String
unfolding newlines
normal s = newlines false s

-- Whether no carriage return is in a text.
plain : String → Bool
plain String.[] = true
plain (String.◌∷◌ c s) = if code c == 13 then false else plain s

plain-newlines : (r : Bool) (s : String) → plain (newlines r s) ≡ true
unfolding plain newlines
plain-newlines r String.[] = refl
plain-newlines r (String.◌∷◌ c s) = ground (arith, plain-newlines (code c == 13) s)

newlines-plain : (s : String) → plain s ≡ true → newlines false s ≡ s
unfolding plain newlines
newlines-plain String.[] h = refl
newlines-plain (String.◌∷◌ c s) h = ground (arith, newlines-plain s)

-- What has been read once is read again as it is.
pub normal-normal : (s : String) → normal (normal s) ≡ normal s
unfolding normal
normal-normal s = newlines-plain (newlines false s) (plain-newlines false s)
