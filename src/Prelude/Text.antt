-- ===== src/Prelude/Text.antt =====
-- What the program uses of Python's `str`: `strip` in an emptiness test, `join`, and membership.
use Prim.Native.Nat.{ℕ}
use Prim.Native.Char.{code}
use Prim.Native.String.{String, ◌++◌}
use mathlib.Core.Bool.{Bool, true, false, ◌&&◌, ◌||◌}
use mathlib.Core.List.{List}
use text.Mathlib.Text.{◌==◌ as str_eq}
use eden_os.Prelude.Tests.{leb, ◌==◌, if◌then◌else◌}

infixl 65 ◌⧺◌
-- `s + t`
abbrev pub ◌⧺◌ : String → String → String
s ⧺ t = s ++ t

-- The code points that `str.strip` removes.
is_space : ℕ → Bool
is_space c =
    (leb 9 c && leb c 13)
    || (leb 28 c && leb c 32)
    || c == 133
    || c == 160
    || c == 5760
    || (leb 8192 c && leb c 8202)
    || c == 8232
    || c == 8233
    || c == 8239
    || c == 8287
    || c == 12288

-- `not s.strip()`
unfoldable pub is_blank : String → Bool
unfolding is_space
is_blank String.[] = true
is_blank (String.◌∷◌ c s) = is_space (code c) && is_blank s

-- `sep.join(parts)`
unfoldable pub join : String → List String → String
join sep List.[] = ""
join sep (List.◌∷◌ s List.[]) = s
join sep (List.◌∷◌ s rest) = s ++ (sep ++ join sep rest)

-- `s in names`
unfoldable pub contains : List String → String → Bool
contains List.[] s = false
contains (List.◌∷◌ n rest) s = str_eq n s || contains rest s

-- `s.lstrip()`, `s.rstrip()` and `s.strip()`
lstrip : String → String
unfolding is_space
lstrip String.[] = ""
lstrip (String.◌∷◌ c s) = let rest = lstrip s in if is_space (code c) then rest else String.◌∷◌ c s

rstrip : String → String
unfolding is_blank
rstrip String.[] = ""
rstrip (String.◌∷◌ c s) =
    let rest = rstrip s in if is_space (code c) && is_blank s then "" else String.◌∷◌ c rest

unfoldable pub strip : String → String
unfolding lstrip rstrip
strip s = lstrip (rstrip s)

-- Whether some character of `s` has its code point in `codes`.
unfoldable pub has_code : List ℕ → ℕ → Bool
has_code List.[] c = false
has_code (List.◌∷◌ d rest) c = d == c || has_code rest c

unfoldable pub has_any : List ℕ → String → Bool
unfolding has_code
has_any codes String.[] = false
has_any codes (String.◌∷◌ c s) = has_code codes (code c) || has_any codes s

-- Whether every character of `s` has the code point `d`.
unfoldable pub only : ℕ → String → Bool
only d String.[] = true
only d (String.◌∷◌ c s) = code c == d && only d s
