-- ===== src/Memory/Repository/Paths.antt =====
-- `JsonlRecordRepository.path_for`: the file of a namespace.
use Prim.Native.Char.{code}
use eden_os.Prelude.{
  ℕ, String, Bool, true, false, ◌&&◌, ◌||◌, List, [], ◌∷◌, leb, ◌==◌, if◌then◌else◌, str_eq,
}
use eden_os.Prelude.Text.{◌⧺◌, has_code}

-- The characters that `_SAFE_NAMESPACE` leaves: letters and digits of ASCII, `.`, `_` and `-`.
abbrev is_safe : ℕ → Bool
is_safe c =
    (leb 65 c && leb c 90)
    || (leb 97 c && leb c 122)
    || (leb 48 c && leb c 57)
    || c == 46
    || c == 95
    || c == 45

-- `_SAFE_NAMESPACE.sub("_", namespace)`: every run of other characters becomes one underscore.
-- The flag says whether the text before ends in such a run.
unfoldable pub sanitise : (in_run : Bool) → String → String
sanitise in_run String.[] = ""
sanitise in_run (String.◌∷◌ c s) =
    let kept = sanitise false s in
    let run = sanitise true s in
    if is_safe (code c) then String.◌∷◌ c kept else if in_run then run else "_" ⧺ run

-- `.strip("._-")`
abbrev stripped : List ℕ
stripped = 46 ∷ 95 ∷ 45 ∷ []

lstrip : String → String
unfolding has_code
lstrip String.[] = ""
lstrip (String.◌∷◌ c s) =
    let rest = lstrip s in if has_code stripped (code c) then rest else String.◌∷◌ c s

all_stripped : String → Bool
unfolding has_code
all_stripped String.[] = true
all_stripped (String.◌∷◌ c s) = has_code stripped (code c) && all_stripped s

rstrip : String → String
unfolding all_stripped has_code
rstrip String.[] = ""
rstrip (String.◌∷◌ c s) =
    let rest = rstrip s in
    if has_code stripped (code c) && all_stripped s then "" else String.◌∷◌ c rest

abbrev or_default : String → String
or_default s = if str_eq s "" then "default" else s

-- `path_for`
unfoldable pub path_for : (directory suffix namespace : String) → String
unfolding sanitise lstrip rstrip
path_for directory suffix namespace =
    directory ⧺ "/" ⧺ or_default (lstrip (rstrip (sanitise false namespace))) ⧺ suffix
