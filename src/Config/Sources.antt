-- ===== src/Config/Sources.antt =====
-- src/eden/config/sources.py. A raw value is a scalar, a list or a table; a copy of one is itself.
-- `lower` is Python's `str.lower`. The TOML file's parser is another program.
pub mod Lookup
pub mod Precedence
use Prim.Native.Char.{code}
use eden_os.Prelude.{
  ℕ, String, Bool, true, false, Option, none, some, List, [], ◌∷◌, map, not, ◌&&◌, ◌||◌, ◌==◌, keep,
  if◌then◌else◌, str_eq,
}
use eden_os.Prelude.Order.{str_leb}
use eden_os.Prelude.Sorting.{sort}
use eden_os.Prelude.Text.{◌⧺◌}
use eden_os.Errors.{EdenError, configuration_error}
use eden_os.Effect.{Outcome, ok, eden, crash}

mutual
  pub data Raw : Type 0 where
    text : String → Raw
    flag : Bool → Raw
    int : ℕ → Raw
    float : String → Raw
    items : Items → Raw
    table : Table → Raw

  pub data Items : Type 0 where
    no_items : Items
    item : Raw → Items → Items

  pub data Table : Type 0 where
    no_entries : Table
    entry : String → Raw → Table → Table

-- `mapping.get(key)`
unfoldable pub get : String → Table → Option Raw
get k no_entries = none
get k (entry j v t) = if str_eq j k then some v else get k t

-- `mapping[key] = value`
unfoldable pub put : String → Raw → Table → Table
put k v no_entries = entry k v no_entries
put k v (entry j u t) = if str_eq j k then entry j v t else entry j u (put k v t)

unfoldable mutual
  -- The loop of `deep_merge` over the overlay's items.
  pub deep_merge : (base overlay : Table) → Table
  deep_merge base no_entries = base
  deep_merge base (entry k v rest) = deep_merge (put k (merge_value (get k base) v) base) rest

  -- What the key of a value of the overlay comes to hold.
  pub merge_value : (current : Option Raw) → Raw → Raw
  merge_value (some (table t)) (table u) = table (deep_merge t u)
  merge_value _ v = v

-- The loop of `ConfigLoader.merged`, from the lowest precedence to the highest.
unfoldable pub merge_all : (merged : Table) → List Table → Table
unfolding deep_merge
merge_all merged [] = merged
merge_all merged (t ∷ ts) = merge_all (deep_merge merged t) ts

-- `raw_key[len(prefix):]`, if the key starts with the prefix
unfoldable pub after_prefix : (prefix key : String) → Option String
after_prefix String.[] key = some key
after_prefix (String.◌∷◌ c p) String.[] = none
after_prefix (String.◌∷◌ c p) (String.◌∷◌ d k) =
    let rest = after_prefix p k in if code c == code d then rest else none

abbrev begin : String → List String → List String
begin head [] = head ∷ []
begin head (part ∷ parts) = (head ⧺ part) ∷ parts

-- `key.split("__")`
unfoldable pub split : String → List String
split String.[] = "" ∷ []
split (String.◌∷◌ c String.[]) = String.◌∷◌ c String.[] ∷ []
split (String.◌∷◌ c (String.◌∷◌ d s)) =
    let parts = "" ∷ split s in
    let longer = begin (String.◌∷◌ c String.[]) (split (String.◌∷◌ d s)) in
    if code c == 95 && code d == 95 then parts else longer

-- the comprehension of `EnvironmentSource.load`
unfoldable pub path_of : (lower : String → String) → String → List String
unfolding split
path_of lower key = map lower (keep (λ part. not (str_eq part "")) (split key))

abbrev pub conflict : EdenError
conflict = record {
  class = configuration_error;
  message = "Environment variable conflicts with an existing scalar key.";
}

abbrev pub nested : String → Table → Outcome Table → Outcome Table
nested k t (ok u) = ok (put k (table u) t)
nested k t (eden e) = eden e
nested k t (crash n m) = crash n m

-- Where `_assign` goes on from a key: in a new table or in the one that is there.
abbrev pub entered : Option Raw → Option Table
entered none = some no_entries
entered (some (table u)) = some u
entered _ = none

-- `EnvironmentSource._assign`; an empty path assigns nothing.
unfoldable pub assign : (path : List String) → (value : String) → Table → Outcome Table
assign [] value t = ok t
assign (k ∷ []) value t = ok (put k (text value) t)
assign (k ∷ j ∷ path) value t = elim (entered (get k t)) [
  | none ↦ eden conflict
  | some u ↦ nested k t (assign (j ∷ path) value u)
]

module _ (lower : String → String) (prefix : String) where
  abbrev pub assigned : Option String → String → Outcome Table → Outcome Table
  assigned none value t = t
  assigned (some key) value (ok t) = assign (path_of lower key) value t
  assigned (some key) value (eden e) = eden e
  assigned (some key) value (crash n m) = crash n m

  -- The loop of `EnvironmentSource.load`.
  unfoldable pub assign_all : List (String × String) → Outcome Table → Outcome Table
  assign_all [] t = t
  assign_all ((key, value) ∷ rest) t = assign_all rest (assigned (after_prefix prefix key) value t)

  -- `EnvironmentSource.load`
  unfoldable pub load : (environ : List (String × String)) → Outcome Table
  unfolding assign_all
  load environ = assign_all (sort (λ a b. str_leb a.0 b.0) environ) (ok no_entries)
