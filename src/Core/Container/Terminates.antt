-- ===== src/Core/Container/Terminates.antt =====
-- A resolution ends, whatever the bindings are.
use eden_os.Prelude.{
  ℕ, zero, suc, ◌≤◌, ◌<◌, String, Bool, false, not, Option, none, some, List, [], ◌∷◌, ◌≡◌, refl,
  ap, ◌∙◌, inl, inr, arith, length, keep, if◌then◌else◌, str_eq, eq_iff, Bool-cases, Option-cases,
}
use eden_os.Prelude.Dict
use eden_os.Prelude.Dict.{Dict, get-put}
use eden_os.Prelude.Text.{contains}
use eden_os.Effect.{Outcome, ok, eden, crash}
use eden_os.Core.Container.{
  Factory, finish, ask, Binding, Container, cached, cached_in, push, pop, run, store, made, resolve,
  is_singleton, tail, wrapped, and_then,
}

-- The names in `ks` that are not being resolved.
abbrev waiting : (resolving ks : List String) → ℕ
waiting resolving ks = length (keep (λ k. not (contains resolving k)) ks)

waiting-push_le :
    (key : String) (resolving ks : List String)
    → waiting (key ∷ resolving) ks ≤ waiting resolving ks
unfolding contains
waiting-push_le key resolving [] = omega arith
waiting-push_le key resolving (k ∷ ks) = ground (arith, waiting-push_le key resolving ks)

module _ {T : Type 0} where
  abbrev pub free : Container T → ℕ
  free c = waiting c.resolving (Dict.keys c.bindings)

  -- A container with the same keys and the same stack, and every instance that was there.
  pub record Extends (c c' : Container T) : Type 0 where
    pub keys : Dict.keys c'.bindings ≡ Dict.keys c.bindings
    pub resolving : c'.resolving ≡ c.resolving
    pub keeps : (k : String) (v : T) → cached k c ≡ some v → cached k c' ≡ some v

  pub Extends-refl : (c : Container T) → Extends c c
  Extends-refl c = record { keys = refl; resolving = refl; keeps = λ k v h. h }

  pub Extends-trans : (a b c : Container T) → Extends a b → Extends b c → Extends a c
  Extends-trans a b c f g = record {
    keys = g.keys ∙ f.keys;
    resolving = g.resolving ∙ f.resolving;
    keeps = λ k v h. g.keeps k v (f.keeps k v h);
  }

  free-Extends : (c c' : Container T) → Extends c c' → free c' ≡ free c
  free-Extends c c' e =
      ap (λ r. waiting r (Dict.keys c'.bindings)) e.resolving ∙ ap (waiting c.resolving) e.keys

  -- To begin a bound name leaves one fewer.
  waiting-push :
      (key : String) (resolving : List String) (d : Dict (Binding T)) (b : Binding T)
      → Dict.get key d ≡ some b
      → contains resolving key ≡ false
      → waiting (key ∷ resolving) (Dict.keys d) < waiting resolving (Dict.keys d)
  unfolding Dict.get contains
  waiting-push key resolving [] b h g = cc
  waiting-push key resolving ((j, w) ∷ d) b h g = elim (Bool-cases (str_eq j key)) [
    | inl e ↦
        let same : j ≡ key = ground (arith, eq_iff j key) in
        let le = waiting-push_le key resolving (Dict.keys d) in
        ground (arith, same, le, eq_iff key j)
    | inr e ↦
        let later = waiting-push key resolving d b (rw e at h) g in
        ground (arith, later, eq_iff key j, eq_iff j key)
  ]

  keys-put :
      (key : String) (d : Dict (Binding T)) (b w : Binding T)
      → Dict.get key d ≡ some b
      → Dict.keys (Dict.put key w d) ≡ Dict.keys d
  unfolding Dict.get Dict.put
  keys-put key [] b w h = cc
  keys-put key ((j, x) ∷ d) b w h = elim (Bool-cases (str_eq j key)) [
    | inl e ↦ rw e refl
    | inr e ↦ rw e (ap (λ l. j ∷ l) (keys-put key d b w (rw e at h)))
  ]

  has_same_keys :
      (key : String) (d d' : Dict (Binding T)) (b : Binding T)
      → Dict.keys d' ≡ Dict.keys d
      → Dict.get key d ≡ some b
      → (b' : Binding T) × (Dict.get key d' ≡ some b')
  unfolding Dict.get
  has_same_keys key [] d' b same h = cc
  has_same_keys key ((j, x) ∷ d) [] b same h = cc
  has_same_keys key ((j, x) ∷ d) ((i, y) ∷ d') b same h =
      let head : i ≡ j = ground arith in
      let rest : Dict.keys d' ≡ Dict.keys d = ground arith in
      elim (Bool-cases (str_eq j key)) [
        | inl e ↦ (y, rw (head, e) refl)
        | inr e ↦ let (b', at) = has_same_keys key d d' b rest (rw e at h) in (b', rw (head, e) at)
      ]

  -- To keep an instance that was not there.
  put-keeps :
      (key : String) (w : Binding T) (c c' : Container T)
      → cached key c ≡ none
      → ((k : String) (v : T) → cached k c ≡ some v → cached k c' ≡ some v)
      → (k : String) (v : T) → cached k c ≡ some v
      → cached_in (Dict.get k (Dict.put key w c'.bindings)) ≡ some v
  put-keeps key w c c' missing keeps k v h = elim (Bool-cases (str_eq key k)) [
    | inl e ↦
        let same : key ≡ k = ground (arith, eq_iff key k) in
        absurd (ground (arith, ap (λ n. cached n c) same, missing, h))
    | inr e ↦
        let passed : Dict.get k (Dict.put key w c'.bindings) ≡ Dict.get k c'.bindings =
          ground (arith, get-put key k w c'.bindings) in
        ap cached_in passed ∙ keeps k v h
  ]

  module _ (is_none : T → Bool) where
    store-Extends :
        (key : String) (b : Binding T) (o : Outcome T) (c c' : Container T)
        → Dict.get key c.bindings ≡ some b
        → cached key c ≡ none
        → Extends c c'
        → Extends c (store is_none key b o c')
    store-Extends key b (eden e) c c' at missing ext = ext
    store-Extends key b (crash t m) c c' at missing ext = ext
    store-Extends key b (ok v) c c' at missing ext = elim (Bool-cases (is_singleton b.scope)) [
      | inr e ↦ rw e ext
      | inl e ↦
          let w : Binding T = record b { instance_ = if is_none v then none else some v } in
          let (b', there) = has_same_keys key c.bindings c'.bindings b ext.keys at in
          rw e (record {
            keys = keys-put key c'.bindings b' w there ∙ ext.keys;
            resolving = ext.resolving;
            keeps = put-keeps key w c c' missing ext.keeps;
          })
    ]

    -- A resolution that ends, in a container that extends the one before.
    abbrev pub Ends : Option (Outcome T × Container T) → Container T → Type 0
    Ends result c = (r : Outcome T × Container T) × (result ≡ some r) × Extends c r.1

    run-ask :
        (resolve : String → Container T → Option (Outcome T × Container T)) (key : String)
        (next : Outcome T → Factory T) (c : Container T) (r : Outcome T × Container T)
        → resolve key c ≡ some r
        → run resolve (ask key next) c ≡ run resolve (next r.0) r.1
    unfolding run
    run-ask resolve key next c r h = ap (λ o. and_then o (λ r. run resolve (next r.0) r.1)) h

    run-Ends :
        (depth : ℕ)
        → ((key : String) (c : Container T) → free c < depth → Ends (resolve is_none depth key c) c)
        → (f : Factory T) (c : Container T) → free c < depth
        → Ends (run (resolve is_none depth) f c) c
    unfolding run
    run-Ends depth each (finish o) c h = ((o, c), refl, Extends-refl c)
    run-Ends depth each (ask key next) c h =
        let (r, e, ext) = each key c h in
        let (r', e', ext') =
          run-Ends depth each (next r.0) r.1 (omega (arith, h, free-Extends c r.1 ext)) in
        (r', run-ask (resolve is_none depth) key next c r e ∙ e', Extends-trans c r.1 r'.1 ext ext')

    made-Ends :
        (depth : ℕ) (key : String) (b : Binding T) (c : Container T)
        → ((key : String) (c : Container T) → free c < depth → Ends (resolve is_none depth key c) c)
        → Dict.get key c.bindings ≡ some b
        → cached key c ≡ none
        → contains c.resolving key ≡ false
        → free c < suc depth
        → Ends (made is_none key b (run (resolve is_none depth) b.factory (push key c))) c
    made-Ends depth key b c each at missing fresh h =
        let fewer = waiting-push key c.resolving c.bindings b at fresh in
        let (r, e, ext) = run-Ends depth each b.factory (push key c) (omega (arith, fewer, h)) in
        let back : Extends c (pop r.1) = record {
          keys = ext.keys;
          resolving = ap tail ext.resolving;
          keeps = ext.keeps;
        } in
        (
          (wrapped r.0, store is_none key b r.0 (pop r.1)),
          rw e refl,
          store-Extends key b r.0 c (pop r.1) at missing back,
        )

    resolve-Ends_if_free :
        (depth : ℕ) (key : String) (c : Container T)
        → free c < depth
        → Ends (resolve is_none depth key c) c
    unfolding resolve
    resolve-Ends_if_free zero key c h = absurd (omega arith)
    resolve-Ends_if_free (suc depth) key c h = elim (Option-cases (Dict.get key c.bindings)) [
      | inl e ↦ rw e (_, refl, Extends-refl c)
      | inr (b, e) ↦ elim (Option-cases (cached_in (some b))) [
        | inr (v, at) ↦ rw (e, at) (_, refl, Extends-refl c)
        | inl none_yet ↦ elim (Bool-cases (contains c.resolving key)) [
          | inl open_ ↦ rw (e, none_yet, open_) (_, refl, Extends-refl c)
          | inr fresh ↦
              let missing = ap cached_in e ∙ none_yet in
              rw (e, none_yet, fresh)
                (made-Ends depth key b c (resolve-Ends_if_free depth) e missing fresh h)
        ]
      ]
    ]

    -- Every resolution ends, whatever the factories resolve in turn and whatever cycles there are:
    -- a depth of one more than the number of bindings is enough, since a name that is being
    -- resolved is not begun again. It leaves the same bindings with every instance that was made
    -- before, and the stack as it was, also when it raises.
    pub resolve-Ends :
        (key : String) (c : Container T) → Ends (resolve is_none (suc (length c.bindings)) key c) c
    resolve-Ends key c =
        resolve-Ends_if_free (suc (length c.bindings)) key c (few c.resolving c.bindings)
      where
        few :
            (resolving : List String) (d : Dict (Binding T))
            → waiting resolving (Dict.keys d) < suc (length d)
        few resolving [] = omega arith
        few resolving (e ∷ d) = ground (arith, few resolving d)
