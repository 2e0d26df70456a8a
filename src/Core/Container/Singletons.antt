-- ===== src/Core/Container/Singletons.antt =====
-- A singleton is built once.
use eden_os.Prelude.{
  suc, String, Bool, false, Option, none, some, List, [], ◌∷◌, ◌≡◌, sym, ap, subst, ◌∙◌, inl, inr,
  arith, length, eq_iff, Bool-cases, Option-cases,
}
use eden_os.Prelude.Dict
use eden_os.Prelude.Dict.{get-put}
use eden_os.Prelude.Text.{contains}
use eden_os.Effect.{Outcome, ok, eden, crash}
use eden_os.Core.Container.{
  Binding, Container, singleton, cached, cached_in, push, pop, run, store, made, found, resolve,
  wrapped,
}
use eden_os.Core.Container.Terminates.{Extends, Extends-trans, Extends-refl, resolve-Ends}

module _ {T : Type 0} (is_none : T → Bool) where
  -- The container after a resolution, and after several; the depth is the one that is enough.
  abbrev pub enough : (key : String) → Container T → Option (Outcome T × Container T)
  enough key c = resolve is_none (suc (length c.bindings)) key c

  abbrev left : Option (Outcome T × Container T) → Container T → Container T
  left none c = c
  left (some r) c = r.1

  abbrev pub resolve_all : List String → Container T → Container T
  resolve_all [] c = c
  resolve_all (k ∷ ks) c = resolve_all ks (left (enough k c) c)

  resolve_all-Extends : (ks : List String) (c : Container T) → Extends c (resolve_all ks c)
  resolve_all-Extends [] c = Extends-refl c
  resolve_all-Extends (k ∷ ks) c =
      let (r, e, ext) = resolve-Ends is_none k c in
      let same : r.1 ≡ left (enough k c) c = ap (λ o. left o c) (sym e) in
      subst (λ d. Extends c (resolve_all ks d)) same
        (Extends-trans c r.1 (resolve_all ks r.1) ext (resolve_all-Extends ks r.1))

  store-cached :
      (key : String) (b : Binding T) (v : T) (c : Container T)
      → b.scope ≡ singleton
      → is_none v ≡ false
      → cached key (store is_none key b (ok v) c) ≡ some v
  store-cached key b v c once there =
      let w : Binding T = record b { scope = singleton; instance_ = some v } in
      let stored : Dict.get key (Dict.put key w c.bindings) ≡ some w =
        ground (arith, get-put key key w c.bindings, eq_iff key key) in
      rw (once, there) (ap cached_in stored)

  unwrapped : (o : Outcome T) (v : T) → wrapped o ≡ ok v → o ≡ ok v
  unwrapped (ok w) v h = h
  unwrapped (eden e) v h = ground arith
  unwrapped (crash t m) v h = cc

  made-cached :
      (key : String) (b : Binding T) (o : Option (Outcome T × Container T)) (v : T)
      (c' : Container T)
      → b.scope ≡ singleton
      → is_none v ≡ false
      → made is_none key b o ≡ some (ok v, c')
      → cached key c' ≡ some v
  made-cached key b none v c' once there h = cc
  made-cached key b (some r) v c' once there h =
      let result : wrapped r.0 ≡ ok v = cc in
      let after : store is_none key b r.0 (pop r.1) ≡ c' = cc in
      let made_it = unwrapped r.0 v result in
      subst (λ d. cached key d ≡ some v)
        (ap (λ o. store is_none key b o (pop r.1)) (sym made_it) ∙ after)
        (store-cached key b v (pop r.1) once there)

  step :
      (res : String → Container T → Option (Outcome T × Container T)) (key : String) (b : Binding T)
      (c : Container T) (i : Option T)
      → Dict.get key c.bindings ≡ some b
      → cached key c ≡ i
      → found is_none res key (Dict.get key c.bindings) (cached key c) c
        ≡ found is_none res key (some b) i c
  step res key b c i at e =
      ap (λ o. found is_none res key o (cached key c) c) at
      ∙ ap (λ o. found is_none res key (some b) o c) e

  found-cached :
      (res : String → Container T → Option (Outcome T × Container T)) (key : String) (b : Binding T)
      (c c' : Container T) (v : T)
      → Dict.get key c.bindings ≡ some b
      → b.scope ≡ singleton
      → is_none v ≡ false
      → found is_none res key (Dict.get key c.bindings) (cached key c) c ≡ some (ok v, c')
      → cached key c' ≡ some v
  found-cached res key b c c' v at once there h = elim (Option-cases (cached key c)) [
    | inr (w, e) ↦
        let got : found is_none res key (some b) (some w) c ≡ some (ok v, c') =
          sym (step res key b c (some w) at e) ∙ h in
        let value : w ≡ v = cc in
        let same : c ≡ c' = cc in subst (λ d. cached key d ≡ some v) same (e ∙ ap some value)
    | inl e ↦
        let got : found is_none res key (some b) none c ≡ some (ok v, c') =
          sym (step res key b c none at e) ∙ h in
        elim (Bool-cases (contains c.resolving key)) [
          | inl busy ↦ absurd (ground arith)
          | inr fresh ↦
              made-cached key b (run res b.factory (push key c)) v c' once there (rw fresh at got)
        ]
  ]

  again :
      (key : String) (c : Container T) (v : T) (b : Binding T)
      → Dict.get key c.bindings ≡ some b
      → cached key c ≡ some v
      → enough key c ≡ some (ok v, c)
  unfolding resolve
  again key c v b at there = step (resolve is_none (length c.bindings)) key b c (some v) at there

  bound :
      (key : String) (c : Container T) (v : T)
      → cached key c ≡ some v
      → (b : Binding T) × (Dict.get key c.bindings ≡ some b)
  bound key c v h = elim (Option-cases (Dict.get key c.bindings)) [
    | inl e ↦ absurd (ground (arith, ap cached_in e, h))
    | inr (b, e) ↦ (b, e)
  ]

  -- A singleton is built once. If a resolution of its name returns an instance other than `None`,
  -- then after any further resolutions, of any names, the name still resolves to that instance,
  -- and to resolve it changes nothing.
  pub singleton_stays :
      (key : String) (b : Binding T) (c c' : Container T) (v : T) (ks : List String)
      → Dict.get key c.bindings ≡ some b
      → b.scope ≡ singleton
      → is_none v ≡ false
      → enough key c ≡ some (ok v, c')
      → let last = resolve_all ks c' in enough key last ≡ some (ok v, last)
  unfolding resolve
  singleton_stays key b c c' v ks at once there h =
      let last = resolve_all ks c' in
      let first = found-cached (resolve is_none (length c.bindings)) key b c c' v at once there h in
      let still = (resolve_all-Extends ks c').keeps key v first in
      let (b', at') = bound key last v still in again key last v b' at' still
