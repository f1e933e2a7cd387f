-- ===== src/CInterface/Handles.antt =====
-- Closing handles that share a box.
use dlopen_rs.Base.IndexMap.{get}
use dlopen_rs.Register.Last.{drop_dylib-IsLast, IsLast, IsGone}
use dlopen_rs.Step.{and_then}
use dlopen_rs.Register.Unload.{with_dylib}
use dlopen_rs.Error.{unwrap_none, ok, panicked}
use dlopen_rs.Register.Frame.{destroy-rule, drop_body-rule}
use dlopen_rs.CInterface.{
  unwrap_none, get, and_then, get_dylib, find_box, dlclose, CoreComponent, dropping, Deps, ok,
  release,
}
use dlopen_rs.Register.{get_dylib, GlobalDylib}
use dlopen_rs.Register.World.{World, drop_dylib}
use dlopen_rs.Loader.{CoreComponent, Deps, Dylib}
use dlopen_rs.Base.{subst, none, ◌∙◌, List, false, refl, some, ap, ◌≡◌, ℕ, ◌∷◌}
use dlopen_rs.Flags.{rtld_nodelete, contains, custom_not_register}

-- `addr` is the handle of a box of `core`, whose entry in the table is `lib`.
pub record IsOpen (addr : ℕ) (w : World) (lib : GlobalDylib) (b : Deps) (core : CoreComponent)
    : Type 0 where
  pub handle : find_box addr w.handles ≡ some b
  pub first : (rest : List CoreComponent) × (b.items ≡ core ∷ rest)
  pub listed : get core.shortname w.manager.all ≡ some lib
  pub same : lib.inner.shortname ≡ core.shortname

abbrev pub released : ℕ → World → World
released addr w = record w { handles = release addr w.handles }

drop_dylib-handles : (d : Dylib) (w : World) → (drop_dylib d w).1.handles ≡ w.handles
unfolding drop_dylib
drop_dylib-handles d w =
    let P = λ (w' : World). w'.handles ≡ w.handles in
    drop_body-rule d P (λ c w' h. h) (λ w' h. h) (λ w' h. h) (λ dep lib w' _ _ h. h)
      (with_dylib d w) refl
      (λ _.
        destroy-rule d P (λ c w' h. h) (λ w' h. h) (λ w' h. h) (λ dep lib w' _ _ h. h)
          (with_dylib d w) refl)

dropping-ok :
    {A : Type 0} (a : A) (d : Dylib) (w : World)
    → (drop_dylib d w).0 ≡ ok tt
    → dropping a d w ≡ (ok a, (drop_dylib d w).1)
dropping-ok a d w e = ap (λ r. and_then (r, (drop_dylib d w).1) (λ _ w'. (ok a, w'))) e

dlclose-unlisted :
    (addr : ℕ) (w : World) (b : Deps) (core : CoreComponent) (rest : List CoreComponent)
    → find_box addr w.handles ≡ some b
    → b.items ≡ core ∷ rest
    → get core.shortname w.manager.all ≡ none
    → (dlclose addr w).0 ≡ panicked unwrap_none
unfolding dlclose
dlclose-unlisted addr w b core rest e e' e'' = rw (e, dlclose, e', e'')

module _ (addr : ℕ) (w : World) (lib : GlobalDylib) (b : Deps) (core : CoreComponent)
    (o : IsOpen addr w lib b core) where
  dlclose-eq : dlclose addr w ≡ dropping 0 (get_dylib lib) (released addr w)
  unfolding dlclose
  dlclose-eq = let (rest, e) = o.first in rw (o.handle, dlclose, e, o.listed)

  module _ (keep : contains lib.flags rtld_nodelete ≡ false)
      (local : contains lib.flags custom_not_register ≡ false)
      (last : IsLast (get_dylib lib) (released addr w)) where
    gone :
        ((drop_dylib (get_dylib lib) (released addr w)).0 ≡ ok tt)
        × IsGone (get_dylib lib) (released addr w) (drop_dylib (get_dylib lib) (released addr w)).1
    gone =
        drop_dylib-IsLast (get_dylib lib) (released addr w) (unfold get_dylib in keep)
          (unfold get_dylib in local) last

    dlclose-result : dlclose addr w ≡ (ok 0, (drop_dylib (get_dylib lib) (released addr w)).1)
    dlclose-result = dlclose-eq ∙ dropping-ok 0 (get_dylib lib) (released addr w) gone.0

    -- Where the box of a handle is the only user of a library besides the tables, closing the
    -- handle returns 0 and unloads the library. (It is registered with neither RTLD_NODELETE nor
    -- CUSTOM_NOT_REGISTER.)
    pub dlclose-IsLast :
        ((dlclose addr w).0 ≡ ok 0) × IsGone (get_dylib lib) (released addr w) (dlclose addr w).1
    dlclose-IsLast = rw dlclose-result (refl, gone.1)

    -- Under the same conditions, if the same handle was handed out twice, closing it for the
    -- second time panics.
    pub dlclose-dlclose :
        find_box addr (release addr w.handles) ≡ some b
        → (dlclose addr (dlclose addr w).1).0 ≡ panicked unwrap_none
    dlclose-dlclose again =
        let (rest, e) = o.first in
        let w1 = (drop_dylib (get_dylib lib) (released addr w)).1 in
        let handles : w1.handles ≡ release addr w.handles =
          drop_dylib-handles (get_dylib lib) (released addr w) in
        let unlisted : get core.shortname w1.manager.all ≡ none =
          subst (λ k. get k w1.manager.all ≡ none) o.same (unfold get_dylib in gone.1.unlisted) in
        rw dlclose-result
          (dlclose-unlisted addr w1 b core rest (ap (find_box addr) handles ∙ again) e unlisted)
