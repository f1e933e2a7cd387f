-- ===== src/Register/Last.antt =====
-- What goes when the last `Dylib` of a library is dropped, and what never goes.
use dlopen_rs.Register.{GlobalDylib}
use dlopen_rs.Base.{
  ◌∷◌, [], ◌++◌, ◌≡◌, refl, ap, ◌∙◌, true, false, List, none, some, inl, inr, Bool-cases, is_some,
  to_nat, drop, ◌==◌, arith,
}
use dlopen_rs.Base.Text.{text_eq_iff, text_eq, Text, text_eq_refl}
use dlopen_rs.Base.IndexMap.{IndexMap, get, shift_remove, values, get-shift_remove}
use dlopen_rs.Error.{ok}
use dlopen_rs.Flags.{contains, rtld_global, rtld_nodelete, custom_not_register}
use dlopen_rs.Loader.{CoreComponent, Deps, Dylib}
use dlopen_rs.Register.World.{
  World, count_core, entry_cores, dylib_cores, live_boxes, count_boxes, strong_count, threshold,
  unlist, drop_deps, drop_others, destroy, drop_body, drop_dylib,
}
use dlopen_rs.Register.Unload.{with_dylib, strong_count-with_dylib, drop_deps-rule, self-eq}

-- `d` is the only user of its library: the handles are those of the manager, of `d` and of the box.
pub record IsLast (d : Dylib) (w : World) : Type 0 where
  pub others : count_core d.inner (dylib_cores w.dylibs) ≡ 0
  pub listed : count_core d.inner (entry_cores w.manager.all) ≡ 1
  pub exported :
      count_core d.inner (values w.manager.global) ≡ to_nat (contains d.flags rtld_global)
  pub boxed : count_boxes d.inner (live_boxes (with_dylib d w)) ≡ 1
  pub box : (b : Deps) × (d.deps ≡ some b)

-- None of the libraries has this short name.
abbrev pub AllOthers : Text → List CoreComponent → Type 0
AllOthers name [] = Unit {0}
AllOthers name (core ∷ cores) = (text_eq name core.shortname ≡ false) × AllOthers name cores

-- The library of `d` is registered nowhere, and its fini function has run once: after what ran
-- before, and before those of dependencies, which have other short names.
pub record IsGone (d : Dylib) (w w' : World) : Type 0 where
  pub unlisted : get d.inner.shortname w'.manager.all ≡ none
  pub unexported :
      contains d.flags rtld_global ≡ true → get d.inner.shortname w'.manager.global ≡ none
  pub finished :
      (later : List CoreComponent) × (w'.finis ≡ later ++ d.inner ∷ w.finis)
      × AllOthers d.inner.shortname later

get-removed : {V : Type 0} (k : Text) (m : IndexMap V) → get k (shift_remove k m) ≡ none
get-removed k m = get-shift_remove k k m ∙ rw (text_eq_refl k)

get-still_none :
    {V : Type 0} (k j : Text) (m : IndexMap V) → get k m ≡ none → get k (shift_remove j m) ≡ none
get-still_none k j m h = get-shift_remove j k m ∙ ground (arith, h)

-- A library that is registered has another short name than one that is not.
listed_other :
    (d : Dylib) (dep : CoreComponent) (w : World) (lib : GlobalDylib)
    → get dep.shortname w.manager.all ≡ some lib
    → get d.inner.shortname w.manager.all ≡ none
    → text_eq d.inner.shortname dep.shortname ≡ false
listed_other d dep w lib here gone = elim (Bool-cases (text_eq d.inner.shortname dep.shortname)) [
  | inr other ↦ other
  | inl same ↦
      let one : d.inner.shortname ≡ dep.shortname =
        (text_eq_iff d.inner.shortname dep.shortname).0 same in
      cc (here, gone, one)
]

IsGone-drop_deps :
    (d : Dylib) (w : World) (deps : List CoreComponent) (w' : World)
    → IsGone d w w'
    → IsGone d w (drop_deps d.inner deps w')
IsGone-drop_deps d w deps w' h =
    drop_deps-rule d.inner (IsGone d w)
      (λ dep lib w1 here _ g. record {
        unlisted = get-still_none d.inner.shortname dep.shortname w1.manager.all g.unlisted;
        unexported = λ f.
            get-still_none d.inner.shortname d.inner.shortname w1.manager.global (g.unexported f);
        finished =
            let (later, ran, others) = g.finished in
            (dep ∷ later, ap (◌∷◌ dep) ran, (listed_other d dep w1 lib here g.unlisted, others));
      })
      deps w' h

threshold-last :
    (d : Dylib) (w : World)
    → IsLast d w
    → (strong_count (with_dylib d w) d.inner == threshold d.deps d.flags) ≡ true
threshold-last d w l =
    let (b, boxed) = l.box in
    let same : strong_count (with_dylib d w) d.inner ≡ threshold d.deps d.flags = omega (
      arith,
      ap (λ o. to_nat (is_some o)) boxed,
      strong_count-with_dylib d w,
      l.others,
      l.listed,
      l.exported,
      l.boxed,
    ) in
    rw same (self-eq _)

IsGone-unlist : (d : Dylib) (w : World) → IsGone d w (unlist d w)
IsGone-unlist d w = elim (Bool-cases (contains d.flags rtld_global)) [
  | inl g ↦ rw g (record {
    unlisted = get-removed d.inner.shortname w.manager.all;
    unexported = λ _. get-removed d.inner.shortname w.manager.global;
    finished = ([], refl, tt);
  })
  | inr g ↦ rw g (record {
    unlisted = get-removed d.inner.shortname w.manager.all;
    unexported = λ f. cc;
    finished = ([], refl, tt);
  })
]

pub destroy-boxed :
    (d : Dylib) (w : World) (b : Deps)
    → d.deps ≡ some b
    → destroy d w ≡ (ok tt, drop_deps d.inner (drop 1 b.items) (unlist d w))
unfolding destroy
destroy-boxed d w b boxed = ap (λ o. drop_others d o (unlist d w)) boxed

destroy-IsGone :
    (d : Dylib) (w : World) (b : Deps)
    → d.deps ≡ some b
    → ((destroy d w).0 ≡ ok tt) × IsGone d w (destroy d w).1
destroy-IsGone d w b boxed =
    rw (destroy-boxed d w b boxed)
      (refl, IsGone-drop_deps d w (drop 1 b.items) (unlist d w) (IsGone-unlist d w))

-- When the only user of a library goes out of scope, the drop succeeds, the library is in neither
-- table afterwards, and its fini function has run once: the record of the calls is that of
-- before, the library, and then libraries with other short names. (It was opened with neither
-- RTLD_NODELETE nor CUSTOM_NOT_REGISTER.)
pub drop_dylib-IsLast :
    (d : Dylib) (w : World)
    → contains d.flags rtld_nodelete ≡ false
    → contains d.flags custom_not_register ≡ false
    → IsLast d w
    → ((drop_dylib d w).0 ≡ ok tt) × IsGone d w (drop_dylib d w).1
unfolding drop_dylib drop_body
drop_dylib-IsLast d w keep local l =
    let (b, boxed) = l.box in
    let (ends, gone) = destroy-IsGone d (with_dylib d w) b boxed in
    rw (keep, local, threshold-last d w l)
      (
        ends,
        record { unlisted = gone.unlisted; unexported = gone.unexported; finished = gone.finished },
      )
