-- ===== src/CInterface/Symbols.antt =====
-- A handle that `dlopen` gives out, and `dlsym` on it.
use dlopen_rs.Step.{and_then}
use dlopen_rs.CInterface.{
  and_then, find_symbol, or_null, rtld_next, rtld_default, ok, Text, GlobalDylib, dlsym, hand_out,
}
use dlopen_rs.Register.Unload.{
  exported-count, self-eq, strong_count-with_dylib, Agree, test-gt, count-add_box, with_dylib,
}
use dlopen_rs.Base.{
  refl, ap, inr, inl, Bool-cases, false, true, some, ◌≡◌, [], arith, ◌==◌, List, Option, none, ◌∷◌,
  ◌≤◌,
}
use dlopen_rs.Error.{ok}
use dlopen_rs.Base.Text.{Text}
use dlopen_rs.Register.{GlobalDylib}
use dlopen_rs.Base.IndexMap.{values, IndexMap}
use dlopen_rs.Loader.{find_symbol, get_symbol, Deps, Dylib, CoreComponent}
use dlopen_rs.Flags.{rtld_nodelete, contains, custom_not_register, rtld_global}
use dlopen_rs.Register.World.{
  has_box, threshold, entry_cores, drop_body, count_boxes, strong_count, count_core, drop_dylib,
  live_boxes, World, add_box, handle_boxes, entry_boxes, dylib_boxes,
}

count-add_box_le :
    (core : CoreComponent) (x : Option Deps) (bs : List Deps)
    → count_boxes core bs ≤ count_boxes core (add_box x bs)
count-add_box_le core none bs = omega arith
count-add_box_le core (some b) bs = elim (Bool-cases (has_box b bs)) [
  | inl e ↦ rw e (omega arith)
  | inr e ↦ rw e (omega arith)
]

count-entry_boxes :
    (core : CoreComponent) (m : IndexMap GlobalDylib) (bs : List Deps)
    → count_boxes core bs ≤ count_boxes core (entry_boxes m bs)
count-entry_boxes core [] bs = omega arith
count-entry_boxes core ((k, lib) ∷ m) bs =
    omega (arith, count-entry_boxes core m bs, count-add_box_le core lib.deps (entry_boxes m bs))

count-dylib_boxes :
    (core : CoreComponent) (ds : List Dylib) (bs : List Deps)
    → count_boxes core bs ≤ count_boxes core (dylib_boxes ds bs)
count-dylib_boxes core [] bs = omega arith
count-dylib_boxes core (d ∷ ds) bs =
    omega (arith, count-dylib_boxes core ds bs, count-add_box_le core d.deps (dylib_boxes ds bs))

abbrev pub given : Deps → World → World
given b w = record w { handles = b ∷ w.handles }

-- `lib` is in the tables as its flags say, and in its box.
pub record IsListed (lib : Dylib) (b : Deps) (w : World) : Type 0 where
  pub listed : 1 ≤ count_core lib.inner (entry_cores w.manager.all)
  pub exported :
      contains lib.flags rtld_global ≡ true → 1 ≤ count_core lib.inner (values w.manager.global)
  pub boxed : lib.deps ≡ some b
  pub inside : 1 ≤ count_core lib.inner b.items
  pub agree : Agree b (handle_boxes w.handles)

module _ (lib : Dylib) (b : Deps) (w : World) (l : IsListed lib b w) where
  abbrev emptied : Dylib
  emptied = record lib { deps = none }

  boxes-given : 1 ≤ count_boxes lib.inner (live_boxes (with_dylib emptied (given b w)))
  unfolding live_boxes
  boxes-given =
      let kept = handle_boxes w.handles in
      omega (
        arith,
        l.inside,
        count-add_box lib.inner b kept l.agree,
        count-entry_boxes lib.inner w.manager.all (add_box (some b) kept),
        count-dylib_boxes lib.inner w.dylibs (entry_boxes w.manager.all (add_box (some b) kept)),
      )

  above :
      (strong_count (with_dylib emptied (given b w)) lib.inner == threshold none lib.flags) ≡ false
  above =
      test-gt (threshold none lib.flags) (strong_count (with_dylib emptied (given b w)) lib.inner) (
        omega (
          arith,
          strong_count-with_dylib emptied (given b w),
          boxes-given,
          exported-count (contains lib.flags rtld_global) _ l.exported,
          l.listed,
        ))

  dropped :
      contains lib.flags custom_not_register ≡ false
      → drop_dylib emptied (given b w) ≡ (ok tt, given b w)
  unfolding drop_dylib drop_body
  dropped local = elim (Bool-cases (contains lib.flags rtld_nodelete)) [
    | inl t ↦ rw t
    | inr t ↦ rw (t, local, above)
  ]

  hand_out-eq :
      contains lib.flags custom_not_register ≡ false → hand_out lib w ≡ (ok b.addr, given b w)
  unfolding hand_out
  hand_out-eq local =
      rw (l.boxed, hand_out) (ap (λ out. and_then out (λ _ w'. (ok b.addr, w'))) (dropped local))

  get_symbol-boxed : (name : Text) → get_symbol lib name ≡ find_symbol b.items name
  unfolding get_symbol
  get_symbol-boxed name = rw (l.boxed, get_symbol)

  -- The C `dlopen` turns a registered `Dylib` into a handle of its box and unloads nothing, and
  -- `dlsym` on that handle finds what `Dylib::get` finds, or null. (It was not opened with
  -- CUSTOM_NOT_REGISTER, and the address of the box is neither RTLD_DEFAULT nor RTLD_NEXT.)
  pub dlsym-hand_out :
      (name : Text)
      → contains lib.flags custom_not_register ≡ false
      → (b.addr == rtld_default) ≡ false
      → (b.addr == rtld_next) ≡ false
      → (hand_out lib w ≡ (ok b.addr, given b w))
        × (dlsym b.addr name (hand_out lib w).1 ≡ or_null (get_symbol lib name))
  unfolding dlsym
  dlsym-hand_out name local n1 n2 =
      rw (hand_out-eq local, get_symbol-boxed name, n1, n2, self-eq b.addr, dlsym) (refl, refl)
