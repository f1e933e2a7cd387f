-- ===== src/Register/Frame.antt =====
-- What dropping a `Dylib` leaves alone.
use dlopen_rs.Base.{
  ◌≡◌, ◌≢◌, refl, ap, sym, subst, ◌∙◌, true, false, some, inl, inr, Option-cases, Bool-cases, drop,
  ◌==◌, arith,
}
use dlopen_rs.Base.Text.{Text, text_eq_iff}
use dlopen_rs.Base.IndexMap.{IndexMap, get, shift_remove, get-shift_remove}
use dlopen_rs.Flags.{contains, rtld_global, rtld_nodelete, custom_not_register}
use dlopen_rs.Loader.{CoreComponent, Dylib}
use dlopen_rs.Register.{GlobalDylib}
use dlopen_rs.Register.World.{
  World, strong_count, threshold, call_fini, remove_all, remove_global, unlist, drop_others,
  destroy, drop_body, drop_dylib,
}
use dlopen_rs.Register.Unload.{with_dylib, drop_deps-rule}
use dlopen_rs.Register.Last.{destroy-boxed}

pub get-shift_remove_ne :
    {V : Type 0} (k j : Text) (m : IndexMap V) → j ≢ k → get j (shift_remove k m) ≡ get j m
get-shift_remove_ne k j m h = get-shift_remove k j m ∙ ground (arith, text_eq_iff k j)

module _ {ℓ} (d : Dylib) (P : World → Type ℓ)
    (keep_fini : (c : CoreComponent) (w : World) → P w → P (call_fini c w))
    (keep_all : (w : World) → P w → P (remove_all d.inner.shortname w))
    (keep_global : (w : World) → P w → P (remove_global d.inner.shortname w))
    (keep_dep : (dep : CoreComponent) (lib : GlobalDylib) (w : World)
      → get dep.shortname w.manager.all ≡ some lib
      → contains lib.flags rtld_nodelete ≡ false
      → P w
      → P (remove_all dep.shortname w)) where
  unlist-rule : (w : World) → P w → P (unlist d w)
  unlist-rule w h = elim (Bool-cases (contains d.flags rtld_global)) [
    | inl t ↦ rw t (keep_global _ (keep_all _ (keep_fini d.inner w h)))
    | inr t ↦ rw t (keep_all _ (keep_fini d.inner w h))
  ]

  pub destroy-rule : (w : World) → P w → P (destroy d w).1
  unfolding destroy
  destroy-rule w h = elim (Option-cases d.deps) [
    | inl e ↦ subst (λ o. P (drop_others d o (unlist d w)).1) (sym e) (unlist-rule w h)
    | inr (b, e) ↦ rw (destroy-boxed d w b e) (
        drop_deps-rule d.inner P
          (λ dep lib w' found flag h'.
            keep_global _ (keep_dep dep lib (call_fini dep w') found flag (keep_fini dep w' h')))
          (drop 1 b.items) (unlist d w) (unlist-rule w h))
  ]

  -- the rule for the whole body
  pub drop_body-rule :
      (w : World)
      → P w
      → (contains d.flags rtld_nodelete ≡ false → P (destroy d w).1)
      → P (drop_body d w).1
  unfolding drop_body
  drop_body-rule w h next = elim (Bool-cases (contains d.flags rtld_nodelete)) [
    | inl t ↦ rw t h
    | inr t ↦ elim (Bool-cases (contains d.flags custom_not_register)) [
      | inl c ↦ rw (t, c) (keep_fini d.inner w h)
      | inr c ↦ elim (Bool-cases (strong_count w d.inner == threshold d.deps d.flags)) [
        | inl s ↦ rw (t, c, s) (next t)
        | inr s ↦ rw (t, c, s) h
      ]
    ]
  ]

-- Dropping a `Dylib` takes no other name out of the global table. This holds for the
-- dependencies, too, which it unloads.
pub drop_dylib-global :
    (d : Dylib) (w : World) (j : Text)
    → j ≢ d.inner.shortname
    → get j (drop_dylib d w).1.manager.global ≡ get j w.manager.global
unfolding drop_dylib
drop_dylib-global d w j other =
    let P = λ (w' : World). get j w'.manager.global ≡ get j w.manager.global in
    let gone = λ (w' : World) (h : P w').
      get-shift_remove_ne d.inner.shortname j w'.manager.global other ∙ h in
    drop_body-rule d P (λ c w' h. h) (λ w' h. h) gone (λ dep lib w' _ _ h. h) (with_dylib d w) refl
      (λ _.
        destroy-rule d P (λ c w' h. h) (λ w' h. h) gone (λ dep lib w' _ _ h. h) (with_dylib d w)
          refl)

spared :
    (k j : Text) (lib l : GlobalDylib) (m : IndexMap GlobalDylib)
    → get k m ≡ some l
    → contains l.flags rtld_nodelete ≡ false
    → get j m ≡ some lib
    → contains lib.flags rtld_nodelete ≡ true
    → get j (shift_remove k m) ≡ some lib
spared k j lib l m e f h flag = get-shift_remove_ne k j m (λ same. cc (ap (λ t. get t m) same)) ∙ h

-- A library that is registered with RTLD_NODELETE stays registered when a `Dylib` is dropped, as
-- a dependency of the library of `d` too, and as that library if `d` has the flag as well.
pub drop_dylib-nodelete :
    (d : Dylib) (w : World) (j : Text) (lib : GlobalDylib)
    → get j w.manager.all ≡ some lib
    → contains lib.flags rtld_nodelete ≡ true
    → (j ≡ d.inner.shortname → contains d.flags rtld_nodelete ≡ true)
    → get j (drop_dylib d w).1.manager.all ≡ some lib
unfolding drop_dylib drop_body
drop_dylib-nodelete d w j lib found flag own = elim (Bool-cases (contains d.flags rtld_nodelete)) [
  | inl t ↦ rw t found
  | inr t ↦
      let P = λ (w' : World). get j w'.manager.all ≡ some lib in
      let other : j ≢ d.inner.shortname = λ e. cc (own e) in
      let gone = λ (w' : World) (h : P w').
        get-shift_remove_ne d.inner.shortname j w'.manager.all other ∙ h in
      let spare =
        λ (dep : CoreComponent) (l : GlobalDylib) (w' : World)
            (e : get dep.shortname w'.manager.all ≡ some l)
            (f : contains l.flags rtld_nodelete ≡ false) (h : P w').
          spared dep.shortname j lib l w'.manager.all e f h flag in
      drop_body-rule d P (λ c w' h. h) gone (λ w' h. h) spare (with_dylib d w) found
        (λ _. destroy-rule d P (λ c w' h. h) gone (λ w' h. h) spare (with_dylib d w) found)
]
