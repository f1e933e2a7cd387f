-- ===== src/Register/Unload.antt =====
-- When dropping a `Dylib` unloads libraries, and which.
use dlopen_rs.Base.{
  ℕ, ◌+◌, ◌≤◌, ◌<◌, ◌≡◌, ◌⊎◌, refl, ap, Bool, true, false, List, [], ◌∷◌, none, some, inl, inr,
  Option-cases, Bool-cases, is_some, to_nat, ◌==◌, arith,
}
use dlopen_rs.Base.IndexMap.{get, values}
use dlopen_rs.Error.{ok}
use dlopen_rs.Flags.{contains, rtld_global, rtld_nodelete, custom_not_register}
use dlopen_rs.Loader.{CoreComponent, Deps, Dylib}
use dlopen_rs.Register.{GlobalDylib}
use dlopen_rs.Register.World.{
  World, count_core, entry_cores, dylib_cores, has_box, add_box, live_boxes, entry_boxes,
  dylib_boxes, handle_boxes, count_boxes, strong_count, threshold, call_fini, remove_all,
  remove_global, drop_dep, drop_deps, drop_body, drop_dylib,
}

-- Boxes at one address are one box.
abbrev pub Agree : Deps → List Deps → Type 0
Agree b [] = Unit {0}
Agree b (c ∷ cs) = ((c.addr == b.addr) ≡ true → c.items ≡ b.items) × Agree b cs

count-has_box :
    (core : CoreComponent) (b : Deps) (bs : List Deps)
    → Agree b bs
    → has_box b bs ≡ true
    → count_core core b.items ≤ count_boxes core bs
count-has_box core b [] agree h = cc
count-has_box core b (c ∷ cs) agree h = elim (Bool-cases (c.addr == b.addr)) [
  | inl e ↦ omega (arith, ap (count_core core) (agree.0 e))
  | inr e ↦ omega (arith, count-has_box core b cs agree.1 (rw e at h))
]

pub count-add_box :
    (core : CoreComponent) (b : Deps) (bs : List Deps)
    → Agree b bs
    → count_core core b.items ≤ count_boxes core (add_box (some b) bs)
count-add_box core b bs agree = elim (Bool-cases (has_box b bs)) [
  | inl e ↦ rw e (count-has_box core b bs agree e)
  | inr e ↦ rw e (omega arith)
]

-- the boxes that are alive without `d`
abbrev pub other_boxes : World → List Deps
other_boxes w = dylib_boxes w.dylibs (entry_boxes w.manager.all (handle_boxes w.handles))

abbrev pub with_dylib : Dylib → World → World
with_dylib d w = record w { dylibs = d ∷ w.dylibs }

-- `d` is a registered `Dylib` as `dlopen` makes it: its library is in `all`, in `global` if its
-- flags say so, and in its box of dependencies.
pub record IsRegistered (d : Dylib) (w : World) : Type 0 where
  pub listed : 1 ≤ count_core d.inner (entry_cores w.manager.all)
  pub exported :
      contains d.flags rtld_global ≡ true → 1 ≤ count_core d.inner (values w.manager.global)
  pub box :
      (b : Deps) × (d.deps ≡ some b) × (1 ≤ count_core d.inner b.items) × Agree b (other_boxes w)

-- Something else uses the library of `d`: another `Dylib`, or a second box of dependencies.
abbrev pub IsShared : Dylib → World → Type 0
IsShared d w =
    (1 ≤ count_core d.inner (dylib_cores w.dylibs))
    ⊎ (2 ≤ count_boxes d.inner (live_boxes (with_dylib d w)))

pub self-eq : (n : ℕ) → (n == n) ≡ true
self-eq n = ground arith

pub test-gt : (a b : ℕ) → a < b → (b == a) ≡ false
test-gt a b h = ground arith

to_nat-le : (b : Bool) → to_nat b ≤ 1
to_nat-le b = ground arith

pub exported-count : (b : Bool) (n : ℕ) → (b ≡ true → 1 ≤ n) → to_nat b ≤ n
exported-count true n h = h refl
exported-count false n h = omega arith

boxed-count :
    (d : Dylib) (w : World)
    → IsRegistered d w
    → 1 ≤ count_boxes d.inner (live_boxes (with_dylib d w))
unfolding live_boxes
boxed-count d w r =
    let (b, boxed, inside, agree) = r.box in
    rw boxed (omega (arith, count-add_box d.inner b (other_boxes w) agree))

pub strong_count-with_dylib :
    (d : Dylib) (w : World)
    → strong_count (with_dylib d w) d.inner
      ≡ 1
        + count_core d.inner (dylib_cores w.dylibs)
        + count_core d.inner (entry_cores w.manager.all)
        + count_core d.inner (values w.manager.global)
        + count_boxes d.inner (live_boxes (with_dylib d w))
unfolding strong_count
strong_count-with_dylib d w = rw (self-eq d.inner.addr)

above-threshold :
    (d : Dylib) (w : World)
    → IsRegistered d w
    → IsShared d w
    → (strong_count (with_dylib d w) d.inner == threshold d.deps d.flags) ≡ false
above-threshold d w r s =
    test-gt (threshold d.deps d.flags) (strong_count (with_dylib d w) d.inner) (
      omega (
        arith,
        strong_count-with_dylib d w,
        boxed-count d w r,
        to_nat-le (is_some d.deps),
        exported-count (contains d.flags rtld_global) _ r.exported,
        r.listed,
        s,
      ))

-- A `Dylib` that goes out of scope while something else uses its library changes nothing: no
-- library is unregistered and no fini function runs. (The library is registered, and was not
-- opened with CUSTOM_NOT_REGISTER.)
pub drop_dylib-IsShared :
    (d : Dylib) (w : World)
    → contains d.flags custom_not_register ≡ false
    → IsRegistered d w
    → IsShared d w
    → drop_dylib d w ≡ (ok tt, w)
unfolding drop_dylib drop_body
drop_dylib-IsShared d w local r s = elim (Bool-cases (contains d.flags rtld_nodelete)) [
  | inl t ↦ rw t
  | inr t ↦ rw (t, local, above-threshold d w r s)
]

pub drop_deps-rule {ℓ} :
    (self : CoreComponent) (P : World → Type ℓ)
    → ((dep : CoreComponent) (lib : GlobalDylib) (w : World)
        → get dep.shortname w.manager.all ≡ some lib
        → contains lib.flags rtld_nodelete ≡ false
        → P w
        → P (remove_global self.shortname (remove_all dep.shortname (call_fini dep w))))
    → (deps : List CoreComponent) (w : World) → P w
    → P (drop_deps self deps w)
unfolding drop_deps
drop_deps-rule self P keep [] w h = h
drop_deps-rule self P keep (dep ∷ deps) w h =
    drop_deps-rule self P keep deps (drop_dep self dep w)
      (one (Option-cases (get dep.shortname w.manager.all)))
  where
    one :
        (get dep.shortname w.manager.all ≡ none)
          ⊎ ((lib : GlobalDylib) × (get dep.shortname w.manager.all ≡ some lib))
        → P (drop_dep self dep w)
    one (inl e) = rw (e, drop_dep) h
    one (inr (lib, e)) = elim (Bool-cases (contains lib.flags rtld_nodelete)) [
      | inl t ↦ rw (e, drop_dep, t) h
      | inr t ↦ elim (Bool-cases (strong_count w dep == threshold lib.deps lib.flags)) [
        | inl c ↦ rw (e, drop_dep, t, c) (keep dep lib w e t h)
        | inr c ↦ rw (e, drop_dep, t, c) h
      ]
    ]
