-- ===== src/Relocate/Existing.antt =====
-- A relocated library is found again.
use dlopen_rs.Loader.{find_symbol, get_symbol, Deps, Platform, Dylib, CoreComponent, ElfLibrary}
use dlopen_rs.Register.{entry, Manager, get_dylib, register}
use dlopen_rs.Error.{
  find_symbol_error, ok_or, out_of_fuel, err, failure, success, from_call, Result, CallFault,
  refused, unwound, Foreign, ok, panicked,
}
use dlopen_rs.Step.{and_then}
use dlopen_rs.Relocate.{
  openable, and_then, scope_of, relocate_impl, register, load_existing, relocate_with, publish,
  relocate,
}
use dlopen_rs.Base.{
  Option-cases, ap, map, find_map, ◌++◌, [], or_option, ◌∷◌, ◌∙◌, none, false, some, refl, ◌≡◌,
  Bool-cases, Option, List, ℕ, inl, inr, if◌then◌else◌,
}
use dlopen_rs.Flags.{custom_not_register, contains}
use dlopen_rs.Base.Text.{codes, Text, text_eq_refl}
use dlopen_rs.Base.IndexMap.{get-insert, insert, get}

-- The first of the libraries that has the symbol, in the order of the list.
abbrev pub first_symbol : Text → List Dylib → Option ℕ
first_symbol name [] = none
first_symbol name (d ∷ ds) = or_option (d.inner.symbol name) (first_symbol name ds)

-- What a relocation leaves. A library that may be registered is found by its short name, and its
-- symbols are its own, and then those of the given libraries in their order; nothing changed
-- otherwise.
abbrev pub IsPublished : ElfLibrary → List Dylib → Text → Manager → Result Dylib × Manager → Type 0
IsPublished lib libs name m (ok d, m') =
    (load_existing d.inner.shortname m' ≡ (
      if contains lib.flags custom_not_register then load_existing d.inner.shortname m else ok d))
    × (get_symbol d name
        ≡ ok_or (find_symbol_error (codes "can not find symbol:" ++ name))
            (or_option (lib.dylib.core_component.symbol name) (first_symbol name libs)))
IsPublished lib libs name m (err e, m') = m' ≡ m
IsPublished lib libs name m (panicked e, m') = m' ≡ m
IsPublished lib libs name m (out_of_fuel, m') = ⊥

inners-first :
    (name : Text) (libs : List Dylib)
    → find_map (λ (c : CoreComponent). c.symbol name) (map (λ (d : Dylib). d.inner) libs)
      ≡ first_symbol name libs
inners-first name [] = refl
inners-first name (d ∷ ds) = elim (Option-cases (d.inner.symbol name)) [
  | inl e ↦ rw (e, find_map, first_symbol) (inners-first name ds)
  | inr (sym, e) ↦ rw (e, find_map, first_symbol)
]

scope_of-first :
    (name : Text) (lib : ElfLibrary) (libs : List Dylib)
    → find_map (λ (c : CoreComponent). c.symbol name) (scope_of lib libs)
      ≡ or_option (lib.dylib.core_component.symbol name) (first_symbol name libs)
scope_of-first name lib libs = elim (Option-cases (lib.dylib.core_component.symbol name)) [
  | inl e ↦ rw (e, find_map, or_option) (inners-first name libs)
  | inr (sym, e) ↦ rw (e, find_map, or_option)
]

abbrev box : ℕ → ElfLibrary → List Dylib → Deps
box fresh lib libs = record { addr = fresh; items = scope_of lib libs }

publish-IsPublished :
    (lib : ElfLibrary) (libs : List Dylib) (fresh : ℕ) (name : Text) (core : CoreComponent)
    (m : Manager)
    → IsPublished lib libs name m (publish lib (box fresh lib libs) core m)
unfolding publish load_existing register get_dylib get_symbol openable find_symbol
publish-IsPublished lib libs fresh name core m =
    let first =
      ap (ok_or (find_symbol_error (codes "can not find symbol:" ++ name)))
        (scope_of-first name lib libs) in
    elim (Bool-cases (contains lib.flags custom_not_register)) [
      | inl t ↦ rw t (rw t, first)
      | inr t ↦
          let e = entry core lib.flags (some (box fresh lib libs)) false none in
          let found : get core.shortname (insert core.shortname e m.all) ≡ some e =
            get-insert core.shortname core.shortname e m.all ∙ rw (text_eq_refl core.shortname) in
          rw t (rw (t, found), first)
    ]

relocated :
    (r : Foreign CallFault CoreComponent) (lib : ElfLibrary) (libs : List Dylib) (fresh : ℕ)
    (name : Text) (m : Manager)
    → IsPublished lib libs name m (and_then (from_call r, m) (publish lib (box fresh lib libs)))
relocated (success core) lib libs fresh name m = publish-IsPublished lib libs fresh name core m
relocated (failure (refused e)) lib libs fresh name m = refl
relocated (failure (unwound q)) lib libs fresh name m = refl

-- Relocation with given libraries, with the closure or without it, always ends. If it fails,
-- the manager is unchanged. If it succeeds, `load_existing` finds the same `Dylib` by its short
-- name (or what it found before, under CUSTOM_NOT_REGISTER), and `get` looks a symbol up in
-- the library first and then in the given ones, in their order.
pub relocate-IsPublished :
    (p : Platform) (fresh : ℕ) (lib : ElfLibrary) (libs : List Dylib) (func : Text → Option ℕ)
    (name : Text) (m : Manager)
    → IsPublished lib libs name m (relocate p fresh lib libs m)
      × IsPublished lib libs name m (relocate_with p fresh lib libs func m)
unfolding relocate relocate_with relocate_impl
relocate-IsPublished p fresh lib libs func name m =
    (relocated _ lib libs fresh name m, relocated _ lib libs fresh name m)
