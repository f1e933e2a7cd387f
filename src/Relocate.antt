-- ===== src/Relocate.antt =====
-- Relocation with given libraries, and `load_existing`, of src/loader/mod.rs.
pub mod Existing
use dlopen_rs.Base.{
  false, ℕ, List, [], ◌∷◌, ◌++◌, Option, none, some, map, is_some, if◌then◌else◌, or_option,
}
use dlopen_rs.Base.Text.{Text, codes}
use dlopen_rs.Base.IndexMap.{get}
use dlopen_rs.Builtin.{builtin}
use dlopen_rs.Error.{ok, Result, ok_or, from_call, find_lib_error}
use dlopen_rs.Step.{Step, and_then}
use dlopen_rs.Flags.{contains, custom_not_register}
use dlopen_rs.Loader.{CoreComponent, Deps, Dylib, ElfLibrary, Platform, create_lazy_scope}
use dlopen_rs.Register.{GlobalDylib, Manager, get_dylib, register}

-- `.filter(|lib| lib.deps().is_some()).map(|lib| lib.get_dylib())`
unfoldable pub openable : Option GlobalDylib → Option Dylib
openable none = none
openable (some lib) = if is_some lib.deps then some (get_dylib lib) else none

-- `ElfLibrary::load_existing`
unfoldable pub load_existing : Text → Manager → Result Dylib
unfolding openable
load_existing shortname m =
    ok_or (find_lib_error (shortname ++ codes ": load fail")) (openable (get shortname m.all))

-- what follows the relocation: the library is registered unless its flags forbid it
unfoldable pub publish : ElfLibrary → Deps → CoreComponent → Step Manager Dylib
publish lib deps core m =
    let d : Dylib = record { inner = core; flags = lib.flags; deps = some deps } in
    if contains lib.flags custom_not_register
    then (ok d, m)
    else (ok d, register core lib.flags (some deps) m false none)

-- the libraries of the box, with the relocated one first
abbrev pub scope_of : ElfLibrary → List Dylib → List CoreComponent
scope_of lib libs = lib.dylib.core_component ∷ map (λ (d : Dylib). d.inner) libs

module _ (p : Platform) (fresh : ℕ) where
  -- `relocate_impl`; `fresh` is the address of the new box
  unfoldable pub relocate_impl : ElfLibrary → List Dylib → (Text → Option ℕ) → Step Manager Dylib
  unfolding publish
  relocate_impl lib libs find m =
      let deps = scope_of lib libs in
      let lazy_scope = create_lazy_scope deps lib.dylib.is_lazy in
      and_then (from_call (p.relocate lib.dylib deps find lazy_scope), m)
        (publish lib (record { addr = fresh; items = deps }))

  unfoldable pub relocate : ElfLibrary → List Dylib → Step Manager Dylib
  unfolding relocate_impl
  relocate lib libs = relocate_impl lib libs (builtin p.address)

  -- `relocate_with`: the closure first, then the table
  unfoldable pub relocate_with : ElfLibrary → List Dylib → (Text → Option ℕ) → Step Manager Dylib
  unfolding relocate_impl
  relocate_with lib libs func =
      relocate_impl lib libs (λ name. or_option (func name) (builtin p.address name))
