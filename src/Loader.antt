-- ===== src/Loader.antt =====
-- The data of src/loader/mod.rs and the interface of the crates and system calls below it.
use dlopen_rs.Base.{
  ℕ, Bool, true, false, List, [], ◌∷◌, ◌++◌, Option, none, some, if◌then◌else◌, find_map,
}
use dlopen_rs.Base.Text.{Text, codes}
use dlopen_rs.Error.{
  find_symbol_error, IoError, CallFault, Foreign, from_io, from_call, Result, ok, panicked,
  unwrap_none, unwrap, ok_or, ◌>>=◌,
}
use dlopen_rs.Flags.{OpenFlags, contains, rtld_lazy, rtld_now}
use dlopen_rs.Builtin.{Function}

-- A program header, as far as the sources read it.
pub record Phdr : Type 0 where
  pub p_type : ℕ
  pub p_vaddr : ℕ
  pub p_memsz : ℕ
  pub p_filesz : ℕ
  pub p_align : ℕ

-- A handle of `elf_loader`: what its accessors return, and the address that it shares with its
-- clones. `symbol` is `get(name)`, with the address that the symbol has.
pub record CoreComponent : Type 0 where
  pub addr : ℕ
  pub name : Text
  pub shortname : Text
  pub base : ℕ
  pub phdrs : List Phdr
  pub needed_libs : List Text
  pub symbol : Text → Option ℕ
  pub symbol_version : Text → Text → Option ℕ

-- `elf_loader`'s library that is mapped and not yet relocated.
pub record ElfDylib : Type 0 where
  pub core_component : CoreComponent
  pub name : Text
  pub needed_libs : List Text
  pub rpath : Option Text
  pub is_lazy : Bool

pub record ElfLibrary : Type 0 where
  pub dylib : ElfDylib
  pub flags : OpenFlags

-- `Arc<Box<[CoreComponent]>>`: the address tells shared boxes from equal ones.
pub record Deps : Type 0 where
  pub addr : ℕ
  pub items : List CoreComponent

pub record Dylib : Type 0 where
  pub inner : CoreComponent
  pub flags : OpenFlags
  pub deps : Option Deps

-- The weak handles that the closure of `create_lazy_scope` captures.
pub record LazyScope : Type 0 where
  pub deps_weak : List CoreComponent

pub data ElfObject : Type 0 where
  elf_file : Text → ℕ → ElfObject
  elf_binary : Text → List ℕ → ElfObject

-- What the sources call and do not implement. A file is its descriptor. `load_dylib` runs
-- `parse_phdr` on the program headers and `relocate` runs `deal_unknown` on the relocations that
-- it does not know (both in the module Hooks); a panic of theirs ends the call.
pub record Platform : Type 0 where
  pub open_file : Text → Foreign IoError ℕ
  pub load_dylib : ElfObject → Option Bool → Foreign CallFault ElfDylib
  pub relocate :
      ElfDylib
      → List CoreComponent
      → (Text → Option ℕ)
      → Option LazyScope
      → Foreign CallFault CoreComponent
  pub address : Function → ℕ
  pub ld_library_path : Option Text
  pub ld_cache : Option (List Text)

-- `find_symbol`
unfoldable pub find_symbol : List CoreComponent → Text → Result ℕ
find_symbol libs name =
    ok_or (find_symbol_error (codes "can not find symbol:" ++ name))
      (find_map (λ lib. lib.symbol name) libs)

-- `create_lazy_scope`
unfoldable pub create_lazy_scope : List CoreComponent → Bool → Option LazyScope
create_lazy_scope deps is_lazy = if is_lazy then some (record { deps_weak = deps }) else none

-- A call of its closure; `alive` says which handles can be upgraded at that time.
unfoldable pub lazy_lookup : (CoreComponent → Bool) → List CoreComponent → Text → Result (Option ℕ)
lazy_lookup alive [] name = ok none
lazy_lookup alive (dep ∷ deps) name = elim (alive dep) [
  | false ↦ panicked unwrap_none
  | true ↦ elim (dep.symbol name) [ some sym ↦ ok (some sym) | none ↦ lazy_lookup alive deps name ]
]

unfoldable pub lazy_bind : OpenFlags → Option Bool
lazy_bind flags =
    if contains flags rtld_lazy
    then some true
    else if contains flags rtld_now
    then some false
    else none

module _ (p : Platform) where
  -- `from_impl`
  unfoldable pub from_impl : ElfObject → OpenFlags → Result ElfLibrary
  unfolding lazy_bind
  from_impl object flags = do
    dylib ← from_call (p.load_dylib object (lazy_bind flags))
    ok (record { dylib = dylib; flags = flags })

  unfoldable pub from_open_file : ℕ → Text → OpenFlags → Result ElfLibrary
  unfolding from_impl
  from_open_file file path flags = from_impl (elf_file path file) flags

  unfoldable pub from_file : Text → OpenFlags → Result ElfLibrary
  unfolding from_open_file
  from_file path flags = do file ← from_io (p.open_file path); from_open_file file path flags

  unfoldable pub from_binary : List ℕ → Text → OpenFlags → Result ElfLibrary
  unfolding from_impl
  from_binary bytes path flags = from_impl (elf_binary path bytes) flags

-- `Dylib::get` and `Dylib::get_version`
unfoldable pub get_symbol : Dylib → Text → Result ℕ
unfolding find_symbol
get_symbol lib name = do deps ← unwrap lib.deps; find_symbol deps.items name

unfoldable pub get_version : Dylib → Text → Text → Result ℕ
get_version lib name version =
    ok_or (find_symbol_error (codes "can not find symbol:" ++ name))
      (lib.inner.symbol_version name version)
