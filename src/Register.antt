-- ===== src/Register.antt =====
-- The manager of src/register.rs: the libraries that are loaded and those that are global.
pub mod World
pub mod Unload
pub mod Last
pub mod Frame
use dlopen_rs.Base.{ℕ, Bool, [], Option, if◌then◌else◌, find_map, or_option, get_or_else}
use dlopen_rs.Base.Text.{Text}
use dlopen_rs.Base.IndexMap.{IndexMap, insert, values}
use dlopen_rs.Flags.{OpenFlags, contains, rtld_global}
use dlopen_rs.Builtin.{builtin}
use dlopen_rs.Loader.{CoreComponent, Deps, Dylib, Platform}

-- `u8::MAX`
abbrev pub is_relocated : ℕ
is_relocated = 255

pub record GlobalDylib : Type 0 where
  pub inner : CoreComponent
  pub flags : OpenFlags
  pub deps : Option Deps
  pub new_idx : ℕ
  pub is_mark : Bool

unfoldable pub get_dylib : GlobalDylib → Dylib
get_dylib lib = record { inner = lib.inner; flags = lib.flags; deps = lib.deps }

abbrev pub set_flags : OpenFlags → GlobalDylib → GlobalDylib
set_flags flags lib = record lib { flags = flags }

abbrev pub set_mark : Bool → GlobalDylib → GlobalDylib
set_mark b lib = record lib { is_mark = b }

abbrev pub set_new_idx : ℕ → GlobalDylib → GlobalDylib
set_new_idx idx lib = record lib { new_idx = idx }

pub record Manager : Type 0 where
  pub all : IndexMap GlobalDylib
  pub global : IndexMap CoreComponent

-- `MANAGER` before its first use
abbrev pub new_manager : Manager
new_manager = record { all = []; global = [] }

abbrev pub entry : CoreComponent → OpenFlags → Option Deps → Bool → Option ℕ → GlobalDylib
entry core flags deps is_mark new_idx = record {
  inner = core;
  flags = flags;
  deps = deps;
  new_idx = get_or_else new_idx 255;
  is_mark = is_mark;
}

unfoldable pub register :
    CoreComponent → OpenFlags → Option Deps → Manager → Bool → Option ℕ → Manager
register core flags deps manager is_mark new_idx = record {
  all = insert core.shortname (entry core flags deps is_mark new_idx) manager.all;
  global =
      if contains flags rtld_global
      then insert core.shortname core manager.global
      else manager.global;
}

-- `global_find`: the builtin table first, then the global libraries in their order
unfoldable pub global_find : Platform → Manager → Text → Option ℕ
global_find p manager name =
    or_option (builtin p.address name) (find_map (λ lib. lib.symbol name) (values manager.global))
