-- ===== src/Tests/Sample.antt =====
-- A small file system: `a.so` needs `b.so` and `c.so`, which need each other.
use dlopen_rs.Flags.{OpenFlags}
use dlopen_rs.Dlopen.Open.{dlopen}
use dlopen_rs.Base.{
  ◌+◌, ◌*◌, ℕ, Bool, List, [], ◌∷◌, Option, none, some, if◌then◌else◌, ◌==◌, false,
}
use dlopen_rs.Base.Text.{Text, codes, text_eq}
use dlopen_rs.Error.{
  out_of_fuel, panicked, err, ok, Result, Foreign, success, failure, IoError, io, CallFault,
  refused, loader,
}
use dlopen_rs.Loader.{
  Dylib, CoreComponent, ElfDylib, ElfObject, elf_file, elf_binary, LazyScope, Platform,
}
use dlopen_rs.Register.{Manager}

abbrev pub sample_core : ℕ → Text → List Text → Text → CoreComponent
sample_core addr name needed symbol = record {
  addr = addr;
  name = name;
  shortname = name;
  base = addr * 4096;
  phdrs = [];
  needed_libs = needed;
  symbol = λ s. if text_eq s symbol then some (addr * 4096 + 16) else none;
  symbol_version = λ s v. none;
}

abbrev pub a_core : CoreComponent
a_core = sample_core 1 (codes "a.so") (codes "b.so" ∷ codes "c.so" ∷ []) (codes "f")

abbrev pub b_core : CoreComponent
b_core = sample_core 2 (codes "b.so") (codes "c.so" ∷ []) (codes "g")

abbrev pub c_core : CoreComponent
c_core = sample_core 3 (codes "c.so") (codes "b.so" ∷ []) (codes "h")

abbrev pub sample_dylib : CoreComponent → ElfDylib
sample_dylib core = record {
  core_component = core;
  name = core.name;
  needed_libs = core.needed_libs;
  rpath = none;
  is_lazy = false;
}

abbrev pub sample_file : ℕ → CoreComponent
sample_file fd = if fd == 1 then a_core else if fd == 2 then b_core else c_core

abbrev pub sample_open : Text → Foreign IoError ℕ
sample_open path =
    if text_eq path (codes "a.so")
    then success 1
    else if text_eq path (codes "/lib/b.so")
    then success 2
    else if text_eq path (codes "/lib/c.so")
    then success 3
    else failure (io (codes "not found"))

abbrev pub sample_load : ElfObject → Option Bool → Foreign CallFault ElfDylib
sample_load (elf_file path fd) lazy = success (sample_dylib (sample_file fd))
sample_load (elf_binary path bytes) lazy = success (sample_dylib a_core)

abbrev pub sample_relocate :
    ℕ
    → ElfDylib
    → List CoreComponent
    → (Text → Option ℕ)
    → Option LazyScope
    → Foreign CallFault CoreComponent
sample_relocate bad lib scope find lazy =
    if lib.core_component.addr == bad
    then failure (refused (loader (codes "unknown symbol")))
    else success lib.core_component

-- `bad` is the address of a library that cannot be relocated.
abbrev pub sample_platform : ℕ → Platform
sample_platform bad = record {
  open_file = sample_open;
  load_dylib = sample_load;
  relocate = sample_relocate bad;
  address = λ f. 64;
  ld_library_path = none;
  ld_cache = none;
}

abbrev pub empty : Manager
empty = record { all = []; global = [] }

-- the `Dylib` of a successful opening
abbrev pub the_dylib : Result Dylib → Dylib
the_dylib (ok d) = d
the_dylib (err e) = record { inner = a_core; flags = 0; deps = none }
the_dylib (panicked e) = record { inner = a_core; flags = 0; deps = none }
the_dylib out_of_fuel = record { inner = a_core; flags = 0; deps = none }

-- the manager after opening `a.so` with these flags, and the `Dylib`
unfoldable pub opened_a : OpenFlags → Result Dylib × Manager
unfolding dlopen
opened_a flags = dlopen (sample_platform 0) 100 (codes "a.so") flags empty
