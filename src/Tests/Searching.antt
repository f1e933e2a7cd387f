-- ===== src/Tests/Searching.antt =====
-- The search on files whose short names come from their paths.
use dlopen_rs.Dlopen.Open.{search_fuel}
use dlopen_rs.Dlopen.Search.{search_loop}
use dlopen_rs.Dlopen.Open.Closure.{IsNaming}
use dlopen_rs.Dlopen.Open.Complete.{search_loop-IsSearched, IsSearched}
use dlopen_rs.Base.Text.{split, split-ne_nil, Text}
use dlopen_rs.Dlopen.Walk.{start_walk, Walk}
use dlopen_rs.Base.{◌∙◌, refl, ap, ◌≡◌, [], some, Bool, last?, get_or_else, Option, List, ℕ, ◌∷◌}
use dlopen_rs.Error.{failure, CallFault, Foreign, success}
use dlopen_rs.Loader.{ElfDylib, CoreComponent, ElfObject, Platform, elf_file, elf_binary}
use dlopen_rs.Tests.Sample.{sample_platform, sample_dylib, sample_file, a_core, empty}

abbrev pub named_file : Text → ℕ → CoreComponent
named_file path fd = record (sample_file fd) {
  shortname = get_or_else (last? (split b'/' path)) [];
}

abbrev pub named_load : ElfObject → Option Bool → Foreign CallFault ElfDylib
named_load (elf_file path fd) lazy = success (sample_dylib (named_file path fd))
named_load (elf_binary path bytes) lazy = success (sample_dylib a_core)

-- `bad` is the address of a library that cannot be relocated.
abbrev pub named_refusing : ℕ → Platform
named_refusing bad = record (sample_platform bad) { load_dylib = named_load }

abbrev pub named_platform : Platform
named_platform = named_refusing 0

last?-cons : (x : Text) (xs : List Text) → last? (x ∷ xs) ≡ some (get_or_else (last? (x ∷ xs)) [])
last?-cons x [] = refl
last?-cons x (y ∷ xs) = last?-cons y xs

pub named_platform-IsNaming : IsNaming named_platform
named_platform-IsNaming path file lazy lib e =
    let (part, parts, s) = split-ne_nil b'/' path in
    let name : last? (split b'/' path) ≡ some (named_file path file).shortname =
      rw s (last?-cons part parts) in
    let same : (named_file path file).shortname ≡ lib.core_component.shortname =
      ap
        (λ (r : Foreign CallFault ElfDylib). elim r [
          | success l ↦ l.core_component.shortname
          | failure bad ↦ []
        ])
        e in
    name ∙ ap some same

abbrev pub start : Walk
start =
    start_walk a_core (some (record { dylib = sample_dylib a_core; flags = 1 }) ∷ []) ([] ∷ [])
      empty

search_loop-IsSearched_example :
    IsSearched (search_loop named_platform 1 (search_fuel empty) 0 start)
search_loop-IsSearched_example =
    search_loop-IsSearched named_platform 1 a_core start named_platform-IsNaming refl
