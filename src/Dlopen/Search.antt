-- ===== src/Dlopen/Search.antt =====
-- The breadth-first search of `dlopen_impl`.
pub mod Rule
pub mod Budget
pub mod First
pub mod Cover
use dlopen_rs.Base.{
  ℕ, zero, suc, ◌+◌, ◌%◌, ◌^◌, Bool, true, false, List, [], ◌∷◌, ◌++◌, Option, none, some, map,
  length, get_elem?, if◌then◌else◌, ltb, is_some, get_or_else,
}
use dlopen_rs.Base.Text.{Text, codes}
use dlopen_rs.Base.IndexMap.{get, insert, modify}
use dlopen_rs.Error.{
  Result, ok, err, panicked, out_of_fuel, index_out_of_bounds, assertion_failed, find_lib_error,
  success, failure,
}
use dlopen_rs.Step.{Step, and_then}
use dlopen_rs.Flags.{OpenFlags, contains, difference, rtld_global}
use dlopen_rs.Loader.{ElfLibrary, Platform, from_open_file}
use dlopen_rs.Register.{GlobalDylib, Manager, set_flags, set_mark, is_relocated, register}
use dlopen_rs.Paths.{path_join, fixup_rpath, search_paths}
use dlopen_rs.Dlopen.Walk.{Walk}

-- `lib.dylib.rpath().map(|rpath| fixup_rpath(lib.name(), rpath)).unwrap_or([])`
unfoldable pub rpath_of : ElfLibrary → List Text
rpath_of lib = elim lib.dylib.rpath [ none ↦ [] | some rpath ↦ fixup_rpath lib.dylib.name rpath ]

-- The loaded library gets the new flags and becomes global.
unfoldable pub promote : OpenFlags → Text → GlobalDylib → Manager → Manager
promote flags name lib m = record {
  all = modify name (set_flags flags) m.all;
  global = insert lib.inner.shortname lib.inner m.global;
}

-- A needed library that is loaded already.
unfoldable pub revisit : OpenFlags → Text → GlobalDylib → Walk → Walk
unfolding promote
revisit flags name lib w =
    if lib.is_mark
    then w
    else let marked = record w.manager { all = modify name (set_mark true) w.manager.all } in
      record w {
        dep_libs = w.dep_libs ++ lib.inner ∷ [];
        manager =
            if contains (difference flags lib.flags) rtld_global
            then promote flags name lib marked
            else marked;
      }

module _ (flags : OpenFlags) where
  -- What the closure handed to `find_library` does with a library that was mapped.
  unfoldable pub add_library : ElfLibrary → Step Walk (Unit {0})
  unfolding rpath_of
  add_library lib w =
      if ltb (length w.new_libs) is_relocated
      then (
        ok tt,
        record w {
          manager =
              register lib.dylib.core_component flags none w.manager true
                (some (length w.new_libs % 2 ^ 8));
          dep_libs = w.dep_libs ++ lib.dylib.core_component ∷ [];
          rpath_vec = w.rpath_vec ++ rpath_of lib ∷ [];
          new_libs = w.new_libs ++ some lib ∷ [];
        },
      )
      else (panicked assertion_failed, w)

module _ (p : Platform) (flags : OpenFlags) where
  unfoldable pub load_file : ℕ → Text → Step Walk (Unit {0})
  unfolding add_library
  load_file file path w = and_then (from_open_file p file path flags, w) (add_library flags)

  -- the loop of `find_library` over the search paths
  unfoldable pub try_paths : Text → List Text → Step Walk (Unit {0})
  unfolding load_file
  try_paths name [] w = (err (find_lib_error (codes "can not find file: " ++ name)), w)
  try_paths name (path ∷ paths) w = elim (p.open_file (path_join path name)) [
    | success file ↦ load_file file (path_join path name) w
    | failure e ↦ try_paths name paths w
  ]

  unfoldable pub find_library : ℕ → Text → Step Walk (Unit {0})
  unfolding try_paths
  find_library cur_rpath name w = elim (get_elem? w.rpath_vec cur_rpath) [
    | none ↦ (panicked index_out_of_bounds, w)
    | some rpath ↦ try_paths name (search_paths p rpath) w
  ]

  -- A needed library that is not loaded. The result is the new `cur_rpath`.
  unfoldable pub load_needed : Text → Option ℕ → Step Walk (Option ℕ)
  unfolding find_library
  load_needed name (some pos) w = and_then (find_library pos name w) (λ _ w'. (ok (some pos), w'))
  load_needed name none w =
      let pos = w.cur_rpath_pos in
      and_then (find_library pos name (record w { cur_rpath_pos = pos + 1 }))
        (λ _ w'. (ok (some pos), w'))

  -- the body of the loop over `lib_names`
  unfoldable pub visit : Text → Option ℕ → Step Walk (Option ℕ)
  unfolding revisit load_needed
  visit name cur_rpath w = elim (get name w.manager.all) [
    | some lib ↦ (ok cur_rpath, revisit flags name lib w)
    | none ↦ load_needed name cur_rpath w
  ]

  unfoldable pub visit_all : List Text → Option ℕ → Step Walk (Unit {0})
  unfolding visit
  visit_all [] cur_rpath w = (ok tt, w)
  visit_all (name ∷ names) cur_rpath w =
      and_then (visit name cur_rpath w) (λ next w'. visit_all names next w')

  -- `while cur_pos < dep_libs.len()`
  unfoldable pub search_loop : ℕ → ℕ → Step Walk (Unit {0})
  unfolding visit_all
  search_loop zero cur_pos w = (out_of_fuel, w)
  search_loop (suc fuel) cur_pos w = elim (get_elem? w.dep_libs cur_pos) [
    | none ↦ (ok tt, w)
    | some core ↦
        and_then (visit_all core.needed_libs none w) (λ _ w'. search_loop fuel (cur_pos + 1) w')
  ]
