-- ===== src/Dlopen/Open.antt =====
-- The body of `dlopen_impl`, and its two callers.
pub mod Total
pub mod Rollback
pub mod Reopen
pub mod Listed
pub mod Panics
pub mod Promotion
pub mod Closure
pub mod Complete
pub mod Reached
pub mod Order
pub mod Kept
pub mod Ready
pub mod Prepared
pub mod Steady
pub mod Boxed
use dlopen_rs.Base.{
  ℕ, ◌+◌, ◌*◌, false, List, [], ◌∷◌, Option, none, some, length, get_elem?, last?, if◌then◌else◌,
  is_some, not, ◌&&◌,
}
use dlopen_rs.Base.Text.{Text, split}
use dlopen_rs.Base.IndexMap.{get, truncate}
use dlopen_rs.Error.{Result, ok, panicked, unwrap_none, index_out_of_bounds}
use dlopen_rs.Step.{Step, and_then}
use dlopen_rs.Flags.{OpenFlags, contains, difference, rtld_global, custom_not_register}
use dlopen_rs.Loader.{CoreComponent, ElfLibrary, Dylib, Platform, from_file, from_binary}
use dlopen_rs.Register.{Manager, get_dylib, register}
use dlopen_rs.Dlopen.Walk.{Walk, start_walk}
use dlopen_rs.Dlopen.Search.{rpath_of, search_loop}
use dlopen_rs.Dlopen.Resolve.{resolve_loop}

-- `Recycler::drop` with `is_recycler` set
unfoldable pub recycle : ℕ → ℕ → Manager → Manager
recycle old_all_len old_global_len m = record {
  all = truncate old_all_len m.all;
  global = truncate old_global_len m.global;
}

-- The recycler is disarmed at the end alone, so an error and a panic run it.
unfoldable pub guarded : {A : Type 0} → Manager → Result A × Manager → Result A × Manager
unfolding recycle
guarded old (ok a, m) = (ok a, m)
guarded old (other, m) = (other, recycle (length old.all) (length old.global) m)

-- `if flags.contains(CUSTOM_NOT_REGISTER) { flags.remove(CUSTOM_NOT_REGISTER) }`
unfoldable pub strip : OpenFlags → OpenFlags
strip flags =
    if contains flags custom_not_register then difference flags custom_not_register else flags

-- rounds that the search and the relocation can need
abbrev pub search_fuel : Manager → ℕ
search_fuel m = length m.all + 257

abbrev pub resolve_fuel : Manager → ℕ
resolve_fuel m = 2 * length m.all + 2

module _ (p : Platform) where
  -- what follows the loops: the box of dependencies, at the address `fresh`
  unfoldable pub finish : ℕ → OpenFlags → Step Walk Dylib
  finish fresh flags w = elim (get_elem? w.dep_libs 0) [
    | none ↦ (panicked index_out_of_bounds, w)
    | some core ↦
        let deps = some (record { addr = fresh; items = w.dep_libs }) in
        (
          ok (record { inner = core; flags = flags; deps = deps }),
          record w { manager = register core flags deps w.manager false none },
        )
  ]

  -- the part behind the write lock
  unfoldable pub open_locked : ℕ → OpenFlags → Step Walk Dylib
  unfolding finish
  open_locked fresh flags w = and_then (search_loop p flags (search_fuel w.manager) 0 w) (λ _ w1.
      and_then (resolve_loop p (resolve_fuel w1.manager) (record { idx = 0; next = 0 } ∷ []) w1)
        (λ _ w2. finish fresh flags w2))

  unfoldable pub open_new :
      ℕ
      → OpenFlags
      → CoreComponent
      → List (Option ElfLibrary)
      → List (List Text)
      → Step Manager Dylib
  unfolding open_locked guarded strip
  open_new fresh flags core new_libs rpath_vec m =
      let (result, w) = open_locked fresh (strip flags) (start_walk core new_libs rpath_vec m) in
      guarded m (result, w.manager)

  -- `f` is the result that the closure gives if it is called.
  unfoldable pub dlopen_impl : ℕ → Text → OpenFlags → Result ElfLibrary → Step Manager Dylib
  unfolding open_new
  dlopen_impl fresh path flags f m = elim (last? (split b'/' path)) [
    | none ↦ (panicked unwrap_none, m)
    | some shortname ↦ elim (get shortname m.all) [
      | some lib ↦
          if is_some lib.deps && not (contains (difference flags lib.flags) rtld_global)
          then (ok (get_dylib lib), m)
          else open_new fresh flags lib.inner [] [] m
      | none ↦
          and_then (f, m)
            (λ lib m'.
              open_new fresh flags lib.dylib.core_component (some lib ∷ []) (rpath_of lib ∷ []) m')
    ]
  ]

  -- `ElfLibrary::dlopen` and `ElfLibrary::dlopen_from_binary`
  unfoldable pub dlopen : ℕ → Text → OpenFlags → Step Manager Dylib
  unfolding dlopen_impl
  dlopen fresh path flags = dlopen_impl fresh path flags (from_file p path flags)

  unfoldable pub dlopen_from_binary : ℕ → List ℕ → Text → OpenFlags → Step Manager Dylib
  unfolding dlopen_impl
  dlopen_from_binary fresh bytes path flags =
      dlopen_impl fresh path flags (from_binary p bytes path flags)
