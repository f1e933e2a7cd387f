-- ===== src/Builtin.antt =====
-- src/loader/builtin.rs: the tables for builds without and with the feature `unwinding`.
pub mod Tables
use dlopen_rs.Base.{map, List, ℕ, [], ◌∷◌, Option}
use dlopen_rs.Base.Text.{Text, codes}
use dlopen_rs.Base.IndexMap.{IndexMap, get}

-- The functions whose addresses the table holds.
pub data Function : Type 0 where
  cxa_atexit_impl cxa_thread_atexit_impl tls_get_addr dl_iterate_phdr : Function
  unwinding_abi : Text → Function

-- the functions of `unwinding::abi` in the table, which have their own names there
abbrev pub unwind_names : List Text
unwind_names =
    codes "_Unwind_Backtrace"
    ∷ codes "_Unwind_ForcedUnwind"
    ∷ codes "_Unwind_GetLanguageSpecificData"
    ∷ codes "_Unwind_GetDataRelBase"
    ∷ codes "_Unwind_FindEnclosingFunction"
    ∷ codes "_Unwind_GetGR"
    ∷ codes "_Unwind_GetIP"
    ∷ codes "_Unwind_GetIPInfo"
    ∷ codes "_Unwind_Resume"
    ∷ codes "_Unwind_SetGR"
    ∷ codes "_Unwind_SetIP"
    ∷ codes "_Unwind_DeleteException"
    ∷ codes "_Unwind_GetCFA"
    ∷ codes "_Unwind_GetRegionStart"
    ∷ codes "_Unwind_GetTextRelBase"
    ∷ codes "_Unwind_RaiseException"
    ∷ codes "_Unwind_Resume_or_Rethrow"
    ∷ []

-- `__cxa_thread_atexit_impl` and `__cxa_atexit_impl` do nothing and return 0.
unfoldable pub run_cxa_atexit_impl : ℕ
run_cxa_atexit_impl = 0

module _ (address : Function → ℕ) where
  abbrev pub builtin_table : IndexMap ℕ
  builtin_table =
      (codes "__cxa_atexit", address cxa_atexit_impl)
      ∷ (codes "__cxa_finalize", 0)
      ∷ (codes "__cxa_thread_atexit_impl", address cxa_thread_atexit_impl)
      ∷ (codes "__tls_get_addr", address tls_get_addr)
      ∷ (codes "_ITM_registerTMCloneTable", 0)
      ∷ (codes "_ITM_deregisterTMCloneTable", 0)
      ∷ (codes "__gmon_start__", 0)
      ∷ (codes "dl_iterate_phdr", address dl_iterate_phdr)
      ∷ []

  abbrev pub unwinding_table : IndexMap ℕ
  unwinding_table =
      (codes "__cxa_atexit", address cxa_atexit_impl)
      ∷ (codes "__cxa_thread_atexit_impl", address cxa_thread_atexit_impl)
      ∷ (codes "__tls_get_addr", address tls_get_addr)
      ∷ (codes "_ITM_registerTMCloneTable", 0)
      ∷ (codes "_ITM_deregisterTMCloneTable", 0)
      ∷ (codes "__gmon_start__", 0)
      ∷ (codes "dl_iterate_phdr", address dl_iterate_phdr)
      ∷ map (λ name. (name, address (unwinding_abi name))) unwind_names

  -- `BUILTIN.get(name).copied()`
  unfoldable pub builtin : Text → Option ℕ
  builtin name = get name builtin_table

  -- the same with the feature `unwinding`
  unfoldable pub builtin_unwinding : Text → Option ℕ
  builtin_unwinding name = get name unwinding_table
