-- ===== src/Tests/Starting.antt =====
-- `init` with the program, a libc and the loader's own library.
use dlopen_rs.Base.Text.{codes, has_text, starts_with, text_eq, split}
use dlopen_rs.Loader.{CoreComponent}
use dlopen_rs.Error.{ok, success, panicked, todo}
use dlopen_rs.Base.{
  inl, inr, refl, ◌∙◌, false, [], ◌≤◌, ◌==◌, arith, some, ◌∷◌, ℕ, if◌then◌else◌, none, ◌+◌, ◌<◌,
  ◌≡◌,
}
use dlopen_rs.Startup.{HostLoader, Program, Dynamic, take_list, init, incomplete}
use dlopen_rs.Startup.Host.{AllReadable, IsReadable}
use dlopen_rs.Startup.Loop.{IsFresh}
use dlopen_rs.Startup.Walk.{IsStarted, init-IsStarted}
use dlopen_rs.DebugList.{debug_unset, LinkMap, CustomDebug, Heap}
use dlopen_rs.Startup.Reopen.{dlopen_impl-init}
use dlopen_rs.Dlopen.Open.{dlopen_impl}
use dlopen_rs.Register.{GlobalDylib, get_dylib}
use dlopen_rs.Base.IndexMap.{get}
use dlopen_rs.Tests.Sample.{sample_platform, sample_core, empty}

abbrev libc_core : CoreComponent
libc_core = sample_core 5 (codes "libc.so.6") [] (codes "dl_iterate_phdr")

abbrev loader_core : CoreComponent
loader_core = sample_core 6 (codes "ld-linux.so") [] (codes "k")

abbrev program_map : LinkMap
program_map = record { l_addr = 0; l_name = 1; l_ld = 16; l_next = 200; l_prev = 0 }

abbrev libc_map : LinkMap
libc_map = record { l_addr = 8192; l_name = 2; l_ld = 32; l_next = 300; l_prev = 100 }

abbrev loader_map : LinkMap
loader_map = record { l_addr = 4096; l_name = 3; l_ld = 48; l_next = 0; l_prev = 200 }

abbrev dynamic : Dynamic
dynamic = record { hash_off = 6000; verneed = some (64, 1); verdef = none }

-- New boxes stand above 1000 and above the last node.
abbrev sample_loader : HostLoader
sample_loader = record {
  raw_dynamic = λ ld. success dynamic;
  finish_dynamic = λ d base. d;
  new_uncheck = λ name base d. if base == 8192 then libc_core else loader_core;
  c_str = λ p.
      if p == 1
      then some []
      else if p == 2
      then some (codes "libc.so.6")
      else some (codes "ld-linux.so");
  box_new = λ d. d.tail + 1000;
  arc_new = λ m. 7;
  current_exe = some (codes "/bin/program");
}

abbrev host_heap : Heap
host_heap q =
    if q == 100
    then some program_map
    else if q == 200
    then some libc_map
    else if q == 300
    then some loader_map
    else none

abbrev unstarted : Program
unstarted = record {
  once = incomplete;
  program_name = none;
  debug = record {
    heap = host_heap;
    lock = debug_unset;
    map = 100;
    state = 0;
    tail = 0;
    breaks = [];
  };
  manager = empty;
  old_dl_iterate_phdr = none;
  has_global_scope = false;
}

-- Above the last node and above 1000 nothing is in use.
abbrev IsBounded : CustomDebug → Type 0
IsBounded d = (q : ℕ) → d.tail < q → 1000 ≤ q → d.heap q ≡ none

sample_loader-IsFresh : IsFresh sample_loader IsBounded
sample_loader-IsFresh s valid = (
  (λ e. omega arith),
  valid (s.tail + 1000) (omega arith) (omega arith),
  (λ like s' x q above big.
      let t = x.tail in
      x.frame q (λ e. omega (arith, t, e, above)) (λ e. omega (arith, t, e, above))
      ∙ valid q (omega (arith, t, above)) big),
)

unstarted-IsBounded : IsBounded (take_list unstarted.debug)
unstarted-IsBounded q above big = ground arith

program_map-IsReadable : IsReadable sample_loader program_map
unfolding has_text starts_with
program_map-IsReadable = record {
  raw = dynamic;
  name = [];
  raw_eq = refl;
  name_eq = refl;
  symbol = inl refl;
}

libc_map-IsReadable : IsReadable sample_loader libc_map
unfolding text_eq
libc_map-IsReadable = record {
  raw = dynamic;
  name = codes "libc.so.6";
  raw_eq = refl;
  name_eq = refl;
  symbol = inr (20496, refl);
}

loader_map-IsReadable : IsReadable sample_loader loader_map
unfolding has_text starts_with
loader_map-IsReadable = record {
  raw = dynamic;
  name = codes "ld-linux.so";
  raw_eq = refl;
  name_eq = refl;
  symbol = inl refl;
}

readable : AllReadable sample_loader (program_map ∷ libc_map ∷ loader_map ∷ [])
readable = (program_map-IsReadable, (libc_map-IsReadable, (loader_map-IsReadable, tt)))

init-IsStarted_example :
    IsStarted sample_loader
      (program_map ∷ libc_map ∷ loader_map ∷ [])
      readable
      unstarted
      (init sample_loader 4 unstarted)
    × (init sample_loader 4 (init sample_loader 4 unstarted).1
        ≡ (ok tt, (init sample_loader 4 unstarted).1))
init-IsStarted_example =
    init-IsStarted sample_loader 4 (codes "/bin/program") unstarted
      (program_map ∷ libc_map ∷ loader_map ∷ []) readable IsBounded sample_loader-IsFresh
      unstarted-IsBounded refl (omega arith) refl refl
      ((λ e. omega arith), refl, ((λ e. omega arith), refl, ((λ e. omega arith), refl, refl)))

dlopen_impl-init_example :
    (lib : GlobalDylib) × (get (codes "libc.so.6") (init sample_loader 4 unstarted).1.manager.all
      ≡ some lib)
    × (dlopen_impl
          (sample_platform 0)
          50
          (codes "/lib/libc.so.6")
          258
          (panicked todo)
          (init sample_loader 4 unstarted).1.manager
        ≡ (ok (get_dylib lib), (init sample_loader 4 unstarted).1.manager))
unfolding split
dlopen_impl-init_example =
    dlopen_impl-init sample_loader 4 (codes "/bin/program") unstarted
      (program_map ∷ libc_map ∷ loader_map ∷ []) readable IsBounded (sample_platform 0) 50
      (codes "/lib/libc.so.6") (codes "libc.so.6") 258 (panicked todo) sample_loader-IsFresh
      unstarted-IsBounded refl (omega arith) refl refl
      ((λ e. omega arith), refl, ((λ e. omega arith), refl, ((λ e. omega arith), refl, refl)))
      (inr (inl (refl, refl))) refl
