-- ===== src/Startup.antt =====
-- src/init.rs: the libraries that the host's loader has loaded are registered and shown to
-- debuggers.
pub mod Host
pub mod Nodes
pub mod Loop
pub mod Walk
pub mod Reopen
use dlopen_rs.Base.{
  ℕ, zero, suc, ◌+◌, ◌-◌, Bool, true, false, [], ◌∷◌, Option, none, some, if◌then◌else◌, ltb, ◌==◌,
}
use dlopen_rs.Base.Text.{Text, codes, has_text}
use dlopen_rs.Error.{
  Result, ok, err, panicked, out_of_fuel, unwrap_err, poisoned, unwrap, Foreign, LoaderError,
  from_loader,
}
use dlopen_rs.Step.{Step, and_then}
use dlopen_rs.Flags.{OpenFlags, rtld_nodelete, rtld_global}
use Prim.Native.Nat.{bit_or}
use dlopen_rs.Loader.{CoreComponent, Deps, Dylib, get_symbol}
use dlopen_rs.Register.{Manager, register}
use dlopen_rs.DebugList.{
  debug_poisoned, debug_unset, DebugLock, debug_set, LinkMap, CustomDebug, new, load,
}

-- `ElfRawDynamic` and `Dynamic`, as far as the code reads them: the version tables are an offset
-- and a number.
pub record Dynamic : Type 0 where
  pub hash_off : ℕ
  pub verneed : Option (ℕ × ℕ)
  pub verdef : Option (ℕ × ℕ)

-- What elf_loader, the allocator and the memory answer: the dynamic section at an address, after
-- `finish` with a base, the library that `new_uncheck` makes, the C string at an address where it
-- is UTF-8, the addresses of new boxes, and the path of the program.
pub record HostLoader : Type 0 where
  pub raw_dynamic : ℕ → Foreign LoaderError Dynamic
  pub finish_dynamic : Dynamic → ℕ → Dynamic
  pub new_uncheck : Text → ℕ → Dynamic → CoreComponent
  pub c_str : ℕ → Option Text
  pub box_new : CustomDebug → ℕ
  pub arc_new : Manager → ℕ
  pub current_exe : Option Text

-- `spin::Once`, which a panic poisons
pub data Once : Type 0 where
  incomplete complete broken : Once

pub record Program : Type 0 where
  pub once : Once
  pub program_name : Option Text
  pub debug : CustomDebug
  pub manager : Manager
  pub old_dl_iterate_phdr : Option ℕ
  pub has_global_scope : Bool

-- the base that the addresses in the dynamic section count from
abbrev pub base_of : Dynamic → ℕ → ℕ
base_of dynamic l_addr = if ltb l_addr dynamic.hash_off then 0 else l_addr

abbrev pub shift : ℕ → Option (ℕ × ℕ) → Option (ℕ × ℕ)
shift by none = none
shift by (some (off, num)) = some (off + by, num)

-- The version tables count from the load address in any case. An overflow, which the code rules
-- out, is not modelled.
unfoldable pub versions_of : Dynamic → ℕ → ℕ → Dynamic
versions_of dynamic l_addr base = record dynamic {
  verneed = shift (l_addr - base) dynamic.verneed;
  verdef = shift (l_addr - base) dynamic.verdef;
}

abbrev pub existing_flags : OpenFlags
existing_flags = bit_or rtld_nodelete rtld_global

-- `result.unwrap()`
abbrev pub unwrap_ok : {A : Type 0} → Result A → Result A
unwrap_ok (ok a) = ok a
unwrap_ok (err e) = panicked unwrap_err
unwrap_ok (panicked p) = panicked p
unwrap_ok out_of_fuel = out_of_fuel

-- the debugger's list without the host's nodes
abbrev pub take_list : CustomDebug → CustomDebug
take_list d = record d { map = 0; tail = 0; lock = debug_set }

-- what `call_once` leaves
abbrev pub finish_once : Result (Unit {0}) × Program → Result (Unit {0}) × Program
finish_once (ok u, s) = (ok u, record s { once = complete })
finish_once (err e, s) = (err e, record s { once = broken })
finish_once (panicked p, s) = (panicked p, record s { once = broken })
finish_once (out_of_fuel, s) = (out_of_fuel, s)

module _ (host : HostLoader) where
  -- the end of `from_link_map`, with the new library
  unfoldable pub register_existing : CoreComponent → Step Program (Option Dylib)
  register_existing core s =
      let deps : Option Deps = some (record { addr = host.arc_new s.manager; items = core ∷ [] }) in
      (
        ok (some (record { inner = core; flags = existing_flags; deps = deps })),
        record s { manager = register core existing_flags deps s.manager false none },
      )

  -- `DebugInfo::new` on the debugger's list of the program
  unfoldable pub add_debug_info : LinkMap → Step Program ℕ
  add_debug_info link s =
      let added = new (host.box_new s.debug) link.l_addr link.l_name link.l_ld s.debug in
      (added.0, record s { debug = added.1 })

  unfoldable pub from_link_map : LinkMap → Step Program (Option Dylib)
  unfolding versions_of register_existing add_debug_info
  from_link_map link s =
      and_then (from_loader (host.raw_dynamic link.l_ld), s)
        (λ raw s1.
          let base = base_of raw link.l_addr in
          let dynamic = versions_of (host.finish_dynamic raw base) link.l_addr base in
          and_then (unwrap (host.c_str link.l_name), s1)
            (λ name s2.
              if link.l_addr == 0
              then (ok none, s2)
              else and_then (add_debug_info link s2)
                  (λ _ s3. register_existing (host.new_uncheck name link.l_addr dynamic) s3)))

  -- The closure of `init` on a library that is there. Its `Dylib` is dropped behind it, which does
  -- nothing: the flags have RTLD_NODELETE.
  unfoldable pub note_libc : Option Dylib → Step Program (Unit {0})
  note_libc none s = (ok tt, s)
  note_libc (some lib) s =
      if has_text (codes "libc.so") lib.inner.name
      then and_then (unwrap_ok (get_symbol lib (codes "dl_iterate_phdr")), s)
          (λ addr s'. (ok tt, record s' { old_dl_iterate_phdr = some addr }))
      else (ok tt, s)

  -- `while !cur_map_ptr.is_null()`
  unfoldable pub walk_maps : ℕ → ℕ → Step Program (Unit {0})
  unfolding from_link_map note_libc
  walk_maps zero cur s = (out_of_fuel, s)
  walk_maps (suc fuel) cur s =
      let next = λ (link : LinkMap) (s' : Program). walk_maps fuel link.l_next s' in
      if cur == 0
      then (ok tt, s)
      else and_then ((load cur s.debug).0, s)
          (λ link s1.
            let found = from_link_map link s1 in
            and_then (unwrap_ok found.0, found.1)
              (λ lib s2. and_then (note_libc lib s2) (λ _ s3. next link s3)))

  -- `DEBUG.lock().unwrap()` and the writes before and behind it
  unfoldable pub set_debug : DebugLock → Step Program (Unit {0})
  set_debug debug_unset s = (ok tt, record s { debug = take_list s.debug })
  set_debug debug_set s = (ok tt, record s { debug = take_list s.debug })
  set_debug debug_poisoned s = (panicked poisoned, record s { debug = record s.debug { map = 0 } })

  -- the closure that runs once
  unfoldable pub init_body : ℕ → Step Program (Unit {0})
  unfolding walk_maps set_debug
  init_body fuel s =
      and_then (unwrap host.current_exe, s)
        (λ exe s1.
          and_then (set_debug s1.debug.lock (record s1 { program_name = some exe })) (λ _ s2.
            and_then (walk_maps fuel s1.debug.map s2)
              (λ _ s3. (ok tt, record s3 { has_global_scope = true }))))

  -- `ONCE.call_once`
  unfoldable pub call_once : Once → ℕ → Step Program (Unit {0})
  unfolding init_body
  call_once incomplete fuel s = finish_once (init_body fuel s)
  call_once complete fuel s = (ok tt, s)
  call_once broken fuel s = (panicked poisoned, s)

  -- `init`
  unfoldable pub init : ℕ → Step Program (Unit {0})
  unfolding call_once
  init fuel s = call_once s.once fuel s
