-- ===== src/DebugList.antt =====
-- The list of src/debug.rs that a debugger reads, on an explicit heap. 0 is the null pointer.
pub mod Chain
pub mod Add
pub mod Absent
pub mod Extend
pub mod Remove
use dlopen_rs.Base.{ℕ, Bool, true, false, List, [], ◌∷◌, Option, none, some, if◌then◌else◌, ◌==◌}
use dlopen_rs.Error.{ok, panicked, dangling, not_initialised, poisoned}
use dlopen_rs.Step.{Step, and_then}

-- `LinkMap` of src/init.rs
pub record LinkMap : Type 0 where
  pub l_addr : ℕ
  pub l_name : ℕ
  pub l_ld : ℕ
  pub l_next : ℕ
  pub l_prev : ℕ

abbrev pub rt_consistent : ℕ
rt_consistent = 0

abbrev pub rt_add : ℕ
rt_add = 1

abbrev pub rt_delete : ℕ
rt_delete = 2

abbrev pub Heap : Type 0
Heap = ℕ → Option LinkMap

-- The mutex `DEBUG`: before `init`, after it, and after a panic of a holder.
pub data DebugLock : Type 0 where
  debug_unset debug_set debug_poisoned : DebugLock

-- `DEBUG` and the `Debug` that it points to, once `init` has set it. `breaks` records
-- the value of `state` at each call of `brk`, the last one first.
pub record CustomDebug : Type 0 where
  pub heap : Heap
  pub lock : DebugLock
  pub map : ℕ
  pub state : ℕ
  pub tail : ℕ
  pub breaks : List ℕ

abbrev pub update : Heap → ℕ → Option LinkMap → Heap
update h p v q = if p == q then v else h q

abbrev pub notify : ℕ → CustomDebug → CustomDebug
notify state s = record s { state = state; breaks = state ∷ s.breaks }

unfoldable pub load : ℕ → Step CustomDebug LinkMap
load p s = elim (s.heap p) [ none ↦ (panicked dangling, s) | some n ↦ (ok n, s) ]

abbrev pub store : ℕ → Option LinkMap → CustomDebug → CustomDebug
store p n s = record s { heap = update s.heap p n }

-- `(*p).l_next = v` and `(*p).l_prev = v`
unfoldable pub set_next : ℕ → ℕ → Step CustomDebug (Unit {0})
unfolding load
set_next p v s = and_then (load p s) (λ n s'. (ok tt, store p (some (record n { l_next = v })) s'))

unfoldable pub set_prev : ℕ → ℕ → Step CustomDebug (Unit {0})
unfolding load
set_prev p v s = and_then (load p s) (λ n s'. (ok tt, store p (some (record n { l_prev = v })) s'))

-- the end of `DebugInfo::new`
abbrev pub announce : ℕ → CustomDebug → CustomDebug
announce fresh s = notify rt_consistent (notify rt_add (record s { tail = fresh }))

-- The new node becomes the first one, or follows the last one.
unfoldable pub attach : Bool → ℕ → Step CustomDebug ℕ
unfolding set_next
attach true fresh s = (ok fresh, announce fresh (record s { map = fresh }))
attach false fresh s = and_then (set_next s.tail fresh s) (λ _ s'. (ok fresh, announce fresh s'))

abbrev pub link_map : ℕ → ℕ → ℕ → ℕ → LinkMap
link_map base name dynamic prev = record {
  l_addr = base;
  l_name = name;
  l_ld = dynamic;
  l_next = 0;
  l_prev = prev;
}

-- `DEBUG.lock().unwrap()` and what follows it; the panic before `init` poisons the mutex.
unfoldable pub new_locked : DebugLock → ℕ → LinkMap → Step CustomDebug ℕ
unfolding attach
new_locked debug_set fresh node s = attach (s.tail == 0) fresh (store fresh (some node) s)
new_locked debug_unset fresh node s = (panicked not_initialised, record s { lock = debug_poisoned })
new_locked debug_poisoned fresh node s = (panicked poisoned, s)

-- `DebugInfo::new`; `fresh` is the address of the new box.
unfoldable pub new : ℕ → ℕ → ℕ → ℕ → Step CustomDebug ℕ
unfolding new_locked
new fresh base name dynamic s = new_locked s.lock fresh (link_map base name dynamic s.tail) s

-- the `match` of `drop`, on whether the node is the first and whether it is the last
unfoldable pub unlink : Bool → Bool → ℕ → Step CustomDebug (Unit {0})
unfolding set_next set_prev
unlink true true a s = (ok tt, record s { map = 0; tail = 0 })
unlink true false a s =
    and_then (load a s) (λ n s1. set_prev n.l_next 0 (record s1 { map = n.l_next }))
unlink false true a s =
    and_then (load a s)
      (λ n s1. and_then (set_next n.l_prev 0 s1) (λ _ s2. (ok tt, record s2 { tail = n.l_prev })))
unlink false false a s =
    and_then (load a s)
      (λ n s1. and_then (set_next n.l_prev n.l_next s1) (λ _ s2. set_prev n.l_next n.l_prev s2))

-- `Drop for DebugInfo`, and the box of the node that is freed after it. There is a node only where
-- `new` has succeeded, and from then on nothing poisons the mutex.
unfoldable pub remove : ℕ → Step CustomDebug (Unit {0})
unfolding unlink
remove a s =
    and_then (unlink (s.map == a) (s.tail == a) a (notify rt_delete s))
      (λ _ s'. (ok tt, store a none (notify rt_consistent s')))
