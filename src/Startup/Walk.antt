-- ===== src/Startup/Walk.antt =====
-- `init` over the link maps of the host.
use dlopen_rs.Startup.Loop.{IsFresh, walk_maps-Walked}
use dlopen_rs.Startup.Nodes.{Hosted-Apart}
use dlopen_rs.Step.{Step, and_then}
use dlopen_rs.Error.{ok, unwrap}
use dlopen_rs.Base.{ap, Option, some, refl, ◌∙◌, length, true, List, ◌≡◌, ℕ, ◌<◌, []}
use dlopen_rs.DebugList.{debug_unset, LinkMap, CustomDebug}
use dlopen_rs.DebugList.Chain.{IsList}
use dlopen_rs.Startup.{
  set_debug, call_once, finish_once, Text, Result, HostLoader, Program, walk_maps, init_body, init,
  take_list, incomplete, complete,
}
use dlopen_rs.Startup.Host.{Hosted, ShowsAll, with_addr, AllReadable, registered}

-- the walk of the first `init`
abbrev first_walk : HostLoader → ℕ → Text → Program → Result (Unit {0}) × Program
first_walk host fuel exe s =
    walk_maps host fuel s.debug.map
      (record s { program_name = some exe; debug = take_list s.debug })

init-eq :
    (host : HostLoader) (fuel : ℕ) (exe : Text) (s : Program)
    → host.current_exe ≡ some exe
    → s.once ≡ incomplete
    → s.debug.lock ≡ debug_unset
    → (first_walk host fuel exe s).0 ≡ ok tt
    → init host fuel s
      ≡ (ok tt, record (first_walk host fuel exe s).1 { has_global_scope = true; once = complete })
unfolding init call_once init_body set_debug
init-eq host fuel exe s named first unlocked ends =
    let walked = first_walk host fuel exe s in
    let set_scope : Unit {0} → Step Program (Unit {0}) =
      λ u s3. (ok tt, record s3 { has_global_scope = true }) in
    let walk : Unit {0} → Step Program (Unit {0}) =
      λ u s2. and_then (walk_maps host fuel s.debug.map s2) set_scope in
    let set_up : Text → Step Program (Unit {0}) = λ name s1.
      and_then (set_debug host s1.debug.lock (record s1 { program_name = some name }))
        (λ u s2. and_then (walk_maps host fuel s1.debug.map s2) set_scope) in
    let body : init_body host fuel s ≡ (ok tt, record walked.1 { has_global_scope = true }) =
      ap (λ (o : Option Text). and_then (unwrap o, s) set_up) named
      ∙ ap (λ l. and_then (set_debug host l (record s { program_name = some exe })) walk) unlocked
      ∙ ap (λ (x : Result (Unit {0})). and_then (x, walked.1) set_scope) ends in
    ap (λ o. call_once host o fuel s) first ∙ ap finish_once body

-- what `init` leaves behind: all libraries of the host are registered, and the debugger's list
-- has a node for each one with a load address, in their order
pub record IsStarted (host : HostLoader) (links : List LinkMap) (r : AllReadable host links)
    (s : Program) (out : Result (Unit {0}) × Program) : Type 0 where
  pub ends : out.0 ≡ ok tt
  pub once : out.1.once ≡ complete
  pub manager : out.1.manager ≡ registered host links r s.manager
  pub xs : List ℕ
  pub list : IsList out.1.debug xs
  pub shows : ShowsAll out.1.debug.heap xs (with_addr links [])

-- The first `init` ends: it registers the libraries of the host one after the other, with
-- RTLD_NODELETE and RTLD_GLOBAL, and the debugger's list is doubly linked and has a node for each
-- library with a load address, in the order of the host. A second `init` changes nothing. (The
-- link maps can be read, a libc has `dl_iterate_phdr`, the allocator's new boxes are not in use,
-- there is more fuel than link maps, and no load before `init` has poisoned `DEBUG`.)
pub init-IsStarted :
    (host : HostLoader) (fuel : ℕ) (exe : Text) (s : Program) (links : List LinkMap)
    (r : AllReadable host links) (IsValid : CustomDebug → Type 0)
    → IsFresh host IsValid
    → IsValid (take_list s.debug)
    → host.current_exe ≡ some exe
    → length links < fuel
    → s.once ≡ incomplete
    → s.debug.lock ≡ debug_unset
    → Hosted s.debug.heap s.debug.map links
    → IsStarted host links r s (init host fuel s)
      × (init host fuel (init host fuel s).1 ≡ (ok tt, (init host fuel s).1))
unfolding init call_once
init-IsStarted host fuel exe s links r IsValid fresh valid named enough first unlocked hosted =
    let s1 = record s { program_name = some exe; debug = take_list s.debug } in
    let w = walk_maps-Walked host IsValid fresh fuel s.debug.map s1 links [] [] r enough (record {
      ready = refl;
      list = record { first = refl; last = refl; linked = tt; distinct = tt };
      shows = tt;
      hosted = hosted;
      apart = Hosted-Apart s.debug.heap s.debug.map links hosted;
      valid = valid;
    }) in
    rw (init-eq host fuel exe s named first unlocked w.ends) (
      record {
        ends = refl;
        once = refl;
        manager = w.manager;
        xs = w.xs;
        list = record {
          first = w.list.first;
          last = w.list.last;
          linked = w.list.linked;
          distinct = w.list.distinct;
        };
        shows = w.shows;
      },
      refl,
    )
