-- ===== src/Register/World.antt =====
-- `Drop for Dylib` of src/register.rs, over the owners of each handle.
use dlopen_rs.Base.{
  ℕ, ◌+◌, Bool, false, List, [], ◌∷◌, Option, none, some, is_some, to_nat, drop, if◌then◌else◌,
  ◌==◌, ◌||◌,
}
use dlopen_rs.Base.Text.{Text}
use dlopen_rs.Base.IndexMap.{IndexMap, get, shift_remove, values}
use dlopen_rs.Error.{ok, panicked, unwrap_none}
use dlopen_rs.Step.{Step}
use dlopen_rs.Flags.{OpenFlags, contains, rtld_global, rtld_nodelete, custom_not_register}
use dlopen_rs.Loader.{CoreComponent, Deps, Dylib}
use dlopen_rs.Register.{GlobalDylib, Manager}

-- All that holds a handle: the manager, the `Dylib` values of the program, and the boxes that the
-- C interface handed out. `finis` records the calls of `call_fini`, the last one first.
pub record World : Type 0 where
  pub manager : Manager
  pub dylibs : List Dylib
  pub handles : List Deps
  pub finis : List CoreComponent

abbrev pub count_core : CoreComponent → List CoreComponent → ℕ
count_core core [] = 0
count_core core (c ∷ cs) = to_nat (c.addr == core.addr) + count_core core cs

abbrev pub entry_cores : IndexMap GlobalDylib → List CoreComponent
entry_cores [] = []
entry_cores ((k, lib) ∷ m) = lib.inner ∷ entry_cores m

abbrev pub dylib_cores : List Dylib → List CoreComponent
dylib_cores [] = []
dylib_cores (d ∷ ds) = d.inner ∷ dylib_cores ds

-- One owner of a box more: it counts only if the box is new.
abbrev pub has_box : Deps → List Deps → Bool
has_box b [] = false
has_box b (c ∷ cs) = (c.addr == b.addr) || has_box b cs

abbrev pub add_box : Option Deps → List Deps → List Deps
add_box none bs = bs
add_box (some b) bs = if has_box b bs then bs else b ∷ bs

abbrev pub handle_boxes : List Deps → List Deps
handle_boxes [] = []
handle_boxes (b ∷ bs) = add_box (some b) (handle_boxes bs)

abbrev pub entry_boxes : IndexMap GlobalDylib → List Deps → List Deps
entry_boxes [] bs = bs
entry_boxes ((k, lib) ∷ m) bs = add_box lib.deps (entry_boxes m bs)

abbrev pub dylib_boxes : List Dylib → List Deps → List Deps
dylib_boxes [] bs = bs
dylib_boxes (d ∷ ds) bs = add_box d.deps (dylib_boxes ds bs)

-- The boxes that are alive, each once: an `Arc` has one box however many own it.
unfoldable pub live_boxes : World → List Deps
live_boxes w = dylib_boxes w.dylibs (entry_boxes w.manager.all (handle_boxes w.handles))

abbrev pub count_boxes : CoreComponent → List Deps → ℕ
count_boxes core [] = 0
count_boxes core (b ∷ bs) = count_core core b.items + count_boxes core bs

-- `core.strong_count()`
unfoldable pub strong_count : World → CoreComponent → ℕ
strong_count w core =
    count_core core (dylib_cores w.dylibs)
    + count_core core (entry_cores w.manager.all)
    + count_core core (values w.manager.global)
    + count_boxes core (live_boxes w)

-- the handles that a library has if the program holds one `Dylib` of it
abbrev pub threshold : Option Deps → OpenFlags → ℕ
threshold deps flags = 2 + to_nat (is_some deps) + to_nat (contains flags rtld_global)

abbrev pub call_fini : CoreComponent → World → World
call_fini core w = record w { finis = core ∷ w.finis }

abbrev pub remove_all : Text → World → World
remove_all name w = record w {
  manager = record w.manager { all = shift_remove name w.manager.all };
}

abbrev pub remove_global : Text → World → World
remove_global name w = record w {
  manager = record w.manager { global = shift_remove name w.manager.global };
}

-- one dependency in the loop of `drop`
unfoldable pub drop_dep : CoreComponent → CoreComponent → World → World
unfolding strong_count
drop_dep self dep w = elim (get dep.shortname w.manager.all) [
  | none ↦ w
  | some lib ↦
      if contains lib.flags rtld_nodelete
      then w
      else if strong_count w dep == threshold lib.deps lib.flags
      then remove_global self.shortname (remove_all dep.shortname (call_fini dep w))
      else w
]

unfoldable pub drop_deps : CoreComponent → List CoreComponent → World → World
unfolding drop_dep
drop_deps self [] w = w
drop_deps self (dep ∷ deps) w = drop_deps self deps (drop_dep self dep w)

-- the removal of the library itself
abbrev pub unlist : Dylib → World → World
unlist d w =
    let removed = remove_all d.inner.shortname (call_fini d.inner w) in
    if contains d.flags rtld_global then remove_global d.inner.shortname removed else removed

-- the loop over `self.deps.as_ref().unwrap().iter().skip(1)`
unfoldable pub drop_others : Dylib → Option Deps → Step World (Unit {0})
unfolding drop_deps
drop_others d none w = (panicked unwrap_none, w)
drop_others d (some deps) w = (ok tt, drop_deps d.inner (drop 1 deps.items) w)

-- the branch for the last `Dylib` of a library
unfoldable pub destroy : Dylib → Step World (Unit {0})
unfolding drop_others
destroy d w = drop_others d d.deps (unlist d w)

-- `drop(&mut self)`, while `d` is one of the `dylibs`
unfoldable pub drop_body : Dylib → Step World (Unit {0})
unfolding destroy
drop_body d w =
    if contains d.flags rtld_nodelete
    then (ok tt, w)
    else if contains d.flags custom_not_register
    then (ok tt, call_fini d.inner w)
    else if strong_count w d.inner == threshold d.deps d.flags
    then destroy d w
    else (ok tt, w)

-- A `Dylib` goes out of scope: `w` holds the others. Its fields are dropped after the body.
unfoldable pub drop_dylib : Dylib → Step World (Unit {0})
unfolding drop_body
drop_dylib d w =
    let (result, w') = drop_body d (record w { dylibs = d ∷ w.dylibs }) in
    (result, record w' { dylibs = w.dylibs })
