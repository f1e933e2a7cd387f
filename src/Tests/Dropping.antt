-- ===== src/Tests/Dropping.antt =====
-- Dropping the sample libraries.
use dlopen_rs.Dlopen.Resolve.{resolve_loop}
use dlopen_rs.Dlopen.Search.{search_loop}
use dlopen_rs.Paths.{path_join, search_paths}
use dlopen_rs.Register.Unload.{drop_dylib-IsShared}
use dlopen_rs.Register.Last.{drop_dylib-IsLast, IsGone}
use dlopen_rs.Error.{ok}
use dlopen_rs.Register.Frame.{drop_dylib-global, drop_dylib-nodelete}
use dlopen_rs.Flags.{rtld_nodelete, contains}
use dlopen_rs.Base.Text.{Text, starts_with, split, text_eq, codes}
use dlopen_rs.Register.World.{live_boxes, drop_dylib, World}
use dlopen_rs.Base.{
  get_elem?, get_or_else, inl, arith, true, none, ap, false, refl, some, ◌∷◌, [], ◌≢◌, ◌≡◌, List,
}
use dlopen_rs.Loader.{from_file, Dylib, Deps}
use dlopen_rs.Base.IndexMap.{shift_remove, modify, insert, keys, get}
use dlopen_rs.Register.{register, entry, GlobalDylib}
use dlopen_rs.Tests.Sample.{c_core, opened_a, the_dylib}

-- `c.so` with RTLD_GLOBAL, in its own box
abbrev pub c_box : Deps
c_box = record { addr = 100; items = c_core ∷ [] }

abbrev pub c_dylib : Dylib
c_dylib = record { inner = c_core; flags = 257; deps = some c_box }

abbrev pub world : List Dylib → World
world dylibs = record {
  manager = record {
    all = (codes "c.so", entry c_core 257 (some c_box) false none) ∷ [];
    global = (codes "c.so", c_core) ∷ [];
  };
  dylibs = dylibs;
  handles = [];
  finis = [];
}

-- the program holds a second `Dylib`
drop_dylib-IsShared_example :
    drop_dylib c_dylib (world (c_dylib ∷ [])) ≡ (ok tt, world (c_dylib ∷ []))
unfolding contains live_boxes
drop_dylib-IsShared_example =
    drop_dylib-IsShared c_dylib (world (c_dylib ∷ [])) refl
      (record {
        listed = omega arith;
        exported = λ _. omega arith;
        box = (c_box, refl, omega arith, (λ _. refl, tt));
      })
      (inl (omega arith))

drop_dylib-IsLast_example :
    ((drop_dylib c_dylib (world [])).0 ≡ ok tt)
    × IsGone c_dylib (world []) (drop_dylib c_dylib (world [])).1
unfolding contains live_boxes
drop_dylib-IsLast_example =
    drop_dylib-IsLast c_dylib (world []) refl refl
      (record { others = refl; listed = refl; exported = refl; boxed = refl; box = (c_box, refl) })

-- `a.so` and its dependencies, opened with RTLD_GLOBAL
abbrev opened : World
opened = record { manager = (opened_a 257).1; dylibs = []; handles = []; finis = [] }

abbrev a_dylib : Dylib
a_dylib = the_dylib (opened_a 257).0

-- `b.so` is unloaded, and stays global.
dropped-all : keys (drop_dylib a_dylib opened).1.manager.all ≡ []
unfolding opened_a split get from_file text_eq search_loop search_paths path_join starts_with
    register insert resolve_loop modify drop_dylib contains live_boxes shift_remove
dropped-all = refl

b-ne-a : codes "b.so" ≢ codes "a.so"
b-ne-a e = omega (arith, ap (λ t. get_or_else (get_elem? t 0) 0) e)

drop_dylib-global_example :
    get (codes "b.so") (drop_dylib a_dylib opened).1.manager.global
    ≡ get (codes "b.so") opened.manager.global
unfolding opened_a split get from_file text_eq search_loop search_paths path_join starts_with
    register insert resolve_loop modify contains
drop_dylib-global_example = drop_dylib-global a_dylib opened (codes "b.so") b-ne-a

-- the same with RTLD_NODELETE on `c.so`
abbrev nodelete : GlobalDylib
nodelete = entry c_core 4096 none false none

abbrev pinned : World
pinned = record opened {
  manager = record opened.manager { all = (codes "c.so", nodelete) ∷ opened.manager.all };
}

c-ne-a : codes "c.so" ≡ codes "a.so" → contains 257 rtld_nodelete ≡ true
c-ne-a e = absurd (omega (arith, ap (λ (t : Text). get_or_else (get_elem? t 0) 0) e))

drop_dylib-nodelete_example :
    get (codes "c.so") (drop_dylib a_dylib pinned).1.manager.all ≡ some nodelete
unfolding opened_a split get from_file text_eq search_loop search_paths path_join starts_with
    register insert resolve_loop modify contains
drop_dylib-nodelete_example =
    drop_dylib-nodelete a_dylib pinned (codes "c.so") nodelete refl refl c-ne-a
