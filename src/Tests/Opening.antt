-- ===== src/Tests/Opening.antt =====
-- `dlopen` on the sample files.
use dlopen_rs.Dlopen.Open.Reached.{resolve_loop-IsResolved, root, IsResolved}
use dlopen_rs.Base.IndexMap.{modify, insert, get, keys}
use dlopen_rs.Dlopen.Resolve.{resolve_loop}
use dlopen_rs.Paths.{path_join, search_paths}
use dlopen_rs.Dlopen.Open.Total.{dlopen-ends}
use dlopen_rs.Dlopen.Open.Reopen.{dlopen_impl-dlopen_impl}
use dlopen_rs.Error.{out_of_fuel, index_out_of_bounds, panicked, ok, Result}
use dlopen_rs.Dlopen.Resolve.Once.{resolve_loop-IsOnce, IsOnce}
use dlopen_rs.Base.Text.{starts_with, split, text_eq, codes}
use dlopen_rs.Dlopen.Search.{search_loop}
use dlopen_rs.Register.{register, entry, GlobalDylib, Manager}
use dlopen_rs.Base.{
  true, is_some, inr, false, refl, subst, inl, none, some, [], ◌≢◌, ◌∷◌, ◌≡◌, Bool-cases, ℕ,
}
use dlopen_rs.Loader.{ElfLibrary, from_file, CoreComponent}
use dlopen_rs.Flags.{difference, contains}
use dlopen_rs.Dlopen.Open.Promotion.{dlopen_impl-promotion_panics}
use dlopen_rs.Dlopen.Open.Listed.{AllListed, IsClosed}
use dlopen_rs.Dlopen.Open.{resolve_fuel, dlopen_from_binary, dlopen, dlopen_impl}
use dlopen_rs.Dlopen.Walk.{start_walk, Walk}
use dlopen_rs.Tests.Sample.{
  sample_dylib, c_core, b_core, a_core, sample_platform, empty, opened_a, the_dylib,
}

-- The libraries that need each other are relocated before `a.so`, each once.
opened_a-keys : keys (opened_a 1).1.all ≡ codes "b.so" ∷ codes "c.so" ∷ codes "a.so" ∷ []
unfolding opened_a split get from_file text_eq search_loop search_paths path_join starts_with
    register insert resolve_loop modify
opened_a-keys = refl

dlopen-ends_example :
    ((dlopen (sample_platform 0) 100 (codes "a.so") 1 empty).0 ≢ out_of_fuel)
    × ((dlopen_from_binary (sample_platform 0) 100 [] (codes "a.so") 1 empty).0 ≢ out_of_fuel)
dlopen-ends_example = dlopen-ends (sample_platform 0) 100 (codes "a.so") [] 1 empty

-- `c.so` is open, and `a.so` cannot be relocated.
abbrev with_c : Manager
with_c = (dlopen (sample_platform 0) 100 (codes "/lib/c.so") 1 empty).1

abbrev file_a : ℕ → Result ElfLibrary
file_a bad = from_file (sample_platform bad) (codes "a.so") 1

dlopen_impl-dlopen_impl_example :
    dlopen_impl (sample_platform 0) 200 (codes "/lib/a.so") 2 (file_a 3) (opened_a 1).1
    ≡ (ok (the_dylib (opened_a 1).0), (opened_a 1).1)
unfolding dlopen dlopen_impl opened_a split get from_file text_eq search_loop search_paths path_join
    starts_with register insert resolve_loop modify contains difference
dlopen_impl-dlopen_impl_example =
    dlopen_impl-dlopen_impl (sample_platform 0) 100 200 (codes "a.so") (codes "/lib/a.so") 1 2
      (file_a 0) (file_a 3) empty (opened_a 1).1 (the_dylib (opened_a 1).0) refl refl refl refl

-- two libraries that were loaded as dependencies
abbrev dependency : CoreComponent → GlobalDylib
dependency core = entry core 1 none false none

abbrev with_b : Manager
with_b = record {
  all = (codes "b.so", dependency b_core) ∷ (codes "c.so", dependency c_core) ∷ [];
  global = [];
}

c_listed : is_some (get (codes "c.so") with_b.all) ≡ true
unfolding get text_eq
c_listed = refl

b_listed : is_some (get (codes "b.so") with_b.all) ≡ true
unfolding get text_eq
b_listed = refl

with_b-IsClosed : IsClosed with_b.all
unfolding get
with_b-IsClosed name lib e = elim (Bool-cases (text_eq (codes "b.so") name)) [
  | inl t ↦
      let same : dependency b_core ≡ lib = cc (rw t at e) in
      subst (λ (l : GlobalDylib). AllListed with_b.all l.inner.needed_libs) same (c_listed, tt)
  | inr t ↦ elim (Bool-cases (text_eq (codes "c.so") name)) [
    | inl u ↦
        let same : dependency c_core ≡ lib = cc (rw (t, u) at e) in
        subst (λ (l : GlobalDylib). AllListed with_b.all l.inner.needed_libs) same (b_listed, tt)
    | inr u ↦ cc (rw (t, u) at e)
  ]
]

dlopen_impl-promotion_panics_example :
    (dlopen_impl (sample_platform 0) 100 (codes "/lib/b.so") 1 (file_a 0) with_b).0
    ≡ panicked index_out_of_bounds
unfolding split get text_eq contains difference
dlopen_impl-promotion_panics_example =
    dlopen_impl-promotion_panics (sample_platform 0) 100 (codes "/lib/b.so") (codes "b.so") 1
      (file_a 0) with_b (dependency b_core) refl refl refl with_b-IsClosed

-- the variables after the search for `a.so`
abbrev searched : Walk
searched =
    (search_loop (sample_platform 0) 1 257 0 (
      start_walk a_core (some (record { dylib = sample_dylib a_core; flags = 1 }) ∷ []) ([] ∷ [])
        empty)).1

resolve_loop-IsOnce_example :
    IsOnce searched.new_libs
      (resolve_loop (sample_platform 0) 10 (record { idx = 0; next = 0 } ∷ []) searched).1
unfolding search_loop split get from_file text_eq search_paths path_join starts_with register insert
    modify
resolve_loop-IsOnce_example =
    resolve_loop-IsOnce (sample_platform 0) 10 (record { idx = 0; next = 0 } ∷ []) searched refl

resolve_loop-IsResolved_example :
    IsResolved searched
      (resolve_loop (sample_platform 0) (resolve_fuel searched.manager) (root ∷ []) searched)
unfolding search_loop split get from_file text_eq search_paths path_join starts_with register insert
    modify
resolve_loop-IsResolved_example = resolve_loop-IsResolved (sample_platform 0) searched refl
