-- ===== src/Tests/Answering.antt =====
-- Openings that follow each other, on the files with short names.
use dlopen_rs.Dlopen.Open.Kept.{IsRestored, IsSteady}
use dlopen_rs.Dlopen.Open.Rollback.{SameLibraries}
use dlopen_rs.Dlopen.Open.Steady.Reachable.{
  dlopen-IsRestored, dlopen-IsLoadedFrom, IsAnswer, Openings, here, next, by_path,
  Openings-IsSteady, dlopen-IsAnswer,
}
use dlopen_rs.Tests.Searching.{
  named_refusing, named_platform, named_platform-IsNaming, named_file, start,
}
use dlopen_rs.Flags.{difference, contains}
use dlopen_rs.Error.{Result}
use dlopen_rs.Dlopen.Open.Prepared.Missing.{LoadsPlain}
use dlopen_rs.Dlopen.Open.Ready.{IsReady}
use dlopen_rs.Dlopen.Open.Complete.{search_loop-IsSearched}
use dlopen_rs.Dlopen.Open.Steady.{start-Going, prepared-IsReady}
use dlopen_rs.Paths.{path_join, search_paths}
use dlopen_rs.Loader.{Dylib, elf_binary, elf_file, from_file}
use dlopen_rs.Dlopen.Open.Reached.{root}
use dlopen_rs.Register.{register, Manager}
use dlopen_rs.Base.IndexMap.{modify, insert, get}
use dlopen_rs.Dlopen.Open.{dlopen_from_binary, search_fuel, resolve_fuel, dlopen, dlopen_impl}
use dlopen_rs.Dlopen.Search.{search_loop}
use dlopen_rs.Dlopen.Resolve.{resolve_loop}
use dlopen_rs.Dlopen.Open.Prepared.Search.{search_loop-Fine}
use dlopen_rs.Dlopen.Walk.{Walk}
use dlopen_rs.Dlopen.Open.Prepared.{IsPlain, AllPlain}
use dlopen_rs.Base.Text.{has_char, starts_with, text_eq, split, codes}
use dlopen_rs.Tests.Sample.{the_dylib, a_core, sample_dylib, sample_file, empty}
use dlopen_rs.Dlopen.Open.Boxed.{dlopen_impl-Boxing, Boxing}
use dlopen_rs.Dlopen.Open.Steady.Loaded.{IsLoadedFrom}
use dlopen_rs.Dlopen.Open.Ready.Loop.{IsCarriedOut, resolve_loop-IsCarriedOut}
use dlopen_rs.Base.{[], refl, subst, inr, ◌≡◌, inl, ◌==◌, ◌∷◌, Bool-cases, ℕ}

sample_file-AllPlain : (fd : ℕ) → AllPlain (sample_file fd).needed_libs
unfolding has_char
sample_file-AllPlain fd = elim (Bool-cases (fd == 1)) [
  | inl t ↦ rw t (refl, (refl, tt))
  | inr t ↦ elim (Bool-cases (fd == 2)) [
    | inl u ↦ rw (t, u) (refl, tt)
    | inr u ↦ rw (t, u) (refl, tt)
  ]
]

named_platform-LoadsPlain : LoadsPlain named_platform
unfolding has_char
named_platform-LoadsPlain (elf_file path fd) lazy lib e =
    let same : sample_dylib (named_file path fd) ≡ lib = cc e in
    subst IsPlain same (record { same = refl; plain = sample_file-AllPlain fd })
named_platform-LoadsPlain (elf_binary path bytes) lazy lib e =
    let same : sample_dylib a_core ≡ lib = cc e in
    subst IsPlain same (record { same = refl; plain = (refl, (refl, tt)) })

empty-IsSteady : IsSteady empty
unfolding get
empty-IsSteady = record { closed = λ name lib e. cc; quiet = λ name lib e. cc }

-- the manager after `c.so` was opened, with all that it needs
abbrev after_c : Manager
after_c = (dlopen named_platform 100 (codes "/lib/c.so") 1 empty).1

opened_c : Openings named_platform empty after_c
opened_c = next here (by_path 100 (codes "/lib/c.so") 1)

Openings-IsSteady_example : IsSteady after_c
Openings-IsSteady_example =
    Openings-IsSteady named_platform named_platform-IsNaming named_platform-LoadsPlain
      empty-IsSteady opened_c

dlopen-IsAnswer_example :
    IsAnswer named_platform (dlopen named_platform 200 (codes "a.so") 1 after_c).0
    × IsAnswer named_platform (dlopen_from_binary named_platform 200 [] (codes "a.so") 1 after_c).0
unfolding dlopen split get from_file text_eq search_loop search_paths path_join starts_with register
    insert resolve_loop modify
dlopen-IsAnswer_example =
    dlopen-IsAnswer named_platform named_platform-IsNaming named_platform-LoadsPlain 200
      (codes "a.so") (codes "a.so") [] 1 empty after_c empty-IsSteady opened_c refl refl

-- `a.so` cannot be relocated.
refusing_c : Openings (named_refusing 1) empty after_c
unfolding dlopen split get from_file text_eq search_loop search_paths path_join starts_with register
    insert resolve_loop modify
refusing_c = next here (by_path 100 (codes "/lib/c.so") 1)

dlopen-IsRestored_example :
    SameLibraries after_c (dlopen (named_refusing 1) 200 (codes "a.so") 257 after_c).1
    × IsRestored after_c
        (Openings-IsSteady
          (named_refusing 1)
          named_platform-IsNaming
          named_platform-LoadsPlain
          empty-IsSteady
          refusing_c)
        (dlopen (named_refusing 1) 200 (codes "a.so") 257 after_c).1.all
unfolding dlopen split get from_file text_eq search_loop search_paths path_join starts_with register
    insert resolve_loop modify contains difference
dlopen-IsRestored_example =
    dlopen-IsRestored (named_refusing 1) named_platform-IsNaming named_platform-LoadsPlain 200
      (codes "a.so") 257 empty after_c empty-IsSteady refusing_c tt

-- the variables after the search for `a.so`
abbrev searched : Walk
searched = (search_loop named_platform 1 (search_fuel empty) 0 start).1

searched-IsReady : IsReady (root ∷ []) searched
unfolding search_loop split get from_file text_eq search_paths path_join starts_with register insert
    modify has_char
searched-IsReady =
    prepared-IsReady empty.all searched
      (search_loop-Fine empty.all named_platform named_platform-IsNaming named_platform-LoadsPlain 1
        (search_fuel empty) 0 start
        (start-Going empty (record { dylib = sample_dylib a_core; flags = 1 }) empty-IsSteady
          (record { same = refl; plain = (refl, (refl, tt)) })))
      (search_loop-IsSearched named_platform 1 a_core start named_platform-IsNaming refl)

resolve_loop-IsCarriedOut_example :
    IsCarriedOut named_platform
      (resolve_loop named_platform (resolve_fuel searched.manager) (root ∷ []) searched)
resolve_loop-IsCarriedOut_example =
    resolve_loop-IsCarriedOut named_platform searched searched-IsReady

-- `a.so`, opened after `c.so`
abbrev opened_second : Result Dylib × Manager
opened_second = dlopen named_platform 200 (codes "a.so") 257 after_c

dlopen-IsLoadedFrom_example :
    IsLoadedFrom 200 257
      (from_file named_platform (codes "a.so") 257)
      (the_dylib opened_second.0)
      opened_second.1
unfolding dlopen split get from_file text_eq search_loop search_paths path_join starts_with register
    insert resolve_loop modify contains difference
dlopen-IsLoadedFrom_example =
    dlopen-IsLoadedFrom named_platform named_platform-IsNaming named_platform-LoadsPlain 200
      (codes "a.so") (codes "a.so") 257 empty after_c opened_second.1 (the_dylib opened_second.0)
      empty-IsSteady opened_c refl refl refl

dlopen_impl-Boxing_example : Boxing after_c.all (
    dlopen_impl named_platform 200
      (codes "a.so")
      257
      (from_file named_platform (codes "a.so") 257)
      after_c)
unfolding dlopen split get from_file text_eq search_loop search_paths path_join starts_with register
    insert resolve_loop modify contains difference
dlopen_impl-Boxing_example =
    dlopen_impl-Boxing named_platform named_platform-IsNaming 200 (codes "a.so") (codes "a.so") 257
      (from_file named_platform (codes "a.so") 257) after_c refl refl
