-- ===== src/Dlopen/Open/Complete.antt =====
-- A search that succeeds has found everything that the queued libraries need.
use dlopen_rs.Base.{
  [], is_some, ◌%◌, ◌^◌, ◌∙◌, sym, ap, subst, true, length, ◌++◌, arith, ltb, Bool-cases, List,
  take, last?, Option, Option-cases, ◌∷◌, refl, get_elem?, ◌≢◌, ℕ, zero, suc, ◌+◌, ◌≡◌, inl, inr,
  some, none,
}
use dlopen_rs.Paths.Component.{path_join-last}
use dlopen_rs.Dlopen.Open.Closure.{
  IsComplete-Onward, IsComplete-append, found-Onward, Onward-refl, take-next, Onward-revisit,
  Finds-path, Post-always, Onward-visit_all, Finds-listed, Post-map, take-whole, Post-and_then,
  IsComplete, IsNaming, Post, Finds, AllFound, Onward,
}
use dlopen_rs.Dlopen.Open.Total.{search-ends}
use dlopen_rs.Dlopen.Open.{search_fuel}
use dlopen_rs.Paths.{search_paths, path_join}
use dlopen_rs.Flags.{OpenFlags}
use dlopen_rs.Register.{entry, register}
use dlopen_rs.Dlopen.Walk.{Walk}
use dlopen_rs.Loader.{
  lazy_bind, elf_file, from_impl, from_open_file, ElfLibrary, CoreComponent, Platform,
}
use dlopen_rs.Dlopen.Search.{
  revisit, try_paths, visit_all, visit, search_loop, find_library, load_file, load_needed,
  add_library,
}
use dlopen_rs.Base.IndexMap.{insert, get, get-insert}
use dlopen_rs.Base.Text.{has_char, split, Text, text_eq_refl}
use dlopen_rs.Error.{Result, Foreign-cases, Called-cases, ok, err, panicked, out_of_fuel}

add_library-Finds :
    (flags : OpenFlags) (lib : ElfLibrary) (w : Walk)
    → Post (Finds lib.dylib.core_component.shortname) (add_library flags lib w)
unfolding add_library register
add_library-Finds flags lib w = elim (Bool-cases (ltb (length w.new_libs) 255)) [
  | inl t ↦
      let core = lib.dylib.core_component in
      let e = entry core flags none true (some (length w.new_libs % 2 ^ 8)) in
      let listed : is_some (get core.shortname (insert core.shortname e w.manager.all)) ≡ true =
        rw
          (get-insert core.shortname core.shortname e w.manager.all, text_eq_refl core.shortname) in
      rw t (rw listed (ground arith))
  | inr t ↦ rw t tt
]

next-IsComplete :
    (n : ℕ) (w w1 : Walk) (core : CoreComponent)
    → get_elem? w.dep_libs n ≡ some core
    → IsComplete w.manager.all (take n w.dep_libs)
    → Onward w w1 × AllFound w1.manager.all core.needed_libs
    → IsComplete w1.manager.all (take (n + 1) w1.dep_libs)
next-IsComplete n w w1 core e h (o, new) =
    let (rest, q) = o.queue in
    let one : suc n ≡ n + 1 = omega arith in
    let front : take n w.dep_libs ++ core ∷ [] ≡ take (n + 1) w1.dep_libs =
      sym (take-next w.dep_libs rest n core e)
      ∙ ap (take (suc n)) (sym q)
      ∙ ap (λ k. take k w1.dep_libs) one in
    subst (IsComplete w1.manager.all) front (
      IsComplete-append w1.manager.all (take n w.dep_libs) core
        (IsComplete-Onward (take n w.dep_libs) w w1 o h) new)

module _ (p : Platform) (naming : IsNaming p) (flags : OpenFlags) where
  add_named :
      (path name : Text) (lib : ElfLibrary) (w : Walk)
      → last? (split b'/' (path_join path name)) ≡ some lib.dylib.core_component.shortname
      → Post (Finds name) (add_library flags lib w)
  add_named path name lib w e = elim (Bool-cases (has_char b'/' name)) [
    | inl t ↦ Post-always (Finds name) (add_library flags lib w) (λ w'. Finds-path name w' t)
    | inr t ↦
        let same : lib.dylib.core_component.shortname ≡ name = cc (e, path_join-last path name t) in
        subst (λ k. Post (Finds k) (add_library flags lib w)) same (add_library-Finds flags lib w)
  ]

  load_file-Finds :
      (file : ℕ) (path name : Text) (w : Walk)
      → Post (Finds name) (load_file p flags file (path_join path name) w)
  unfolding load_file from_open_file from_impl
  load_file-Finds file path name w =
      elim (Called-cases (p.load_dylib (elf_file (path_join path name) file) (lazy_bind flags))) [
        | inl (lib, e) ↦ rw e (
            add_named path name (record { dylib = lib; flags = flags }) w
              (naming (path_join path name) file (lazy_bind flags) lib e))
        | inr (inl (failed, e)) ↦ rw e tt
        | inr (inr (q, e)) ↦ rw e tt
      ]

  try_paths-Finds :
      (name : Text) (paths : List Text) (w : Walk)
      → Post (Finds name) (try_paths p flags name paths w)
  unfolding try_paths
  try_paths-Finds name [] w = tt
  try_paths-Finds name (path ∷ paths) w = elim (Foreign-cases (p.open_file (path_join path name))) [
    | inl (file, e) ↦ rw (e, try_paths) (load_file-Finds file path name w)
    | inr (failed, e) ↦ rw (e, try_paths) (try_paths-Finds name paths w)
  ]

  find_library-Finds :
      (pos : ℕ) (name : Text) (w : Walk) → Post (Finds name) (find_library p flags pos name w)
  unfolding find_library
  find_library-Finds pos name w = elim (Option-cases (get_elem? w.rpath_vec pos)) [
    | inl e ↦ rw (e, find_library) tt
    | inr (rpath, e) ↦ rw (e, find_library) (try_paths-Finds name (search_paths p rpath) w)
  ]

  load_needed-Finds :
      (name : Text) (cur : Option ℕ) (w : Walk) → Post (Finds name) (load_needed p flags name cur w)
  unfolding load_needed
  load_needed-Finds name (some pos) w =
      Post-and_then (Finds name) (Finds name) (find_library p flags pos name w) _
        (find_library-Finds pos name w) (λ _ w' h. h)
  load_needed-Finds name none w =
      let w0 = record w { cur_rpath_pos = w.cur_rpath_pos + 1 } in
      Post-and_then (Finds name) (Finds name) (find_library p flags w.cur_rpath_pos name w0) _
        (find_library-Finds w.cur_rpath_pos name w0) (λ _ w' h. h)

  visit-Finds :
      (name : Text) (cur : Option ℕ) (w : Walk) → Post (Finds name) (visit p flags name cur w)
  unfolding visit
  visit-Finds name cur w = elim (Option-cases (get name w.manager.all)) [
    | inl e ↦ rw (e, visit) (load_needed-Finds name cur w)
    | inr (lib, e) ↦
        rw (e, visit)
          (Finds-listed name (revisit flags name lib w)
            ((Onward-revisit w flags name lib w (Onward-refl w)).kept name (rw e)))
  ]

  visit_all-AllFound :
      (names : List Text) (cur : Option ℕ) (w : Walk)
      → Post (λ w'. AllFound w'.manager.all names) (visit_all p flags names cur w)
  unfolding visit_all
  visit_all-AllFound [] cur w = tt
  visit_all-AllFound (name ∷ names) cur w =
      let Q = λ (w' : Walk). AllFound w'.manager.all (name ∷ names) in
      Post-and_then (Finds name) Q (visit p flags name cur w) _ (visit-Finds name cur w)
        (λ next w1 h.
          Post-map (Onward w1) (λ w'. AllFound w'.manager.all names) Q
            (visit_all p flags names next w1)
            (Onward-visit_all w1 p flags names next w1 (Onward-refl w1))
            (visit_all-AllFound names next w1) (λ w2 o rest. (found-Onward name w1 w2 o h, rest)))

  Closed : Walk → Type 0
  Closed w = IsComplete w.manager.all w.dep_libs

  search_loop-Closed :
      (fuel pos : ℕ) (w : Walk)
      → IsComplete w.manager.all (take pos w.dep_libs)
      → Post Closed (search_loop p flags fuel pos w)
  unfolding search_loop Closed
  search_loop-Closed zero pos w h = tt
  search_loop-Closed (suc fuel) pos w h = elim (Option-cases (get_elem? w.dep_libs pos)) [
    | inl e ↦ rw (e, search_loop) (subst (IsComplete w.manager.all) (take-whole w.dep_libs pos e) h)
    | inr (core, e) ↦
        let names = core.needed_libs in
        let R = λ (w1 : Walk). Onward w w1 × AllFound w1.manager.all names in
        rw (e, search_loop)
          (Post-and_then R Closed (visit_all p flags names none w) _
            (Post-map (Onward w) (λ w1. AllFound w1.manager.all names) R
              (visit_all p flags names none w)
              (Onward-visit_all w p flags names none w (Onward-refl w))
              (visit_all-AllFound names none w) (λ w1 o a. (o, a)))
            (λ _ w1 h1.
              search_loop-Closed fuel (pos + 1) w1 (next-IsComplete pos w w1 core e h h1)))
  ]

-- How a search may end: with every needed plain name registered, or with an error.
abbrev pub IsSearched : Result (Unit {0}) × Walk → Type 0
IsSearched (ok u, w) = IsComplete w.manager.all w.dep_libs
IsSearched (err e, w) = Unit {0}
IsSearched (panicked e, w) = Unit {0}
IsSearched (out_of_fuel, w) = ⊥

searched :
    (out : Result (Unit {0}) × Walk)
    → out.0 ≢ out_of_fuel
    → Post (λ w. IsComplete w.manager.all w.dep_libs) out
    → IsSearched out
searched (ok u, w) ends h = h
searched (err e, w) ends h = tt
searched (panicked e, w) ends h = tt
searched (out_of_fuel, w) ends h = absurd (ends refl)

-- The search of `dlopen_impl` ends. If it succeeds, every library in the queue, so every direct
-- and indirect dependency of the opened library, has all that it needs registered. (The queue
-- starts with the opened library alone. The short
-- name of a library from a file is the last component of the path; a needed name with a slash is
-- left out.)
pub search_loop-IsSearched :
    (p : Platform) (flags : OpenFlags) (core : CoreComponent) (w : Walk)
    → IsNaming p
    → w.dep_libs ≡ core ∷ []
    → IsSearched (search_loop p flags (search_fuel w.manager) 0 w)
unfolding Closed
search_loop-IsSearched p flags core w naming start =
    searched (search_loop p flags (search_fuel w.manager) 0 w) (search-ends p 0 flags core w start)
      (search_loop-Closed p naming flags (search_fuel w.manager) 0 w tt)
