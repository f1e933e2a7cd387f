-- ===== src/Dlopen/Search/Cover.antt =====
-- What the visit of a name gives holds for every name that a queued library needs.
use dlopen_rs.Error.{Result, Called-cases}
use dlopen_rs.Register.{GlobalDylib}
use dlopen_rs.Dlopen.Search.{
  try_paths, from_open_file, load_needed, search_loop, visit_all, visit, find_library, load_file,
  revisit, get, add_library,
}
use dlopen_rs.Dlopen.Walk.{Walk}
use dlopen_rs.Base.Text.{split, has_char, Text}
use dlopen_rs.Flags.{OpenFlags}
use dlopen_rs.Loader.{
  CoreComponent, ElfLibrary, Platform, from_impl, from_open_file, lazy_bind, elf_file,
}
use dlopen_rs.Dlopen.Open.Closure.{
  IsNaming, Onward, Onward-refl, Onward-visit_all, Post, Post-and_then, Post-map, Post-always,
  take-whole, take-next,
}
use dlopen_rs.Dlopen.Search.Rule.{visit_all-rule}
use dlopen_rs.Paths.Component.{path_join-last}
use dlopen_rs.Dlopen.Search.First.{Finding, try_paths-Finding}
use dlopen_rs.Paths.{path_join, search_paths}
use dlopen_rs.Dlopen.Resolve.Descent.{InNames}
use dlopen_rs.Base.{
  inl, inr, Bool-cases, [], none, some, suc, zero, Option-cases, get_elem?, take, ◌+◌, sym, ◌∙◌, ap,
  arith, subst, ◌++◌, ◌∷◌, Option, List, last?, true, ◌≡◌, ℕ,
}

module _ (F : Text → Walk → Type 0) where
  abbrev pub AllOf : List Text → Walk → Type 0
  AllOf [] w = Unit {0}
  AllOf (name ∷ names) w = F name w × AllOf names w

  abbrev pub Covered : List CoreComponent → Walk → Type 0
  Covered [] w = Unit {0}
  Covered (core ∷ cores) w = AllOf core.needed_libs w × Covered cores w

  AllOf-name :
      (name : Text) (names : List Text) (w : Walk) → InNames name names → AllOf names w → F name w
  AllOf-name name [] w inside h = absurd inside
  AllOf-name name (n ∷ names) w (inl same) h = subst (λ k. F k w) (sym same) h.0
  AllOf-name name (n ∷ names) w (inr deeper) h = AllOf-name name names w deeper h.1

  -- A name that a covered library needs.
  pub Covered-name :
      (cores : List CoreComponent) (j : ℕ) (core : CoreComponent) (name : Text) (w : Walk)
      → Covered cores w
      → get_elem? cores j ≡ some core
      → InNames name core.needed_libs
      → F name w
  Covered-name [] j core name w h e inside = cc e
  Covered-name (c ∷ cores) zero core name w h e inside =
      let same : c ≡ core = cc e in
      AllOf-name name core.needed_libs w inside
        (subst (λ (x : CoreComponent). AllOf x.needed_libs w) same h.0)
  Covered-name (c ∷ cores) (suc j) core name w h e inside =
      Covered-name cores j core name w h.1 e inside

module _ (p : Platform) (naming : IsNaming p) (flags : OpenFlags) (F : Text → Walk → Type 0)
    (by_path : (name : Text) (w : Walk) → has_char b'/' name ≡ true → F name w)
    (by_add : (lib : ElfLibrary) (w : Walk)
      → Post (F lib.dylib.core_component.shortname) (add_library flags lib w))
    (by_visit : (name : Text) (lib : GlobalDylib) (w : Walk)
      → get name w.manager.all ≡ some lib
      → F name (revisit flags name lib w))
    (keep_revisit : (k name : Text) (lib : GlobalDylib) (w : Walk)
      → get name w.manager.all ≡ some lib
      → F k w
      → F k (revisit flags name lib w))
    (keep_add : (k : Text) (lib : ElfLibrary) (w : Walk) → F k w → F k (add_library flags lib w).1)
    (keep_pos : (k : Text) (w : Walk)
      → F k w
      → F k (record w { cur_rpath_pos = w.cur_rpath_pos + 1 })) where
  abbrev Grows : Walk → Walk → Type 0
  Grows w w' = (k : Text) → F k w → F k w'

  AllOf-Grows : (names : List Text) (w w' : Walk) → Grows w w' → AllOf F names w → AllOf F names w'
  AllOf-Grows [] w w' g h = tt
  AllOf-Grows (name ∷ names) w w' g h = (g name h.0, AllOf-Grows names w w' g h.1)

  Covered-Grows :
      (cores : List CoreComponent) (w w' : Walk)
      → Grows w w'
      → Covered F cores w
      → Covered F cores w'
  Covered-Grows [] w w' g h = tt
  Covered-Grows (core ∷ cores) w w' g h =
      (AllOf-Grows core.needed_libs w w' g h.0, Covered-Grows cores w w' g h.1)

  Covered-append :
      (cores : List CoreComponent) (core : CoreComponent) (w : Walk)
      → Covered F cores w
      → AllOf F core.needed_libs w
      → Covered F (cores ++ core ∷ []) w
  Covered-append [] core w h new = (new, tt)
  Covered-append (c ∷ cores) core w h new = (h.0, Covered-append cores core w h.1 new)

  visit_all-Grows :
      (names : List Text) (cur : Option ℕ) (w : Walk) → Grows w (visit_all p flags names cur w).1
  visit_all-Grows names cur w k h =
      visit_all-rule p flags (F k) (keep_revisit k) (keep_add k) (keep_pos k) names cur w h

  add_named :
      (path name : Text) (lib : ElfLibrary) (w : Walk)
      → last? (split b'/' (path_join path name)) ≡ some lib.dylib.core_component.shortname
      → Post (F name) (add_library flags lib w)
  add_named path name lib w e = elim (Bool-cases (has_char b'/' name)) [
    | inl t ↦ Post-always (F name) (add_library flags lib w) (λ w'. by_path name w' t)
    | inr t ↦
        let same : lib.dylib.core_component.shortname ≡ name = cc (e, path_join-last path name t) in
        subst (λ k. Post (F k) (add_library flags lib w)) same (by_add lib w)
  ]

  load_file-Post :
      (file : ℕ) (path name : Text) (w : Walk)
      → Post (F name) (load_file p flags file (path_join path name) w)
  unfolding load_file from_open_file from_impl
  load_file-Post file path name w =
      elim (Called-cases (p.load_dylib (elf_file (path_join path name) file) (lazy_bind flags))) [
        | inl (lib, e) ↦ rw e (
            add_named path name (record { dylib = lib; flags = flags }) w
              (naming (path_join path name) file (lazy_bind flags) lib e))
        | inr (inl (failed, e)) ↦ rw e tt
        | inr (inr (q, e)) ↦ rw e tt
      ]

  loaded-Post :
      (name : Text) (w : Walk) (paths : List Text) (out : Result (Unit {0}) × Walk)
      → Finding p flags name w paths out
      → Post (F name) out
  loaded-Post name w paths out (inl (missed, same)) = subst (Post (F name)) (sym same) tt
  loaded-Post name w paths out (inr (path, file, first, same)) =
      subst (Post (F name)) (sym same) (load_file-Post file path name w)

  find_library-Post :
      (pos : ℕ) (name : Text) (w : Walk) → Post (F name) (find_library p flags pos name w)
  unfolding find_library
  find_library-Post pos name w = elim (Option-cases (get_elem? w.rpath_vec pos)) [
    | inl e ↦ rw (e, find_library) tt
    | inr (rpath, e) ↦
        rw (e, find_library)
          (loaded-Post name w (search_paths p rpath)
            (try_paths p flags name (search_paths p rpath) w)
            (try_paths-Finding p flags name w (search_paths p rpath)))
  ]

  load_needed-Post :
      (name : Text) (cur : Option ℕ) (w : Walk) → Post (F name) (load_needed p flags name cur w)
  unfolding load_needed
  load_needed-Post name (some pos) w =
      Post-and_then (F name) (F name) (find_library p flags pos name w) _
        (find_library-Post pos name w) (λ _ w' h. h)
  load_needed-Post name none w =
      let w0 = record w { cur_rpath_pos = w.cur_rpath_pos + 1 } in
      Post-and_then (F name) (F name) (find_library p flags w.cur_rpath_pos name w0) _
        (find_library-Post w.cur_rpath_pos name w0) (λ _ w' h. h)

  visit-Post : (name : Text) (cur : Option ℕ) (w : Walk) → Post (F name) (visit p flags name cur w)
  unfolding visit
  visit-Post name cur w = elim (Option-cases (get name w.manager.all)) [
    | inl e ↦ rw (e, visit) (load_needed-Post name cur w)
    | inr (lib, e) ↦ rw (e, visit) (by_visit name lib w e)
  ]

  visit_all-AllOf :
      (names : List Text) (cur : Option ℕ) (w : Walk)
      → Post (AllOf F names) (visit_all p flags names cur w)
  unfolding visit_all
  visit_all-AllOf [] cur w = tt
  visit_all-AllOf (name ∷ names) cur w =
      Post-and_then (F name) (AllOf F (name ∷ names)) (visit p flags name cur w) _
        (visit-Post name cur w)
        (λ next w1 h.
          Post-map (Grows w1) (AllOf F names) (AllOf F (name ∷ names))
            (visit_all p flags names next w1) (visit_all-Grows names next w1)
            (visit_all-AllOf names next w1) (λ w2 g rest. (g name h, rest)))

  next-Covered :
      (n : ℕ) (w w1 : Walk) (core : CoreComponent)
      → get_elem? w.dep_libs n ≡ some core
      → Covered F (take n w.dep_libs) w
      → (Onward w w1 × Grows w w1) × AllOf F core.needed_libs w1
      → Covered F (take (n + 1) w1.dep_libs) w1
  next-Covered n w w1 core e h ((o, g), new) =
      let (rest, q) = o.queue in
      let one : suc n ≡ n + 1 = omega arith in
      let front : take n w.dep_libs ++ core ∷ [] ≡ take (n + 1) w1.dep_libs =
        sym (take-next w.dep_libs rest n core e)
        ∙ ap (take (suc n)) (sym q)
        ∙ ap (λ k. take k w1.dep_libs) one in
      subst (λ cores. Covered F cores w1) front
        (Covered-append (take n w.dep_libs) core w1 (Covered-Grows (take n w.dep_libs) w w1 g h)
          new)

  pub search_loop-Covered :
      (fuel pos : ℕ) (w : Walk)
      → Covered F (take pos w.dep_libs) w
      → Post (λ w'. Covered F w'.dep_libs w') (search_loop p flags fuel pos w)
  unfolding search_loop
  search_loop-Covered zero pos w h = tt
  search_loop-Covered (suc fuel) pos w h = elim (Option-cases (get_elem? w.dep_libs pos)) [
    | inl e ↦
        rw (e, search_loop) (subst (λ cores. Covered F cores w) (take-whole w.dep_libs pos e) h)
    | inr (core, e) ↦
        let names = core.needed_libs in
        let R = λ (w1 : Walk). (Onward w w1 × Grows w w1) × AllOf F names w1 in
        rw (e, search_loop)
          (Post-and_then R (λ w'. Covered F w'.dep_libs w') (visit_all p flags names none w) _
            (Post-map (λ w1. Onward w w1 × Grows w w1) (AllOf F names) R
              (visit_all p flags names none w)
              (
                Onward-visit_all w p flags names none w (Onward-refl w),
                visit_all-Grows names none w,
              )
              (visit_all-AllOf names none w) (λ w1 o a. (o, a)))
            (λ _ w1 h1. search_loop-Covered fuel (pos + 1) w1 (next-Covered pos w w1 core e h h1)))
  ]
