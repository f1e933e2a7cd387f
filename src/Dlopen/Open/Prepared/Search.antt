-- ===== src/Dlopen/Open/Prepared/Search.antt =====
-- The search ends prepared, and the only panics are the assertion and those of callbacks.
use dlopen_rs.Dlopen.Open.Prepared.Missing.{
  LoadsPlain, Fine, Fine-and_then, Visiting, all_listed-missing, Going-less, IsMissing, missing,
}
use dlopen_rs.Paths.Component.{path_join-last}
use dlopen_rs.Paths.{path_join, search_paths}
use dlopen_rs.Base.Text.{Text}
use dlopen_rs.Dlopen.Search.{
  revisit, add_library, visit, search_loop, try_paths, find_library, visit_all, load_file,
  load_needed,
}
use dlopen_rs.Error.{out_of_fuel, Foreign-cases, Called-cases, panicked, err, ok, Result}
use dlopen_rs.Flags.{OpenFlags}
use dlopen_rs.Register.{GlobalDylib}
use dlopen_rs.Base.IndexMap.{get, IndexMap}
use dlopen_rs.Loader.{lazy_bind, elf_file, from_impl, from_open_file, Platform, CoreComponent}
use dlopen_rs.Dlopen.Open.Prepared.{
  IsQueued, open_one-Keeps, ElfLibrary, Walk, IsPrepared, IsPlain, Going, open_one, unclosed,
}
use dlopen_rs.Dlopen.Open.Prepared.Revisit.{revisit-paths, revisit-Going, revisit-Keeps}
use dlopen_rs.Dlopen.Open.Prepared.Add.{IsAsked, Added, add_library-Added}
use dlopen_rs.Dlopen.Resolve.Descent.{InNames}
use dlopen_rs.Dlopen.Open.Closure.{IsNaming, Onward-revisit, Onward-refl}
use dlopen_rs.Base.{
  [], get_elem?-append, subst, get_elem?-lt, ap, ◌∙◌, refl, zero, drop-get_elem?, drop, inr, sym,
  ◌∷◌, ◌+◌, inl, length, List, Option-cases, suc, get_elem?-some, ◌≡◌, none, get_elem?, some, arith,
  ◌<◌, Option, ℕ,
}

module _ (m0 : IndexMap GlobalDylib) (p : Platform) (naming : IsNaming p) (loads : LoadsPlain p)
    (flags : OpenFlags) (pos : ℕ) (core : CoreComponent) where
  module _ (q : ℕ) where
    -- the state behind a step that needed the run path at `q`
    abbrev Found : {A : Type 0} → A → Walk → Type 0
    Found a w = Going m0 pos 0 w × IsQueued core w.dep_libs × (q < length w.rpath_vec)

    Added-Fine :
        (lib : ElfLibrary) (w : Walk) (plain : IsPlain lib.dylib)
        (fresh : get lib.dylib.core_component.shortname w.manager.all ≡ none)
        (asked : IsAsked lib.dylib.core_component.shortname w.new_libs)
        (out : Result (Unit {0}) × Walk)
        → Found tt w
        → Added m0 flags lib plain w fresh asked pos 0 out
        → Fine m0 p Found out
    Added-Fine lib w plain fresh asked (ok u, w') (g, queue, h) (g', longer, queued) =
        (g', queued core queue, omega (arith, h, longer))
    Added-Fine lib w plain fresh asked (err e, w') h a = absurd a
    Added-Fine lib w plain fresh asked (panicked e, w') h a = (inl a.0, a.1)
    Added-Fine lib w plain fresh asked (out_of_fuel, w') h a = absurd a

    add_library-Fine :
        (lib : ElfLibrary) (name : Text) (w : Walk)
        → IsPlain lib.dylib
        → lib.dylib.core_component.shortname ≡ name
        → IsMissing name w
        → Found tt w
        → Fine m0 p Found (add_library flags lib w)
    add_library-Fine lib name w plain same miss h =
        let fresh : get lib.dylib.core_component.shortname w.manager.all ≡ none =
          rw same miss.fresh in
        let asked = subst (λ k. IsAsked k w.new_libs) (sym same) miss.asked in
        Added-Fine lib w plain fresh asked (add_library flags lib w) h
          (add_library-Added m0 flags lib plain w fresh asked pos 0 h.0)

    load_file-Fine :
        (file : ℕ) (path name : Text) (w : Walk)
        → IsMissing name w
        → Found tt w
        → Fine m0 p Found (load_file p flags file (path_join path name) w)
    unfolding load_file from_open_file from_impl
    load_file-Fine file path name w miss h =
        elim (Called-cases (p.load_dylib (elf_file (path_join path name) file) (lazy_bind flags))) [
          | inl (lib, e) ↦
              let same : lib.core_component.shortname ≡ name = cc (
                naming (path_join path name) file (lazy_bind flags) lib e,
                path_join-last path name miss.plain,
              ) in
              rw e (
                add_library-Fine (record { dylib = lib; flags = flags }) name w
                  (loads (elf_file (path_join path name) file) (lazy_bind flags) lib e) same miss h)
          | inr (inl (failed, e)) ↦ rw e h.0.prepared.old
          | inr (inr (q, e)) ↦ rw e (
            inr (inl (elf_file (path_join path name) file, lazy_bind flags, e)),
            h.0.prepared.old,
          )
        ]

    try_paths-Fine :
        (name : Text) (paths : List Text) (w : Walk)
        → IsMissing name w
        → Found tt w
        → Fine m0 p Found (try_paths p flags name paths w)
    unfolding try_paths
    try_paths-Fine name [] w miss h = h.0.prepared.old
    try_paths-Fine name (path ∷ paths) w miss h =
        elim (Foreign-cases (p.open_file (path_join path name))) [
          | inl (file, e) ↦ rw (e, try_paths) (load_file-Fine file path name w miss h)
          | inr (failed, e) ↦ rw (e, try_paths) (try_paths-Fine name paths w miss h)
        ]

    find_library-Fine :
        (name : Text) (w : Walk)
        → IsMissing name w
        → Found tt w
        → Fine m0 p Found (find_library p flags q name w)
    unfolding find_library
    find_library-Fine name w miss h =
        let (rpath, e) = get_elem?-some w.rpath_vec q h.2 in
        rw (e, find_library) (try_paths-Fine name (search_paths p rpath) w miss h)

  load_needed-Fine :
      (name : Text) (cur : Option ℕ) (w : Walk)
      → InNames name core.needed_libs
      → get name w.manager.all ≡ none
      → Visiting m0 pos core cur w
      → Fine m0 p (Visiting m0 pos core) (load_needed p flags name cur w)
  unfolding load_needed
  load_needed-Fine name (some q) w inside e h =
      Fine-and_then m0 p (Found q) (Visiting m0 pos core) (find_library p flags q name w) _
        (find_library-Fine q name w (missing m0 name core w h.0.prepared inside h.1 e) h)
        (λ _ w' h'. h')
  load_needed-Fine name none w inside e (g, queue) =
      let q = w.cur_rpath_pos in
      let w0 = record w { cur_rpath_pos = q + 1 } in
      let one : open_one w.manager.all core ≡ 1 =
        rw (all_listed-missing w.manager.all name core.needed_libs inside e) in
      let h0 : IsPrepared m0 w0 = record {
        first = g.prepared.first;
        waiting = g.prepared.waiting;
        single = g.prepared.single;
        entries = g.prepared.entries;
        queued = g.prepared.queued;
        owned = g.prepared.owned;
        sound = g.prepared.sound;
        parent = g.prepared.parent;
        old = g.prepared.old;
      } in
      let g0 : Going m0 pos 0 w0 = record {
        prepared = h0;
        room = omega (arith, one, g.room);
        within = g.within;
      } in
      Fine-and_then m0 p (Found q) (Visiting m0 pos core) (find_library p flags q name w0) _
        (find_library-Fine q name w0 (missing m0 name core w0 h0 inside queue e)
          (g0, queue, omega (arith, one, g.room)))
        (λ _ w' h'. h')

  revisit-IsQueued :
      (name : Text) (lib : GlobalDylib) (w : Walk)
      → IsQueued core w.dep_libs
      → IsQueued core (revisit flags name lib w).dep_libs
  revisit-IsQueued name lib w (j, e) =
      let (rest, q) = (Onward-revisit w flags name lib w (Onward-refl w)).queue in
      (j, rw q (get_elem?-append w.dep_libs rest j e))

  revisit-Visiting :
      (name : Text) (lib : GlobalDylib) (cur : Option ℕ) (w : Walk)
      → get name w.manager.all ≡ some lib
      → Visiting m0 pos core cur w
      → Visiting m0 pos core cur (revisit flags name lib w)
  revisit-Visiting name lib none w e (g, queue) =
      let w' = revisit flags name lib w in
      (
        Going-less m0 pos (open_one w.manager.all core) (open_one w'.manager.all core) w'
            (open_one-Keeps w.manager.all w'.manager.all core (revisit-Keeps m0 flags name lib w e))
            (revisit-Going m0 flags name lib w e pos (open_one w.manager.all core) g),
        revisit-IsQueued name lib w queue,
      )
  revisit-Visiting name lib (some q) w e (g, queue, h) = (
    revisit-Going m0 flags name lib w e pos 0 g,
    revisit-IsQueued name lib w queue,
    rw (revisit-paths m0 flags name lib w e).0 h,
  )

  visit-Fine :
      (name : Text) (cur : Option ℕ) (w : Walk)
      → InNames name core.needed_libs
      → Visiting m0 pos core cur w
      → Fine m0 p (Visiting m0 pos core) (visit p flags name cur w)
  unfolding visit
  visit-Fine name cur w inside h = elim (Option-cases (get name w.manager.all)) [
    | inl e ↦ rw (e, visit) (load_needed-Fine name cur w inside e h)
    | inr (lib, e) ↦ rw (e, visit) (revisit-Visiting name lib cur w e h)
  ]

  -- all names are visited; the run path was needed or not
  visited : (cur : Option ℕ) (w : Walk) → Visiting m0 pos core cur w → Going m0 pos 0 w
  visited none w (g, queue) = Going-less m0 pos (open_one w.manager.all core) 0 w (omega arith) g
  visited (some q) w (g, queue, h) = g

  visit_all-Fine :
      (names : List Text) (cur : Option ℕ) (w : Walk)
      → ((name : Text) → InNames name names → InNames name core.needed_libs)
      → Visiting m0 pos core cur w
      → Fine m0 p (λ _ w'. Going m0 pos 0 w') (visit_all p flags names cur w)
  unfolding visit_all
  visit_all-Fine [] cur w inside h = visited cur w h
  visit_all-Fine (name ∷ names) cur w inside h =
      Fine-and_then m0 p (Visiting m0 pos core) (λ _ w'. Going m0 pos 0 w')
        (visit p flags name cur w) _ (visit-Fine name cur w (inside name (inl refl)) h)
        (λ next w' h'. visit_all-Fine names next w' (λ n i. inside n (inr i)) h')

module _ (m0 : IndexMap GlobalDylib) (p : Platform) (naming : IsNaming p) (loads : LoadsPlain p)
    (flags : OpenFlags) where
  -- The library at `pos` and the ones behind it share what is left.
  start-Visiting :
      (pos : ℕ) (core : CoreComponent) (w : Walk)
      → get_elem? w.dep_libs pos ≡ some core
      → Going m0 pos 0 w
      → Visiting m0 (pos + 1) core none w
  start-Visiting pos core w e g =
      let one : suc pos ≡ pos + 1 = omega arith in
      let rest : drop pos w.dep_libs ≡ core ∷ drop (pos + 1) w.dep_libs =
        drop-get_elem? w.dep_libs pos e ∙ ap (λ n. core ∷ drop n w.dep_libs) one in
      (
        record {
          prepared = g.prepared;
          room = omega (arith, g.room, ap (unclosed w.manager.all) rest);
          within = omega (arith, get_elem?-lt w.dep_libs pos e);
        },
        (pos, e),
      )

  pub search_loop-Fine :
      (fuel pos : ℕ) (w : Walk)
      → Going m0 pos 0 w
      → Fine m0 p (λ _ w'. IsPrepared m0 w') (search_loop p flags fuel pos w)
  unfolding search_loop
  search_loop-Fine zero pos w g = g.prepared.old
  search_loop-Fine (suc fuel) pos w g = elim (Option-cases (get_elem? w.dep_libs pos)) [
    | inl e ↦ rw (e, search_loop) g.prepared
    | inr (core, e) ↦
        rw (e, search_loop)
          (Fine-and_then m0 p (λ _ w'. Going m0 (pos + 1) 0 w') (λ _ w'. IsPrepared m0 w')
            (visit_all p flags core.needed_libs none w) _
            (visit_all-Fine m0 p naming loads flags (pos + 1) core core.needed_libs none w
              (λ n i. i) (start-Visiting pos core w e g))
            (λ _ w' g'. search_loop-Fine fuel (pos + 1) w' g'))
  ]
