-- ===== src/Dlopen/Search/Rule.antt =====
-- What every change of the search keeps holds after the search, however it ends.
use dlopen_rs.Base.{
  ℕ, zero, suc, ◌+◌, ◌≡◌, List, [], ◌∷◌, Option, none, some, inl, inr, Option-cases, get_elem?,
}
use dlopen_rs.Base.Text.{Text}
use dlopen_rs.Base.IndexMap.{get}
use dlopen_rs.Error.{Result, ok, err, panicked, out_of_fuel, Foreign-cases}
use dlopen_rs.Step.{Step, and_then}
use dlopen_rs.Flags.{OpenFlags}
use dlopen_rs.Loader.{ElfLibrary, Platform, from_open_file}
use dlopen_rs.Register.{GlobalDylib}
use dlopen_rs.Paths.{path_join, search_paths}
use dlopen_rs.Dlopen.Walk.{Walk}
use dlopen_rs.Dlopen.Search.{
  revisit, add_library, load_file, try_paths, find_library, load_needed, visit, visit_all,
  search_loop,
}

pub and_then-rule {ℓ} :
    {A B : Type 0} (P : Walk → Type ℓ) (out : Result A × Walk) (k : A → Step Walk B)
    → P out.1
    → ((a : A) (w : Walk) → P w → P (k a w).1)
    → P (and_then out k).1
and_then-rule P (ok a, w) k h next = next a w h
and_then-rule P (err e, w) k h next = h
and_then-rule P (panicked e, w) k h next = h
and_then-rule P (out_of_fuel, w) k h next = h

module _ {ℓ} (p : Platform) (flags : OpenFlags) (P : Walk → Type ℓ)
    (keep_revisit : (name : Text) (lib : GlobalDylib) (w : Walk)
      → get name w.manager.all ≡ some lib
      → P w
      → P (revisit flags name lib w))
    (keep_add : (lib : ElfLibrary) (w : Walk) → P w → P (add_library flags lib w).1)
    (keep_pos : (w : Walk) → P w → P (record w { cur_rpath_pos = w.cur_rpath_pos + 1 })) where
  try_paths-rule :
      (name : Text) (paths : List Text) (w : Walk) → P w → P (try_paths p flags name paths w).1
  unfolding try_paths
  try_paths-rule name [] w h = h
  try_paths-rule name (path ∷ paths) w h =
      elim (Foreign-cases (p.open_file (path_join path name))) [
        | inl (file, e) ↦
            rw (e, try_paths, load_file)
              (and_then-rule P (from_open_file p file (path_join path name) flags, w)
                (add_library flags) h keep_add)
        | inr (failed, e) ↦ rw (e, try_paths) (try_paths-rule name paths w h)
      ]

  find_library-rule :
      (pos : ℕ) (name : Text) (w : Walk) → P w → P (find_library p flags pos name w).1
  unfolding find_library
  find_library-rule pos name w h = elim (Option-cases (get_elem? w.rpath_vec pos)) [
    | inl e ↦ rw (e, find_library) h
    | inr (rpath, e) ↦ rw (e, find_library) (try_paths-rule name (search_paths p rpath) w h)
  ]

  load_needed-rule :
      (name : Text) (cur : Option ℕ) (w : Walk) → P w → P (load_needed p flags name cur w).1
  unfolding load_needed
  load_needed-rule name (some pos) w h =
      and_then-rule P (find_library p flags pos name w) _ (find_library-rule pos name w h)
        (λ _ w' h'. h')
  load_needed-rule name none w h =
      let w0 = record w { cur_rpath_pos = w.cur_rpath_pos + 1 } in
      and_then-rule P (find_library p flags w.cur_rpath_pos name w0) _
        (find_library-rule w.cur_rpath_pos name w0 (keep_pos w h)) (λ _ w' h'. h')

  visit-rule : (name : Text) (cur : Option ℕ) (w : Walk) → P w → P (visit p flags name cur w).1
  unfolding visit
  visit-rule name cur w h = elim (Option-cases (get name w.manager.all)) [
    | inl e ↦ rw (e, visit) (load_needed-rule name cur w h)
    | inr (lib, e) ↦ rw (e, visit) (keep_revisit name lib w e h)
  ]

  pub visit_all-rule :
      (names : List Text) (cur : Option ℕ) (w : Walk) → P w → P (visit_all p flags names cur w).1
  unfolding visit_all
  visit_all-rule [] cur w h = h
  visit_all-rule (name ∷ names) cur w h =
      and_then-rule P (visit p flags name cur w) _ (visit-rule name cur w h)
        (λ next w' h'. visit_all-rule names next w' h')

  pub search_loop-rule : (fuel pos : ℕ) (w : Walk) → P w → P (search_loop p flags fuel pos w).1
  unfolding search_loop
  search_loop-rule zero pos w h = h
  search_loop-rule (suc fuel) pos w h = elim (Option-cases (get_elem? w.dep_libs pos)) [
    | inl e ↦ rw (e, search_loop) h
    | inr (core, e) ↦
        rw (e, search_loop)
          (and_then-rule P (visit_all p flags core.needed_libs none w) _
            (visit_all-rule core.needed_libs none w h)
            (λ _ w' h'. search_loop-rule fuel (pos + 1) w' h'))
  ]
