-- ===== src/Dlopen/Open/Boxed.antt =====
-- The box of dependencies that `dlopen_impl` of src/dlopen.rs gives a library.
pub mod Marks
use dlopen_rs.Dlopen.Open.Boxed.Marks.{
  IsMarked, Visited, AllBoxed, revisit-IsMarked, revisit-marks, add_library-IsMarked,
  add_library-marks, revisit-AllBoxed, add_library-AllBoxed,
}
use dlopen_rs.Dlopen.Search.Cover.{Covered, Covered-name, search_loop-Covered}
use dlopen_rs.Dlopen.Search.Rule.{search_loop-rule}
use dlopen_rs.Dlopen.Search.{rpath_of, search_loop}
use dlopen_rs.Dlopen.Resolve.{resolve_loop, Item}
use dlopen_rs.Dlopen.Resolve.Rule.{resolve_loop-rule, modify_all}
use dlopen_rs.Dlopen.Resolve.Descent.{InNames}
use dlopen_rs.Dlopen.Resolve.Visits.{get-modify-some}
use dlopen_rs.Dlopen.Open.{
  guarded, strip, search_fuel, resolve_fuel, finish, open_locked, open_new, dlopen_impl,
}
use dlopen_rs.Dlopen.Open.Closure.{IsNaming, Post, Post-map}
use dlopen_rs.Dlopen.Open.Prepared.{IsQueued}
use dlopen_rs.Dlopen.Walk.{Walk, start_walk}
use dlopen_rs.Register.{GlobalDylib, Manager, register, entry}
use dlopen_rs.Loader.{CoreComponent, ElfLibrary, Deps, Dylib, Platform}
use dlopen_rs.Flags.{OpenFlags}
use dlopen_rs.Step.{Step, and_then}
use dlopen_rs.Error.{Result, ok, err, panicked, out_of_fuel}
use dlopen_rs.Base.Text.{Text, text_eq, has_char, split}
use dlopen_rs.Base.IndexMap.{IndexMap, get, get-insert}
use dlopen_rs.Base.{
  ℕ, ◌≡◌, refl, sym, subst, ◌∙◌, List, [], ◌∷◌, Option, none, some, inl, inr, ◌⊎◌, false,
  Bool-cases, Option-cases, get_elem?, last?,
}

-- The library of this name is in the box, or it was marked before the call.
abbrev pub IsBoxed :
    IndexMap GlobalDylib → List CoreComponent → IndexMap GlobalDylib → Text → Type 0
IsBoxed m0 items m name =
    (lib : GlobalDylib) × (get name m ≡ some lib) × (IsQueued lib.inner items ⊎ IsMarked m0 name)

abbrev pub AllInBox : IndexMap GlobalDylib → List CoreComponent → IndexMap GlobalDylib → Type 0
AllInBox m0 items m =
    (j : ℕ) (dep : CoreComponent) (name : Text)
    → get_elem? items j ≡ some dep
    → InNames name dep.needed_libs
    → has_char b'/' name ≡ false
    → IsBoxed m0 items m name

-- What a call returns: the box has what the libraries in it need.
abbrev pub Boxing : IndexMap GlobalDylib → Result Dylib × Manager → Type 0
Boxing m0 (ok d, m) =
    (box : Deps) × (d.deps ≡ some box)
    × (get_elem? box.items 0 ≡ some d.inner)
    × AllInBox m0 box.items m.all
Boxing m0 (err e, m) = Unit {0}
Boxing m0 (panicked e, m) = Unit {0}
Boxing m0 (out_of_fuel, m) = Unit {0}

abbrev walked : Result Dylib × Walk → Result Dylib × Manager
walked out = (out.0, out.1.manager)

module _ (m0 : IndexMap GlobalDylib) where
  abbrev Boxed : Walk → Type 0
  Boxed w = AllInBox m0 w.dep_libs w.manager.all

  Boxing-and_then :
      {A : Type 0} (Q : Walk → Type 0) (out : Result A × Walk) (k : A → Step Walk Dylib)
      → Post Q out
      → ((a : A) (w : Walk) → Q w → Boxing m0 (walked (k a w)))
      → Boxing m0 (walked (and_then out k))
  Boxing-and_then Q (ok a, w) k h next = next a w h
  Boxing-and_then Q (err e, w) k h next = tt
  Boxing-and_then Q (panicked e, w) k h next = tt
  Boxing-and_then Q (out_of_fuel, w) k h next = tt

  Boxing-guarded :
      (old : Manager) (out : Result Dylib × Manager) → Boxing m0 out → Boxing m0 (guarded old out)
  unfolding guarded
  Boxing-guarded old (ok d, m) h = h
  Boxing-guarded old (err e, m) h = tt
  Boxing-guarded old (panicked e, m) h = tt
  Boxing-guarded old (out_of_fuel, m) h = tt

  module _ (p : Platform) (naming : IsNaming p) (fresh : ℕ) (flags : OpenFlags) where
    finish-Boxing : (w : Walk) → Boxed w → Boxing m0 (walked (finish p fresh flags w))
    unfolding finish register
    finish-Boxing w h = elim (Option-cases (get_elem? w.dep_libs 0)) [
      | inl e ↦ rw (e, finish) tt
      | inr (core, e) ↦
          let box : Deps = record { addr = fresh; items = w.dep_libs } in
          let new = entry core flags (some box) false none in
          rw (e, finish)
            (
              box,
              refl,
              e,
              (λ j dep name at_j inside plain. elim (Bool-cases (text_eq core.shortname name)) [
                | inl t ↦ (new, get-insert core.shortname name new w.manager.all ∙ rw t, inl (0, e))
                | inr t ↦
                    let (lib, here, boxed) = h j dep name at_j inside plain in
                    (lib, get-insert core.shortname name new w.manager.all ∙ rw (t, here), boxed)
              ]),
            )
    ]

    Boxed-modify :
        (name : Text) (f : GlobalDylib → GlobalDylib) (w : Walk)
        → ((lib : GlobalDylib) → (f lib).inner ≡ lib.inner)
        → Boxed w
        → Boxed (record w { manager = modify_all name f w.manager })
    Boxed-modify name f w same h j dep k at_j inside plain =
        let (lib, here, boxed) = h j dep k at_j inside plain in
        elim (Bool-cases (text_eq name k)) [
          | inl t ↦ (
            f lib,
            get-modify-some name k f w.manager.all lib here ∙ rw t,
            subst (λ c. IsQueued c w.dep_libs ⊎ IsMarked m0 k) (sym (same lib)) boxed,
          )
          | inr t ↦ (lib, get-modify-some name k f w.manager.all lib here ∙ rw t, boxed)
        ]

    resolve_loop-Boxed :
        (fuel : ℕ) (stack : List Item) (w : Walk) → Boxed w → Boxed (resolve_loop p fuel stack w).1
    resolve_loop-Boxed fuel stack w h =
        resolve_loop-rule p Boxed (λ name f w' visit k. Boxed-modify name f w' visit.0 k)
          (λ idx lib w' e k. k) fuel stack w h

    search_loop-Boxed :
        (fuel : ℕ) (w : Walk) → AllBoxed m0 w → Post Boxed (search_loop p flags fuel 0 w)
    search_loop-Boxed fuel w h =
        Post-map (AllBoxed m0) (λ w'. Covered Visited w'.dep_libs w') Boxed
          (search_loop p flags fuel 0 w)
          (search_loop-rule p flags (AllBoxed m0) (revisit-AllBoxed m0 flags)
            (add_library-AllBoxed m0 flags) (λ w' k. k) fuel 0 w h)
          (search_loop-Covered p naming flags Visited (λ name w' path. inl path)
            (add_library-marks flags) (λ name lib w' e. inr (revisit-marks flags name lib w' e))
            (λ k name lib w' e v. elim v [
              | inl path ↦ inl path
              | inr marked ↦ inr (revisit-IsMarked flags k name lib w' marked)
            ])
            (λ k lib w' v. elim v [
              | inl path ↦ inl path
              | inr marked ↦ inr (add_library-IsMarked flags k lib w' marked)
            ])
            (λ k w' v. v) fuel 0 w tt)
          (λ w' boxed covered j dep name at_j inside plain.
            elim (Covered-name Visited w'.dep_libs j dep name w' covered at_j inside) [
              | inl path ↦ cc (path, plain)
              | inr (lib, here, marked) ↦ (lib, here, boxed name lib here marked)
            ])

Post-of : {A : Type 0} (Q : Walk → Type 0) (out : Result A × Walk) → Q out.1 → Post Q out
Post-of Q (ok a, w) h = h
Post-of Q (err e, w) h = tt
Post-of Q (panicked e, w) h = tt
Post-of Q (out_of_fuel, w) h = tt

module _ (p : Platform) (naming : IsNaming p) (fresh : ℕ) where
  open_new-Boxing :
      (flags : OpenFlags) (core : CoreComponent) (new_libs : List (Option ElfLibrary))
      (rpath_vec : List (List Text)) (m : Manager)
      → Boxing m.all (open_new p fresh flags core new_libs rpath_vec m)
  unfolding open_new open_locked
  open_new-Boxing flags core new_libs rpath_vec m =
      let m0 = m.all in
      let w = start_walk core new_libs rpath_vec m in
      let given = strip flags in
      Boxing-guarded m0 m _ (
        Boxing-and_then m0 (Boxed m0) (search_loop p given (search_fuel m) 0 w) _
          (search_loop-Boxed m0 p naming fresh given (search_fuel m) w
            (λ name lib e marked. inr (lib, e, marked)))
          (λ _ w1 h1.
            let relocated = resolve_loop p (resolve_fuel w1.manager) _ w1 in
            Boxing-and_then m0 (Boxed m0) relocated _
              (Post-of (Boxed m0) relocated
                (resolve_loop-Boxed m0 p naming fresh given (resolve_fuel w1.manager) _ w1 h1))
              (λ _ w2 h2. finish-Boxing m0 p naming fresh given w2 h2)))

  loaded-Boxing :
      (flags : OpenFlags) (f : Result ElfLibrary) (m : Manager)
      → Boxing m.all (
          and_then
            (f, m)
            (λ lib m'.
              open_new p fresh flags lib.dylib.core_component
                (some lib ∷ [])
                (rpath_of lib ∷ [])
                m'))
  loaded-Boxing flags (ok lib) m =
      open_new-Boxing flags lib.dylib.core_component (some lib ∷ []) (rpath_of lib ∷ []) m
  loaded-Boxing flags (err e) m = tt
  loaded-Boxing flags (panicked e) m = tt
  loaded-Boxing flags out_of_fuel m = tt

  -- A call that opens a library that is not registered and succeeds returns it with a box that
  -- starts with it and has, with each library in it, those that this one needs, except libraries
  -- that were marked already before the call. (Libraries have the short name of their path; needed
  -- names with a slash are left out.)
  pub dlopen_impl-Boxing :
      (path key : Text) (flags : OpenFlags) (f : Result ElfLibrary) (m : Manager)
      → last? (split b'/' path) ≡ some key
      → get key m.all ≡ none
      → Boxing m.all (dlopen_impl p fresh path flags f m)
  unfolding dlopen_impl
  dlopen_impl-Boxing path key flags f m named e =
      rw (named, dlopen_impl, e) (loaded-Boxing flags f m)
