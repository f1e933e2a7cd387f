-- ===== src/Dlopen/Search/Budget.antt =====
-- The search ends: every library that it queues was unmarked, or is one of 255 new ones.
use dlopen_rs.Base.{
  ◌%◌, ◌^◌, ℕ, zero, suc, ◌+◌, ◌-◌, ◌≤◌, ◌<◌, ◌≡◌, ◌≢◌, refl, List, [], ◌∷◌, Option, none, some,
  inl, inr, true, false, Option-cases, get_elem?, length, length-append, arith, if◌then◌else◌,
}
use dlopen_rs.Base.Text.{Text}
use dlopen_rs.Base.IndexMap.{IndexMap, get, insert, modify}
use dlopen_rs.Error.{Result, ok, err, panicked, out_of_fuel, Foreign-cases}
use dlopen_rs.Step.{Step, and_then}
use dlopen_rs.Flags.{OpenFlags}
use dlopen_rs.Loader.{ElfLibrary, Platform, from_open_file}
use dlopen_rs.Register.{GlobalDylib, set_mark, set_flags, entry, register}
use dlopen_rs.Paths.{path_join, search_paths}
use dlopen_rs.Dlopen.Walk.{Walk}
use dlopen_rs.Dlopen.Search.{
  revisit, add_library, load_file, try_paths, find_library, load_needed, visit, visit_all,
  search_loop,
}
use dlopen_rs.Dlopen.Search.Rule.{visit_all-rule}

-- the entries whose `is_mark` is not set
pub unmarked : IndexMap GlobalDylib → ℕ
unmarked [] = 0
unmarked ((k, lib) ∷ m) = (if lib.is_mark then 0 else 1) + unmarked m

unmarked-mark :
    (name : Text) (lib : GlobalDylib) (m : IndexMap GlobalDylib)
    → get name m ≡ some lib
    → lib.is_mark ≡ false
    → suc (unmarked (modify name (set_mark true) m)) ≡ unmarked m
unfolding unmarked get modify
unmarked-mark name lib [] h u = cc
unmarked-mark name lib ((k, l) ∷ m) h u = ground (arith, unmarked-mark name lib m)

unmarked-flags :
    (name : Text) (flags : OpenFlags) (m : IndexMap GlobalDylib)
    → unmarked (modify name (set_flags flags) m) ≡ unmarked m
unfolding unmarked modify
unmarked-flags name flags [] = refl
unmarked-flags name flags ((k, l) ∷ m) = ground (arith, unmarked-flags name flags m)

unmarked-insert :
    (name : Text) (lib : GlobalDylib) (m : IndexMap GlobalDylib)
    → lib.is_mark ≡ true
    → unmarked (insert name lib m) ≤ unmarked m
unfolding unmarked insert
unmarked-insert name lib [] u = ground arith
unmarked-insert name lib ((k, l) ∷ m) u = ground (arith, unmarked-insert name lib m)

pub unmarked-le-length : (m : IndexMap GlobalDylib) → unmarked m ≤ length m
unfolding unmarked
unmarked-le-length [] = omega arith
unmarked-le-length ((k, l) ∷ m) = ground (arith, unmarked-le-length m)

-- what is queued, and what can still be
unfoldable pub budget : Walk → ℕ
budget w = length w.dep_libs + (unmarked w.manager.all + (255 - length w.new_libs))

pub record Within (n k : ℕ) (w : Walk) : Type 0 where
  pub spent : budget w ≤ n
  pub queued : k ≤ length w.dep_libs

module _ (flags : OpenFlags) (n k : ℕ) where
  revisit-Within :
      (name : Text) (lib : GlobalDylib) (w : Walk)
      → get name w.manager.all ≡ some lib
      → Within n k w
      → Within n k (revisit flags name lib w)
  unfolding revisit budget
  revisit-Within name lib w e h = ground (
    arith,
    unmarked-mark name lib w.manager.all,
    unmarked-flags name flags (modify name (set_mark true) w.manager.all),
    length-append w.dep_libs (lib.inner ∷ []),
  )

  add_library-Within :
      (lib : ElfLibrary) (w : Walk) → Within n k w → Within n k (add_library flags lib w).1
  unfolding add_library budget register
  add_library-Within lib w h = ground (
    arith,
    unmarked-insert lib.dylib.core_component.shortname
        (entry lib.dylib.core_component flags none true (some (length w.new_libs % 2 ^ 8)))
        w.manager.all,
    length-append w.dep_libs (lib.dylib.core_component ∷ []),
    length-append w.new_libs (some lib ∷ []),
  )

pub ne_fuel-and_then_kept {ℓ} :
    {S A B : Type 0} (P : S → Type ℓ) (out : Result A × S) (k : A → Step S B)
    → out.0 ≢ out_of_fuel
    → P out.1
    → ((a : A) (s : S) → P s → (k a s).0 ≢ out_of_fuel)
    → (and_then out k).0 ≢ out_of_fuel
ne_fuel-and_then_kept P (ok a, s) k h kept next = next a s kept
ne_fuel-and_then_kept P (err e, s) k h kept next = λ c. cc
ne_fuel-and_then_kept P (panicked e, s) k h kept next = λ c. cc
ne_fuel-and_then_kept P (out_of_fuel, s) k h kept next = λ c. h refl

pub ne_fuel-and_then :
    {S A B : Type 0} (out : Result A × S) (k : A → Step S B)
    → out.0 ≢ out_of_fuel
    → ((a : A) (s : S) → (k a s).0 ≢ out_of_fuel)
    → (and_then out k).0 ≢ out_of_fuel
ne_fuel-and_then (ok a, s) k h next = next a s
ne_fuel-and_then (err e, s) k h next = λ c. cc
ne_fuel-and_then (panicked e, s) k h next = λ c. cc
ne_fuel-and_then (out_of_fuel, s) k h next = λ c. h refl

module _ (p : Platform) (flags : OpenFlags) where
  from_open_file-ends : (file : ℕ) (path : Text) → from_open_file p file path flags ≢ out_of_fuel
  unfolding from_open_file
  from_open_file-ends file path = ground arith

  add_library-ends : (lib : ElfLibrary) (w : Walk) → (add_library flags lib w).0 ≢ out_of_fuel
  unfolding add_library
  add_library-ends lib w = ground arith

  try_paths-ends :
      (name : Text) (paths : List Text) (w : Walk)
      → (try_paths p flags name paths w).0 ≢ out_of_fuel
  unfolding try_paths
  try_paths-ends name [] w = λ c. cc
  try_paths-ends name (path ∷ paths) w = elim (Foreign-cases (p.open_file (path_join path name))) [
    | inl (file, e) ↦
        rw (e, try_paths, load_file)
          (ne_fuel-and_then (from_open_file p file (path_join path name) flags, w)
            (add_library flags) (from_open_file-ends file (path_join path name)) add_library-ends)
    | inr (failed, e) ↦ rw (e, try_paths) (try_paths-ends name paths w)
  ]

  find_library-ends :
      (pos : ℕ) (name : Text) (w : Walk) → (find_library p flags pos name w).0 ≢ out_of_fuel
  unfolding find_library
  find_library-ends pos name w = elim (Option-cases (get_elem? w.rpath_vec pos)) [
    | inl e ↦ rw (e, find_library) (λ c. cc)
    | inr (rpath, e) ↦ rw (e, find_library) (try_paths-ends name (search_paths p rpath) w)
  ]

  load_needed-ends :
      (name : Text) (cur : Option ℕ) (w : Walk) → (load_needed p flags name cur w).0 ≢ out_of_fuel
  unfolding load_needed
  load_needed-ends name (some pos) w =
      ne_fuel-and_then (find_library p flags pos name w) _ (find_library-ends pos name w)
        (λ _ w' c. cc)
  load_needed-ends name none w =
      let w0 = record w { cur_rpath_pos = w.cur_rpath_pos + 1 } in
      ne_fuel-and_then (find_library p flags w.cur_rpath_pos name w0) _
        (find_library-ends w.cur_rpath_pos name w0) (λ _ w' c. cc)

  visit-ends :
      (name : Text) (cur : Option ℕ) (w : Walk) → (visit p flags name cur w).0 ≢ out_of_fuel
  unfolding visit
  visit-ends name cur w = elim (Option-cases (get name w.manager.all)) [
    | inl e ↦ rw (e, visit) (load_needed-ends name cur w)
    | inr (lib, e) ↦ rw (e, visit) (λ c. cc)
  ]

  visit_all-ends :
      (names : List Text) (cur : Option ℕ) (w : Walk)
      → (visit_all p flags names cur w).0 ≢ out_of_fuel
  unfolding visit_all
  visit_all-ends [] cur w = λ c. cc
  visit_all-ends (name ∷ names) cur w =
      ne_fuel-and_then (visit p flags name cur w) _ (visit-ends name cur w)
        (λ next w'. visit_all-ends names next w')

  lt-length_of_get_elem? {ℓ} :
      {A : Type ℓ} (xs : List A) (i : ℕ) {x : A} → get_elem? xs i ≡ some x → i < length xs
  lt-length_of_get_elem? [] i h = cc
  lt-length_of_get_elem? (x ∷ xs) zero h = omega arith
  lt-length_of_get_elem? (x ∷ xs) (suc i) h = omega (arith, lt-length_of_get_elem? xs i h)

  Within-start : (pos : ℕ) (w : Walk) → pos < length w.dep_libs → Within (budget w) (pos + 1) w
  Within-start pos w h = omega arith

  Within-pos :
      (n k : ℕ) (w : Walk)
      → Within n k w
      → Within n k (record w { cur_rpath_pos = w.cur_rpath_pos + 1 })
  unfolding budget
  Within-pos n k w h = omega arith

  visit_all-Within :
      (n k : ℕ) (names : List Text) (w : Walk)
      → Within n k w
      → Within n k (visit_all p flags names none w).1
  visit_all-Within n k names w h =
      visit_all-rule p flags (Within n k) (revisit-Within flags n k) (add_library-Within flags n k)
        (Within-pos n k) names none w h

  -- With more fuel than the budget leaves the search ends by itself.
  pub search_loop-ends :
      (fuel pos : ℕ) (w : Walk)
      → budget w < fuel + pos
      → pos ≤ length w.dep_libs
      → (search_loop p flags fuel pos w).0 ≢ out_of_fuel
  unfolding search_loop
  search_loop-ends zero pos w small le = absurd (unfold budget in omega arith)
  search_loop-ends (suc fuel) pos w small le = elim (Option-cases (get_elem? w.dep_libs pos)) [
    | inl e ↦ rw (e, search_loop) (λ c. cc)
    | inr (core, e) ↦
        rw (e, search_loop)
          (ne_fuel-and_then_kept (Within (budget w) (pos + 1))
            (visit_all p flags core.needed_libs none w) _ (visit_all-ends core.needed_libs none w)
            (visit_all-Within (budget w) (pos + 1) core.needed_libs w
              (Within-start pos w (lt-length_of_get_elem? w.dep_libs pos e)))
            (λ _ w' kept. search_loop-ends fuel (pos + 1) w' (omega arith) kept.queued))
  ]
