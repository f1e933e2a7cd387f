-- ===== src/Dlopen/Search/First.antt =====
-- Which file `find_library` loads.
use dlopen_rs.Base.Text.{codes, split}
use dlopen_rs.Error.{success, err, Foreign-cases, failure, IoError, Result}
use dlopen_rs.Flags.{OpenFlags}
use dlopen_rs.Dlopen.Search.{find_lib_error, Text, Platform, find_library, try_paths, load_file}
use dlopen_rs.Paths.{deal_path, ld_cache, ld_library_path, path_join, search_paths}
use dlopen_rs.Dlopen.Walk.{Walk}
use dlopen_rs.Base.{
  sym, subst, refl, some, ◌⊎◌, get_elem?, ap, inr, [], ◌++◌, get_or_else, ◌≡◌, inl, ◌∷◌, List, ℕ,
}

-- No path of the list has the file.
abbrev pub NoneOpens : Platform → Text → List Text → Type 0
NoneOpens p name [] = Unit {0}
NoneOpens p name (path ∷ paths) =
    ((e : IoError) × (p.open_file (path_join path name) ≡ failure e)) × NoneOpens p name paths

-- The first path of the list that has the file, and the file.
pub record IsFirst (p : Platform) (name : Text) (paths : List Text) (path : Text) (file : ℕ)
    : Type 0 where
  pub before : List Text
  pub behind : List Text
  pub whole : paths ≡ before ++ path ∷ behind
  pub missed : NoneOpens p name before
  pub opened : p.open_file (path_join path name) ≡ success file

-- The list in the order in which the code looks: LD_LIBRARY_PATH, the run path, the cache of the
-- loader, and the two standard directories.
abbrev pub all_paths : Platform → List Text → List Text
all_paths p rpath =
    split b':' (get_or_else p.ld_library_path [])
    ++ (rpath ++ (get_or_else p.ld_cache [] ++ (codes "/lib" ∷ codes "/usr/lib" ∷ [])))

module _ (p : Platform) (flags : OpenFlags) (name : Text) (w : Walk) where
  -- Either no path has the file, and the state is as before, or the first that has it is loaded.
  abbrev pub Finding : List Text → Result (Unit {0}) × Walk → Type 0
  Finding paths out =
      (NoneOpens p name paths
        × (out ≡ (err (find_lib_error (codes "can not find file: " ++ name)), w)))
      ⊎ ((path : Text) × (file : ℕ) × IsFirst p name paths path file
          × (out ≡ load_file p flags file (path_join path name) w))

  Finding-later :
      (path : Text) (paths : List Text) (e : IoError) (out : Result (Unit {0}) × Walk)
      → p.open_file (path_join path name) ≡ failure e
      → Finding paths out
      → Finding (path ∷ paths) out
  Finding-later path paths e out missed (inl (none_opens, same)) =
      inl (((e, missed), none_opens), same)
  Finding-later path paths e out missed (inr (found, file, first, same)) = inr (
    found,
    file,
    record {
      before = path ∷ first.before;
      behind = first.behind;
      whole = ap (◌∷◌ path) first.whole;
      missed = ((e, missed), first.missed);
      opened = first.opened;
    },
    same,
  )

  pub try_paths-Finding : (paths : List Text) → Finding paths (try_paths p flags name paths w)
  unfolding try_paths
  try_paths-Finding [] = inl (tt, refl)
  try_paths-Finding (path ∷ paths) = elim (Foreign-cases (p.open_file (path_join path name))) [
    | inl (file, e) ↦ inr (
      path,
      file,
      record { before = []; behind = paths; whole = refl; missed = tt; opened = e },
      rw (e, try_paths),
    )
    | inr (failed, e) ↦
        let rest = try_paths p flags name paths w in
        let same : try_paths p flags name (path ∷ paths) w ≡ rest = rw (e, try_paths) in
        subst (Finding (path ∷ paths)) (sym same)
          (Finding-later path paths failed rest e (try_paths-Finding paths))
  ]

  -- A library is looked for in LD_LIBRARY_PATH, in the run path at the given position, in the
  -- cache of the loader, and in /lib and /usr/lib, in this order. The first file that can be
  -- opened is loaded, whether or not it can be loaded; if there is none, the call returns an
  -- error with the name, and changes nothing.
  pub find_library-Finding :
      (pos : ℕ) (rpath : List Text)
      → get_elem? w.rpath_vec pos ≡ some rpath
      → Finding (all_paths p rpath) (find_library p flags pos name w)
  unfolding find_library search_paths ld_library_path ld_cache deal_path
  find_library-Finding pos rpath e = rw (e, find_library) (try_paths-Finding (all_paths p rpath))
