-- ===== src/Paths.antt =====
-- Where `imp::find_library` of src/dlopen.rs looks for a file. `PathBuf` is its text.
pub mod Component
pub mod Origin
use dlopen_rs.Base.{
  Bool, true, ◌&&◌, ◌||◌, not, List, [], ◌∷◌, ◌++◌, none, some, if◌then◌else◌, drop, last?,
  get_or_else, ◌==◌,
}
use dlopen_rs.Base.Text.{Text, codes, split, starts_with, has_char, rsplit_once, replace}
use dlopen_rs.Loader.{Platform}

-- `deal_path`
unfoldable pub deal_path : Text → List Text
deal_path s = split b':' s

-- `PathBuf::join`: an absolute file replaces the path
unfoldable pub path_join : Text → Text → Text
path_join path file = if starts_with file (codes "/") then file else elim (last? path) [
  | none ↦ file
  | some c ↦ if c == b'/' then path ++ file else path ++ b'/' ∷ file
]

-- the test of one part behind a `$`
unfoldable pub is_origin : Text → Bool
is_origin s = starts_with s (codes "ORIGIN") || starts_with s (codes "{ORIGIN}")

unfoldable pub all_origin : List Text → Bool
unfolding is_origin
all_origin [] = true
all_origin (s ∷ parts) = is_origin s && all_origin parts

unfoldable pub directory : Text → Text
directory lib_path = elim (rsplit_once b'/' lib_path) [ some (path, _) ↦ path | none ↦ codes "." ]

unfoldable pub fixup_rpath : Text → Text → List Text
unfolding deal_path all_origin directory
fixup_rpath lib_path rpath =
    if not (has_char b'$' rpath)
    then deal_path rpath
    else if not (all_origin (drop 1 (split b'$' rpath)))
    then []
    else deal_path (replace (codes "$ORIGIN") (directory lib_path) rpath)

abbrev pub default_path : List Text
default_path = codes "/lib" ∷ codes "/usr/lib" ∷ []

module _ (p : Platform) where
  -- `LD_LIBRARY_PATH`, which is "" where the variable is not set
  unfoldable pub ld_library_path : List Text
  unfolding deal_path
  ld_library_path = deal_path (get_or_else p.ld_library_path [])

  -- `LD_CACHE`, which is empty where the cache cannot be read
  unfoldable pub ld_cache : List Text
  ld_cache = get_or_else p.ld_cache []

  -- the order of the search in `find_library`
  unfoldable pub search_paths : List Text → List Text
  unfolding ld_library_path ld_cache
  search_paths rpath = ld_library_path ++ (rpath ++ (ld_cache ++ default_path))
