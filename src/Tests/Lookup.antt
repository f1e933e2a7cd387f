-- ===== src/Tests/Lookup.antt =====
-- Looking for a file, and run paths with `$ORIGIN`.
use dlopen_rs.Paths.{fixup_rpath}
use dlopen_rs.Dlopen.Search.{find_library}
use dlopen_rs.Dlopen.Walk.{start_walk, Walk}
use dlopen_rs.Base.Text.{has_char, codes, split}
use dlopen_rs.Dlopen.Search.First.{find_library-Finding, Finding, all_paths}
use dlopen_rs.Paths.Origin.{fixup_rpath-with_origin}
use dlopen_rs.Tests.Sample.{sample_dylib, sample_platform, empty, a_core}
use dlopen_rs.Base.{◌∷◌, ◌≡◌, refl, some, []}

-- the variables after `a.so` was loaded
abbrev begun : Walk
begun =
    start_walk a_core (some (record { dylib = sample_dylib a_core; flags = 1 }) ∷ []) ([] ∷ [])
      empty

find_library-Finding_example :
    Finding
      (sample_platform 0)
      1
      (codes "b.so")
      begun
      (all_paths (sample_platform 0) [])
      (find_library (sample_platform 0) 1 0 (codes "b.so") begun)
find_library-Finding_example =
    find_library-Finding (sample_platform 0) 1 (codes "b.so") begun 0 [] refl

fixup_rpath-with_origin_example :
    fixup_rpath (codes "/opt/x/libx.so") (codes "$ORIGIN/lib:/usr:$ORIGIN")
    ≡ codes "/opt/x/lib" ∷ codes "/usr" ∷ codes "/opt/x" ∷ []
unfolding split has_char
fixup_rpath-with_origin_example =
    fixup_rpath-with_origin (codes "/opt/x") (codes "libx.so") [] (codes "/lib:/usr:" ∷ [] ∷ [])
      refl refl (refl, (refl, tt))
