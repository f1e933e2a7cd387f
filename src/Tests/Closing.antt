-- ===== src/Tests/Closing.antt =====
-- Handles of the C interface, and relocation with given libraries.
use dlopen_rs.Error.{unwrap_none, ok, panicked}
use dlopen_rs.Relocate.{relocate_with, relocate}
use dlopen_rs.CInterface.Handles.{dlclose-IsLast, dlclose-dlclose, released, IsOpen}
use dlopen_rs.Register.Last.{IsGone, IsLast}
use dlopen_rs.Base.Text.{codes, text_eq}
use dlopen_rs.Base.IndexMap.{values, get}
use dlopen_rs.CInterface.Symbols.{dlsym-hand_out, given, IsListed}
use dlopen_rs.Relocate.Existing.{relocate-IsPublished, IsPublished}
use dlopen_rs.Flags.{contains}
use dlopen_rs.Register.World.{live_boxes, World}
use dlopen_rs.Loader.{CoreComponent, get_symbol, ElfLibrary}
use dlopen_rs.CInterface.Iterate.{dl_iterate_phdr-deliver, deliver, reports}
use dlopen_rs.CInterface.{dl_iterate_phdr, PhdrInfo, or_null, dlsym, hand_out, dlclose}
use dlopen_rs.Tests.Sample.{b_core, sample_platform, sample_dylib, empty, a_core, c_core}
use dlopen_rs.Base.{ℕ, List, some, refl, none, arith, false, ◌≡◌, ◌∷◌, []}
use dlopen_rs.Tests.Dropping.{c_box, c_dylib, world}
use dlopen_rs.Register.{Manager, get_dylib, GlobalDylib, entry}

-- `c.so` was opened twice through the C interface.
abbrev twice : World
twice = record (world []) { handles = c_box ∷ c_box ∷ [] }

abbrev c_entry : GlobalDylib
c_entry = entry c_core 257 (some c_box) false none

c-IsOpen : IsOpen 100 twice c_entry c_box c_core
unfolding get text_eq
c-IsOpen = record { handle = refl; first = ([], refl); listed = refl; same = refl }

c-IsLast : IsLast (get_dylib c_entry) (released 100 twice)
unfolding live_boxes get_dylib contains
c-IsLast = record {
  others = refl;
  listed = refl;
  exported = refl;
  boxed = refl;
  box = (c_box, refl);
}

dlclose-IsLast_example :
    ((dlclose 100 twice).0 ≡ ok 0)
    × IsGone (get_dylib c_entry) (released 100 twice) (dlclose 100 twice).1
unfolding contains
dlclose-IsLast_example = dlclose-IsLast 100 twice c_entry c_box c_core c-IsOpen refl refl c-IsLast

dlclose-dlclose_example : (dlclose 100 (dlclose 100 twice).1).0 ≡ panicked unwrap_none
unfolding contains
dlclose-dlclose_example =
    dlclose-dlclose 100 twice c_entry c_box c_core c-IsOpen refl refl c-IsLast refl

c-IsListed : IsListed c_dylib c_box (world [])
c-IsListed = record {
  listed = omega arith;
  exported = λ _. omega arith;
  boxed = refl;
  inside = omega arith;
  agree = tt;
}

dlsym-hand_out_example :
    (hand_out c_dylib (world []) ≡ (ok 100, given c_box (world [])))
    × (dlsym 100 (codes "h") (hand_out c_dylib (world [])).1
        ≡ or_null (get_symbol c_dylib (codes "h")))
unfolding contains
dlsym-hand_out_example =
    dlsym-hand_out c_dylib c_box (world []) c-IsListed (codes "h") refl refl refl

abbrev a_library : ElfLibrary
a_library = record { dylib = sample_dylib a_core; flags = 257 }

relocate-IsPublished_example :
    IsPublished a_library
      (c_dylib ∷ [])
      (codes "h")
      empty
      (relocate (sample_platform 0) 200 a_library (c_dylib ∷ []) empty)
    × IsPublished a_library
        (c_dylib ∷ [])
        (codes "h")
        empty
        (relocate_with (sample_platform 0) 200 a_library (c_dylib ∷ []) (λ _. none) empty)
relocate-IsPublished_example =
    relocate-IsPublished (sample_platform 0) 200 a_library (c_dylib ∷ []) (λ _. none) (codes "h")
      empty

-- `b.so` with one program header and `c.so` without
abbrev headed : CoreComponent
headed = record b_core {
  phdrs = record { p_type = 1; p_vaddr = 0; p_memsz = 8; p_filesz = 8; p_align = 8 } ∷ [];
}

abbrev two : Manager
two = record {
  all =
      (codes "c.so", c_entry)
      ∷ (codes "b.so", record c_entry { inner = headed })
      ∷ (codes "d.so", record c_entry { inner = headed })
      ∷ [];
  global = [];
}

-- a callback that records where the libraries are, and stops at the first
abbrev seen : PhdrInfo → List ℕ → ℕ × List ℕ
seen info s = (1, info.dlpi_addr ∷ s)

dl_iterate_phdr-deliver_example :
    dl_iterate_phdr (some seen) (λ s. (0, s)) two [] ≡ deliver seen (reports 3 (values two.all)) []
dl_iterate_phdr-deliver_example = dl_iterate_phdr-deliver seen (λ s. (0, s)) two []
