-- ===== src/Tests/Tables.antt =====
-- Frame tables in a small memory, and a finder with a list as its hash table.
use dlopen_rs.EhFrame.Libunwind.Walk.{drop_eh_frame-mirror, register_unwind-drop_eh_frame}
use dlopen_rs.Error.{out_of_fuel, ok}
use dlopen_rs.EhFrame.{read_bytes, deregistered, registered, Memory}
use dlopen_rs.EhFrame.Libunwind.Section.{Holds, encode_section, Entry}
use dlopen_rs.Base.{
  suc, ◌∙◌, ap, ◌+◌, ℕ, arith, ◌-◌, get_elem?, none, true, ◌∷◌, ltb, false, ◌≡◌, if◌then◌else◌,
  List,
}
use mathlib.Core.List.{[]}
use dlopen_rs.EhFrame.Libunwind.{register_unwind, drop_eh_frame}

abbrev cie : Entry
cie = record { wide = false; body = 1 ∷ 2 ∷ [] }

-- the second one has a length of 64 bits
abbrev fdes : List Entry
fdes = record { wide = false; body = 3 ∷ [] } ∷ record { wide = true; body = 4 ∷ 5 ∷ [] } ∷ []

-- the frame table at address 64
abbrev memory : Memory
memory addr = if ltb addr 64 then none else get_elem? (encode_section cie fdes) (addr - 64)

Holds-get_elem? :
    (mem : Memory) (addr : ℕ) (bytes : List ℕ)
    → ((i : ℕ) → mem (addr + i) ≡ get_elem? bytes i)
    → Holds mem addr bytes
Holds-get_elem? mem addr [] h = tt
Holds-get_elem? mem addr (b ∷ bytes) h = (
  ap mem (omega arith) ∙ h 0,
  Holds-get_elem? mem (addr + 1) bytes (λ i. ap mem (omega arith) ∙ h (suc i)),
)

memory-section : (i : ℕ) → memory (64 + i) ≡ get_elem? (encode_section cie fdes) i
memory-section i =
    let inside : ltb (64 + i) 64 ≡ false = ground arith in
    let at : 64 + i - 64 ≡ i = omega arith in rw (inside, at)

register_unwind-drop_eh_frame_example :
    (register_unwind memory 3 64 [] ≡ (ok tt, registered 75 ∷ registered 70 ∷ []))
    × (drop_eh_frame memory 3 64 [] ≡ (ok tt, deregistered 75 ∷ deregistered 70 ∷ []))
register_unwind-drop_eh_frame_example =
    register_unwind-drop_eh_frame memory 3 64 cie fdes [] [] (omega arith)
      (omega arith, omega arith) ((omega arith, omega arith), ((omega arith, omega arith), tt))
      (omega arith) (Holds-get_elem? memory 64 (encode_section cie fdes) memory-section)

-- with too little fuel
drop_eh_frame-mirror_example :
    drop_eh_frame memory 2 64 [] ≡ (out_of_fuel, deregistered 75 ∷ deregistered 70 ∷ [])
unfolding register_unwind read_bytes
drop_eh_frame-mirror_example = drop_eh_frame-mirror memory 2 64 []
