-- ===== src/Dlopen/Open/Panics.antt =====
-- The panics that an opening of src/dlopen.rs may end with.
use dlopen_rs.Base.{ℕ, Bool, Option, List, ◌≡◌, ◌⊎◌}
use dlopen_rs.Base.Text.{Text}
use dlopen_rs.Error.{Panic, assertion_failed, failure, unwound}
use dlopen_rs.Loader.{Platform, ElfObject, ElfDylib, CoreComponent, LazyScope}

-- The callback `parse_phdr` panicked while a library was loaded.
abbrev pub IsLoadPanic : Platform → Panic → Type 0
IsLoadPanic p q =
    (object : ElfObject) × (lazy : Option Bool) × (p.load_dylib object lazy ≡ failure (unwound q))

-- The callback `deal_unknown` panicked while a library was relocated.
abbrev pub IsRelocatePanic : Platform → Panic → Type 0
IsRelocatePanic p q =
    (lib : ElfDylib) × (scope : List CoreComponent) × (find : (Text → Option ℕ))
    × (lazy_scope : Option LazyScope) × (p.relocate lib scope find lazy_scope ≡ failure (unwound q))

-- The assertion on the number of new libraries failed, or a callback panicked.
abbrev pub IsDuePanic : Platform → Panic → Type 0
IsDuePanic p q = (q ≡ assertion_failed) ⊎ (IsLoadPanic p q ⊎ IsRelocatePanic p q)
