-- ===== src/Hooks/Bound.antt =====
-- What `deal_unknown` of src/loader/mod.rs writes for a relocation.
use dlopen_rs.Tls.{module_id}
use dlopen_rs.Base.{
  Bool, ◌≢◌, ◌/◌, ◌==◌, ◌+◌, refl, Bool-cases, ==_iff, ℕ, ◌≡◌, ◌⊎◌, inl, inr, true, false, Option,
  List, [], ◌∷◌, some, none, if◌then◌else◌,
}
use dlopen_rs.Error.{Result, ok, panicked, Panic, unwrap_none, dangling}
use dlopen_rs.Hooks.{
  tls_id, elf_tls, eh_frame, debug_info, Datum, ElfRela, Abi, deal_dtpmod, write_own, deal_unknown,
  write_found, cast, find_module, TlsLibrary, SymbolInfo,
}

-- The library keeps a module of thread-local variables with this id.
abbrev pub HasModule : TlsLibrary → ℕ → Type 0
HasModule lib id = lib.user_data tls_id ≡ some (elf_tls id)

-- The id of the library's module is written at `ptr`, and nothing else; a library without a module
-- panics, and nothing is written.
abbrev pub IsWritten : ℕ → (ℕ → ℕ) → TlsLibrary → Result Bool × (ℕ → ℕ) → Type 0
IsWritten ptr words lib out =
    ((id : ℕ) × HasModule lib id × (out ≡ (ok true, (λ x. if x == ptr then id else words x))))
    ⊎ ((¬ ((id : ℕ) × HasModule lib id)) × ((q : Panic) × (out ≡ (panicked q, words))))

-- The id is that of the first of the libraries that has the symbol; if none has it, the answer is
-- false and nothing is written.
abbrev pub IsWrittenFirst :
    ℕ → (ℕ → ℕ) → SymbolInfo → List TlsLibrary → Result Bool × (ℕ → ℕ) → Type 0
IsWrittenFirst ptr words info [] out = out ≡ (ok false, words)
IsWrittenFirst ptr words info (dep ∷ deps) out =
    ((dep.lookup_filter info ≡ true) × IsWritten ptr words dep out)
    ⊎ ((dep.lookup_filter info ≡ false) × IsWrittenFirst ptr words info deps out)

-- The symbol of the relocation is the library's own: there is none, or it is a local one.
abbrev pub IsOwn : Abi → ElfRela → TlsLibrary → Type 0
IsOwn abi rela lib =
    (rela.r_symbol ≡ 0) ⊎ ((lib.symbol_idx rela.r_symbol).st_info / 16 ≡ abi.stb_local)

-- How `deal_unknown` ends for a relocation.
abbrev pub IsBound :
    Abi → ElfRela → TlsLibrary → List TlsLibrary → (ℕ → ℕ) → Result Bool × (ℕ → ℕ) → Type 0
IsBound abi rela lib deps words out =
    ((rela.r_type ≢ abi.rel_dtpmod) × (out ≡ (ok false, words)))
    ⊎ (((rela.r_type ≡ abi.rel_dtpmod)
          × IsOwn abi rela lib
          × IsWritten (lib.base + rela.r_offset) words lib out)
        ⊎ ((rela.r_type ≡ abi.rel_dtpmod)
            × (¬ IsOwn abi rela lib)
            × IsWrittenFirst (lib.base + rela.r_offset) words (lib.symbol_idx rela.r_symbol) deps
                out))

cast-cases :
    (lib : TlsLibrary)
    → ((id : ℕ) × HasModule lib id × (cast lib ≡ ok id))
      ⊎ ((¬ ((id : ℕ) × HasModule lib id)) × ((q : Panic) × (cast lib ≡ panicked q)))
unfolding module_id cast
cast-cases lib = go (lib.user_data tls_id) refl
  where
    go :
        (o : Option Datum)
        → lib.user_data tls_id ≡ o
        → ((id : ℕ) × HasModule lib id × (cast lib ≡ ok id))
          ⊎ ((¬ ((id : ℕ) × HasModule lib id)) × ((q : Panic) × (cast lib ≡ panicked q)))
    go none e = inr ((λ h. let (id, same) = h in cc (e, same)), (unwrap_none, rw (cast, e)))
    go (some (eh_frame f)) e =
        inr ((λ h. let (id, same) = h in cc (e, same)), (dangling, rw (cast, e)))
    go (some (debug_info d)) e =
        inr ((λ h. let (id, same) = h in cc (e, same)), (dangling, rw (cast, e)))
    go (some (elf_tls self)) e = inl (self, e, rw (cast, e))

module _ (ptr : ℕ) (words : ℕ → ℕ) where
  write_own-IsWritten : (lib : TlsLibrary) → IsWritten ptr words lib (write_own ptr lib words)
  unfolding write_own
  write_own-IsWritten lib = elim (cast-cases lib) [
    | inl (id, has, e) ↦ inl (id, has, rw e)
    | inr (lacks, (q, e)) ↦ inr (lacks, (q, rw e))
  ]

  write_found-IsWrittenFirst :
      (info : SymbolInfo) (deps : List TlsLibrary)
      → IsWrittenFirst ptr words info deps (write_found ptr info deps words)
  unfolding write_found find_module
  write_found-IsWrittenFirst info [] = refl
  write_found-IsWrittenFirst info (dep ∷ deps) = elim (Bool-cases (dep.lookup_filter info)) [
    | inr t ↦ inr (t, rw t (write_found-IsWrittenFirst info deps))
    | inl t ↦ elim (cast-cases dep) [
      | inl (id, has, e) ↦ inl (t, inl (id, has, rw (t, e)))
      | inr (lacks, (q, e)) ↦ inl (t, inr (lacks, (q, rw (t, e))))
    ]
  ]

-- However `deal_unknown` ends: a relocation of another type than REL_DTPMOD is refused with
-- false, and nothing is written. One without a symbol, or with a local one, gets the module id of
-- the library itself, and any other that of the first given library that has the symbol: the one
-- word at the place of the relocation changes to the id. If no given library has it, the answer
-- is false, and if the library has no module, the call panics; neither writes anything.
pub deal_unknown-IsBound :
    (abi : Abi) (rela : ElfRela) (lib : TlsLibrary) (deps : List TlsLibrary) (words : ℕ → ℕ)
    → IsBound abi rela lib deps words (deal_unknown abi rela lib deps words)
unfolding deal_unknown deal_dtpmod
deal_unknown-IsBound abi rela lib deps words =
    let ptr = lib.base + rela.r_offset in
    let info = lib.symbol_idx rela.r_symbol in
    elim (Bool-cases (rela.r_type == abi.rel_dtpmod)) [
      | inr other ↦ inl ((λ e. cc (other, (==_iff rela.r_type abi.rel_dtpmod).1 e)), rw other)
      | inl dtpmod ↦
          let kind = (==_iff rela.r_type abi.rel_dtpmod).0 dtpmod in
          elim (Bool-cases (rela.r_symbol == 0)) [
            | inl unnamed ↦ inr (
                inl (
                  kind,
                  inl ((==_iff rela.r_symbol 0).0 unnamed),
                  rw (dtpmod, unnamed) (write_own-IsWritten ptr words lib),
                ))
            | inr named ↦ elim (Bool-cases (info.st_info / 16 == abi.stb_local)) [
              | inl is_local ↦ inr (
                  inl (
                    kind,
                    inr ((==_iff (info.st_info / 16) abi.stb_local).0 is_local),
                    rw (dtpmod, named, is_local) (write_own-IsWritten ptr words lib),
                  ))
              | inr global ↦ inr (
                  inr (
                    kind,
                    (λ own. elim own [
                      | inl e ↦ cc (named, (==_iff rela.r_symbol 0).1 e)
                      | inr e ↦ cc (global, (==_iff (info.st_info / 16) abi.stb_local).1 e)
                    ]),
                    rw (dtpmod, named, global) (write_found-IsWrittenFirst ptr words info deps),
                  ))
            ]
          ]
    ]
