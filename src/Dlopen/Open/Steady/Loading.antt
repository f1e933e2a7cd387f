-- ===== src/Dlopen/Open/Steady/Loading.antt =====
-- What the closures that `dlopen` and `dlopen_from_binary` of src/dlopen.rs hand on return.
use dlopen_rs.Dlopen.Open.Prepared.Missing.{LoadsPlain}
use dlopen_rs.Flags.{OpenFlags}
use dlopen_rs.Dlopen.Open.{panicked, ok, Text}
use dlopen_rs.Loader.{
  elf_file, lazy_bind, elf_binary, from_impl, from_open_file, ElfLibrary, from_binary, from_file,
  Platform,
}
use dlopen_rs.Error.{Panic, Foreign-cases, Called-cases, out_of_fuel, Result}
use dlopen_rs.Dlopen.Open.Prepared.{IsPlain}
use dlopen_rs.Dlopen.Open.Panics.{IsLoadPanic}
use dlopen_rs.Base.{subst, inl, inr, List, ◌≡◌, ◌≢◌, ℕ}

-- The closure of `dlopen_impl` loads a library, or fails with an error or in `parse_phdr`.
pub record IsLoading (p : Platform) (f : Result ElfLibrary) : Type 0 where
  pub gives : (lib : ElfLibrary) → f ≡ ok lib → IsPlain lib.dylib
  pub ends : f ≢ out_of_fuel
  pub calm : (e : Panic) → f ≡ panicked e → IsLoadPanic p e

module _ (p : Platform) (loads : LoadsPlain p) where
  pub from_file-IsLoading : (path : Text) (flags : OpenFlags) → IsLoading p (from_file p path flags)
  unfolding from_file from_open_file from_impl
  from_file-IsLoading path flags = elim (Foreign-cases (p.open_file path)) [
    | inr (failed, e) ↦ rw e (record { gives = λ lib c. cc; ends = λ c. cc; calm = λ q c. cc })
    | inl (file, e) ↦ elim (Called-cases (p.load_dylib (elf_file path file) (lazy_bind flags))) [
      | inr (inl (failed, e')) ↦
          rw (e, e') (record { gives = λ lib c. cc; ends = λ c. cc; calm = λ q c. cc })
      | inr (inr (panic, e')) ↦
          rw (e, e')
            (record {
              gives = λ lib c. cc;
              ends = λ c. cc;
              calm = λ q c.
                  let same : panic ≡ q = cc c in
                  subst (IsLoadPanic p) same (elf_file path file, lazy_bind flags, e');
            })
      | inl (lib, e') ↦
          rw (e, e')
            (record {
              gives = λ l c.
                  let same : lib ≡ l.dylib = cc c in
                  subst IsPlain same (loads (elf_file path file) (lazy_bind flags) lib e');
              ends = λ c. cc;
              calm = λ q c. cc;
            })
    ]
  ]

  pub from_binary-IsLoading :
      (bytes : List ℕ) (path : Text) (flags : OpenFlags)
      → IsLoading p (from_binary p bytes path flags)
  unfolding from_binary from_impl
  from_binary-IsLoading bytes path flags =
      elim (Called-cases (p.load_dylib (elf_binary path bytes) (lazy_bind flags))) [
        | inr (inl (failed, e')) ↦
            rw e' (record { gives = λ lib c. cc; ends = λ c. cc; calm = λ q c. cc })
        | inr (inr (panic, e')) ↦ rw e' (record {
          gives = λ lib c. cc;
          ends = λ c. cc;
          calm = λ q c.
              let same : panic ≡ q = cc c in
              subst (IsLoadPanic p) same (elf_binary path bytes, lazy_bind flags, e');
        })
        | inl (lib, e') ↦ rw e' (record {
          gives = λ l c.
              let same : lib ≡ l.dylib = cc c in
              subst IsPlain same (loads (elf_binary path bytes) (lazy_bind flags) lib e');
          ends = λ c. cc;
          calm = λ q c. cc;
        })
      ]
