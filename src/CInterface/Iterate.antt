-- ===== src/CInterface/Iterate.antt =====
-- What `dl_iterate_phdr` tells its callback.
use dlopen_rs.Base.{
  none, Option-cases, ◌%◌, List-cases, some, Bool-cases, length, ◌==◌, if◌then◌else◌, ==_iff, [],
  List, ℕ, ◌∷◌, ◌≡◌, refl, inl, inr,
}
use dlopen_rs.Base.IndexMap.{values}
use dlopen_rs.Register.{GlobalDylib, Manager}
use dlopen_rs.CInterface.{
  has_phdrs, values, GlobalDylib, Manager, PhdrInfo, phdr_info, iterate_libs, dl_iterate_phdr,
}

-- the reports that are due, one for each library with program headers
abbrev pub reports : ℕ → List GlobalDylib → List PhdrInfo
reports adds [] = []
reports adds (lib ∷ libs) = elim lib.inner.phdrs [
  | [] ↦ reports adds libs
  | ph ∷ phs ↦
      record {
        dlpi_addr = lib.inner.base;
        dlpi_name = lib.inner.name;
        dlpi_phdr = ph ∷ phs;
        dlpi_phnum = length (ph ∷ phs) % 65_536;
        dlpi_adds = adds;
        dlpi_subs = 0;
      }
      ∷ reports adds libs
]

-- The callback gets the reports in turn until it returns something else than 0.
abbrev pub deliver : {S : Type 0} → (PhdrInfo → S → ℕ × S) → List PhdrInfo → S → ℕ × S
deliver f [] s = (0, s)
deliver f (info ∷ infos) s = if (f info s).0 == 0 then deliver f infos (f info s).1 else f info s

reports-cons :
    (adds : ℕ) (lib : GlobalDylib) (libs : List GlobalDylib)
    → reports adds (lib ∷ libs) ≡ elim (has_phdrs lib.inner) [
      | none ↦ reports adds libs
      | some core ↦ phdr_info adds core ∷ reports adds libs
    ]
reports-cons adds lib libs = elim (List-cases lib.inner.phdrs) [
  | inl e ↦ rw (e, reports, has_phdrs)
  | inr (ph, phs, e) ↦ rw (e, reports, has_phdrs) (rw (e, phdr_info))
]

module _ {S : Type 0} (f : PhdrInfo → S → ℕ × S) (adds : ℕ) where
  iterate_libs-deliver :
      (libs : List GlobalDylib) (s : S)
      → iterate_libs (some f) adds 0 libs s ≡ deliver f (reports adds libs) s
  unfolding iterate_libs
  iterate_libs-deliver [] s = refl
  iterate_libs-deliver (lib ∷ libs) s = elim (Option-cases (has_phdrs lib.inner)) [
    | inl e ↦ rw (reports-cons adds lib libs, e, iterate_libs) (iterate_libs-deliver libs s)
    | inr (core, e) ↦ elim (Bool-cases ((f (phdr_info adds core) s).0 == 0)) [
      | inl t ↦
          let zero_ret = (==_iff (f (phdr_info adds core) s).0 0).0 t in
          rw (reports-cons adds lib libs, e, iterate_libs, t, zero_ret)
            (iterate_libs-deliver libs (f (phdr_info adds core) s).1)
      | inr t ↦ rw (reports-cons adds lib libs, e, iterate_libs, t)
    ]
  ]

-- `dl_iterate_phdr` calls the host's function first. If that returns 0, the callback gets a
-- report of every registered library that has program headers, in the order of registration,
-- until it returns something else than 0, which is the result. A report has the base address, the
-- name, the headers and their number modulo 2^16.
pub dl_iterate_phdr-deliver :
    {S : Type 0} (f : PhdrInfo → S → ℕ × S) (old : S → ℕ × S) (m : Manager) (s : S)
    → dl_iterate_phdr (some f) old m s ≡ (
        if (old s).0 == 0
        then deliver f (reports (length m.all) (values m.all)) (old s).1
        else old s)
unfolding dl_iterate_phdr
dl_iterate_phdr-deliver f old m s = elim (Bool-cases ((old s).0 == 0)) [
  | inl e ↦
      let zero_ret : (old s).0 ≡ 0 = (==_iff (old s).0 0).0 e in
      rw (e, zero_ret) (iterate_libs-deliver f (length m.all) (values m.all) (old s).1)
  | inr e ↦ rw e
]
