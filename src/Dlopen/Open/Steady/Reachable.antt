-- ===== src/Dlopen/Open/Steady/Reachable.antt =====
-- Any sequence of openings.
use dlopen_rs.Dlopen.Open.Steady.Loading.{IsLoading, from_file-IsLoading, from_binary-IsLoading}
use dlopen_rs.Dlopen.Open.Kept.{IsRestored, IsRestored-refl, IsSteady, IsRestored-IsSteady}
use dlopen_rs.Dlopen.Open.Prepared.Missing.{LoadsPlain}
use dlopen_rs.Dlopen.Open.Total.{dlopen_impl-ends}
use dlopen_rs.Base.Text.{split, split-last}
use dlopen_rs.Flags.{rtld_global, contains, OpenFlags}
use dlopen_rs.Register.{GlobalDylib, Manager}
use dlopen_rs.Dlopen.Open.{
  difference, dlopen_impl, get, panicked, ok, dlopen_from_binary, Text, dlopen,
}
use dlopen_rs.Loader.{ElfLibrary, Dylib, from_binary, from_file, Platform}
use dlopen_rs.Error.{err, out_of_fuel, Result}
use dlopen_rs.Dlopen.Open.Steady.Loaded.{IsLoadedFrom}
use dlopen_rs.Dlopen.Open.Steady.Answer.{Closing, loaded-Closing}
use dlopen_rs.Dlopen.Open.Promotion.{
  IsPromotion, promotion-IsRestored, dlopen_impl-promotion_panics,
}
use dlopen_rs.Dlopen.Open.Rollback.{SameLibraries, IsFailure, dlopen_impl-SameLibraries}
use dlopen_rs.Dlopen.Open.Closure.{IsNaming}
use dlopen_rs.Dlopen.Open.Panics.{IsDuePanic}
use dlopen_rs.Base.{
  not, ◌&&◌, is_some, Bool-cases, none, Option-cases, subst, inl, some, refl, inr, last?, List, ◌≡◌,
  ◌≢◌, ℕ,
}

-- One call of `dlopen` or of `dlopen_from_binary`, whatever it returns.
pub data Opening (p : Platform) (m : Manager) : Manager → Type 0 where
  by_path :
      (fresh : ℕ) (path : Text) (flags : OpenFlags) → Opening p m (dlopen p fresh path flags m).1
  by_bytes :
      (fresh : ℕ) (bytes : List ℕ) (path : Text) (flags : OpenFlags)
      → Opening p m (dlopen_from_binary p fresh bytes path flags m).1

-- The managers after any number of calls.
pub data Openings (p : Platform) (m : Manager) : Manager → Type 0 where
  here : Openings p m m
  next : {m' m'' : Manager} → Openings p m m' → Opening p m' m'' → Openings p m m''

-- A call returns a library or an error, or the assertion on the number of new libraries fails, or
-- a callback panics while a library is loaded or relocated.
abbrev pub IsAnswer : Platform → Result Dylib → Type 0
IsAnswer p (ok d) = Unit {0}
IsAnswer p (err e) = Unit {0}
IsAnswer p (panicked e) = IsDuePanic p e
IsAnswer p out_of_fuel = ⊥

module _ (p : Platform) (naming : IsNaming p) (loads : LoadsPlain p) where
  module _ (fresh : ℕ) (m : Manager) (steady : IsSteady m) where
    Closing-IsSteady :
        (Q : Dylib → Manager → Type 0) (out : Result Dylib × Manager)
        → Closing p naming loads fresh Q m steady out
        → (IsFailure out.0 → SameLibraries m out.1)
        → IsSteady out.1
    Closing-IsSteady Q (ok d, m') h same = h.0
    Closing-IsSteady Q (err e, m') h same = IsRestored-IsSteady m steady m' (same tt).0 h
    Closing-IsSteady Q (panicked e, m') h same = IsRestored-IsSteady m steady m' (same tt).0 h.1
    Closing-IsSteady Q (out_of_fuel, m') h same = IsRestored-IsSteady m steady m' (same tt).0 h

    Closing-IsRestored :
        (Q : Dylib → Manager → Type 0) (out : Result Dylib × Manager)
        → Closing p naming loads fresh Q m steady out
        → IsFailure out.0
        → IsRestored m steady out.1.all
    Closing-IsRestored Q (ok d, m') h bad = absurd bad
    Closing-IsRestored Q (err e, m') h bad = h
    Closing-IsRestored Q (panicked e, m') h bad = h.1
    Closing-IsRestored Q (out_of_fuel, m') h bad = h

    Closing-IsAnswer :
        (Q : Dylib → Manager → Type 0) (out : Result Dylib × Manager)
        → Closing p naming loads fresh Q m steady out
        → out.0 ≢ out_of_fuel
        → IsAnswer p out.0
    Closing-IsAnswer Q (ok d, m') h ends = tt
    Closing-IsAnswer Q (err e, m') h ends = tt
    Closing-IsAnswer Q (panicked e, m') h ends = h.0
    Closing-IsAnswer Q (out_of_fuel, m') h ends = absurd (ends refl)

    module _ (path key : Text) (flags : OpenFlags) (f : Result ElfLibrary) (loading : IsLoading p f)
        (named : last? (split b'/' path) ≡ some key) where
      anew-Closing :
          get key m.all ≡ none
          → Closing p naming loads fresh
              (IsLoadedFrom fresh flags f)
              m
              steady
              (dlopen_impl p fresh path flags f m)
      unfolding dlopen_impl
      anew-Closing e =
          rw (named, dlopen_impl, e)
            (loaded-Closing p naming loads fresh flags f m steady loading.gives loading.ends
              loading.calm)

      promotion-IsSteady :
          (lib : GlobalDylib)
          → get key m.all ≡ some lib
          → IsPromotion lib flags
          → IsSteady (dlopen_impl p fresh path flags f m).1
      unfolding dlopen_impl
      promotion-IsSteady lib e again =
          let panics =
            dlopen_impl-promotion_panics p fresh path key flags f m lib named e again
              steady.closed in
          let failed : IsFailure (dlopen_impl p fresh path flags f m).0 = rw panics tt in
          let same = dlopen_impl-SameLibraries p fresh path flags f m failed in
          IsRestored-IsSteady m steady (dlopen_impl p fresh path flags f m).1 same.0 (
            rw (named, dlopen_impl, e, again)
              (promotion-IsRestored p fresh flags m key lib steady e))

      dlopen_impl-IsSteady : IsSteady (dlopen_impl p fresh path flags f m).1
      unfolding dlopen_impl
      dlopen_impl-IsSteady = elim (Option-cases (get key m.all)) [
        | inl e ↦
            Closing-IsSteady (IsLoadedFrom fresh flags f) (dlopen_impl p fresh path flags f m)
              (anew-Closing e) (dlopen_impl-SameLibraries p fresh path flags f m)
        | inr (lib, e) ↦
            elim (Bool-cases
              (is_some lib.deps && not (contains (difference flags lib.flags) rtld_global))) [
                | inl t ↦ rw (named, dlopen_impl, e, t) steady
                | inr t ↦ promotion-IsSteady lib e t
              ]
      ]

      dlopen_impl-IsAnswer :
          get key m.all ≡ none → IsAnswer p (dlopen_impl p fresh path flags f m).0
      dlopen_impl-IsAnswer e =
          Closing-IsAnswer (IsLoadedFrom fresh flags f) (dlopen_impl p fresh path flags f m)
            (anew-Closing e) (dlopen_impl-ends p fresh path flags f m loading.ends)

      dlopen_impl-IsRestored :
          IsFailure (dlopen_impl p fresh path flags f m).0
          → IsRestored m steady (dlopen_impl p fresh path flags f m).1.all
      unfolding dlopen_impl
      dlopen_impl-IsRestored bad = elim (Option-cases (get key m.all)) [
        | inl e ↦
            Closing-IsRestored (IsLoadedFrom fresh flags f) (dlopen_impl p fresh path flags f m)
              (anew-Closing e) bad
        | inr (lib, e) ↦
            elim (Bool-cases
              (is_some lib.deps && not (contains (difference flags lib.flags) rtld_global))) [
                | inl t ↦ rw (named, dlopen_impl, e, t) (IsRestored-refl m steady)
                | inr t ↦
                    rw (named, dlopen_impl, e, t)
                      (promotion-IsRestored p fresh flags m key lib steady e)
              ]
      ]

  Opening-IsSteady : {m m' : Manager} → IsSteady m → Opening p m m' → IsSteady m'
  unfolding dlopen dlopen_from_binary
  Opening-IsSteady {m} steady (by_path fresh path flags) =
      let (key, named) = split-last b'/' path in
      dlopen_impl-IsSteady fresh m steady path key flags (from_file p path flags)
        (from_file-IsLoading p loads path flags) named
  Opening-IsSteady {m} steady (by_bytes fresh bytes path flags) =
      let (key, named) = split-last b'/' path in
      dlopen_impl-IsSteady fresh m steady path key flags (from_binary p bytes path flags)
        (from_binary-IsLoading p loads bytes path flags) named

  -- After any number of calls of `dlopen` and `dlopen_from_binary`, whatever each of them returned
  -- or panicked with, all that the registered libraries need is registered and none of them waits
  -- to be relocated, if it was so before the first call. (Libraries have the short name of their
  -- path, and need plain names.)
  pub Openings-IsSteady : {m m' : Manager} → IsSteady m → Openings p m m' → IsSteady m'
  Openings-IsSteady steady here = steady
  Openings-IsSteady steady (next before one) =
      Opening-IsSteady (Openings-IsSteady steady before) one

  -- After any number of such calls, opening a library that is not registered ends: it returns the
  -- library or an error, and the only panics are that of the assertion that fewer than 255
  -- libraries are new, and those of the callbacks: of `parse_phdr` while a library is loaded, and of
  -- `deal_unknown` while one is relocated. No `unwrap` and no index of the search or of the
  -- relocation fails. (The manager was steady before the first call; libraries have the short
  -- name of their path, and need plain names.)
  pub dlopen-IsAnswer :
      (fresh : ℕ) (path key : Text) (bytes : List ℕ) (flags : OpenFlags) (m m' : Manager)
      → IsSteady m
      → Openings p m m'
      → last? (split b'/' path) ≡ some key
      → get key m'.all ≡ none
      → IsAnswer p (dlopen p fresh path flags m').0
        × IsAnswer p (dlopen_from_binary p fresh bytes path flags m').0
  unfolding dlopen dlopen_from_binary
  dlopen-IsAnswer fresh path key bytes flags m m' steady openings named e =
      let steady' = Openings-IsSteady steady openings in
      (
        dlopen_impl-IsAnswer fresh m' steady' path key flags (from_file p path flags)
            (from_file-IsLoading p loads path flags) named e,
        dlopen_impl-IsAnswer fresh m' steady' path key flags (from_binary p bytes path flags)
            (from_binary-IsLoading p loads bytes path flags) named e,
      )

  opened :
      (fresh : ℕ) (path key : Text) (flags : OpenFlags) (f : Result ElfLibrary) (m m' : Manager)
      (steady : IsSteady m) (loading : IsLoading p f) (d : Dylib)
      → last? (split b'/' path) ≡ some key
      → get key m.all ≡ none
      → dlopen_impl p fresh path flags f m ≡ (ok d, m')
      → IsLoadedFrom fresh flags f d m'
  opened fresh path key flags f m m' steady loading d named e call =
      let Q = IsLoadedFrom fresh flags f in
      (subst (Closing p naming loads fresh Q m steady) call
        (anew-Closing fresh m steady path key flags f loading named e)).1

  -- After any number of such calls, a `dlopen` that succeeds on a library that is not registered
  -- has loaded the file of the path. It returns that library, with the flags less
  -- CUSTOM_NOT_REGISTER and a box of dependencies that starts with it, and has registered it so,
  -- as a global one too if RTLD_GLOBAL was given. Whatever the libraries in the box need is
  -- registered. (The manager was steady before the first call; libraries have the short name of
  -- their path, and need plain names.)
  pub dlopen-IsLoadedFrom :
      (fresh : ℕ) (path key : Text) (flags : OpenFlags) (m m' m'' : Manager) (d : Dylib)
      → IsSteady m
      → Openings p m m'
      → last? (split b'/' path) ≡ some key
      → get key m'.all ≡ none
      → dlopen p fresh path flags m' ≡ (ok d, m'')
      → IsLoadedFrom fresh flags (from_file p path flags) d m''
  unfolding dlopen
  dlopen-IsLoadedFrom fresh path key flags m m' m'' d steady openings named e call =
      opened fresh path key flags (from_file p path flags) m' m''
        (Openings-IsSteady steady openings) (from_file-IsLoading p loads path flags) d named e call

  -- After any number of such calls, a `dlopen` that returns an error or panics leaves the same
  -- names in both tables, in the same order, and under each name of `all` the same library, with
  -- none that waits to be relocated. (Nothing is said of flags, boxes and marks. The
  -- manager was steady before the first call; libraries have the short name of their path, and
  -- need plain names.)
  pub dlopen-IsRestored :
      (fresh : ℕ) (path : Text) (flags : OpenFlags) (m m' : Manager) (steady : IsSteady m)
      (openings : Openings p m m')
      → IsFailure (dlopen p fresh path flags m').0
      → SameLibraries m' (dlopen p fresh path flags m').1
        × IsRestored m' (Openings-IsSteady steady openings) (dlopen p fresh path flags m').1.all
  unfolding dlopen
  dlopen-IsRestored fresh path flags m m' steady openings bad =
      let (key, named) = split-last b'/' path in
      let f = from_file p path flags in
      (
        dlopen_impl-SameLibraries p fresh path flags f m' bad,
        dlopen_impl-IsRestored fresh m' (Openings-IsSteady steady openings) path key flags f
            (from_file-IsLoading p loads path flags) named bad,
      )
