-- ===== src/Dlopen/Open/Steady/Loaded.antt =====
-- What a call registers and returns that loads a library.
use dlopen_rs.Base.Text.{text_eq_refl}
use dlopen_rs.Dlopen.Open.Listed.{AllListed, IsClosed}
use dlopen_rs.Dlopen.Open.{rtld_global, contains, strip, ok, Manager}
use dlopen_rs.Error.{Result}
use dlopen_rs.Flags.{OpenFlags}
use dlopen_rs.Loader.{ElfLibrary, Deps, CoreComponent, Dylib}
use dlopen_rs.Base.IndexMap.{get-insert, get, insert}
use dlopen_rs.Register.{entry, register}
use dlopen_rs.Dlopen.Open.Kept.{IsSteady, IsQuiet}
use dlopen_rs.Dlopen.Open.Prepared.Insert.{insert-new, entry_after, insert-Keeps}
use dlopen_rs.Dlopen.Open.Steady.{Walk, GlobalDylib}
use dlopen_rs.Dlopen.Open.Ready.{AllListed-Keeps}
use dlopen_rs.Base.{
  true, List, inr, ◌∙◌, subst, inl, some, none, get_elem?, false, refl, ◌≡◌, Option, ℕ,
}

-- A registration keeps the manager steady, where what the library needs is registered.
pub register-IsSteady :
    (core : CoreComponent) (flags : OpenFlags) (deps : Option Deps) (m : Manager)
    → IsClosed m.all
    → IsQuiet m.all
    → AllListed m.all core.needed_libs
    → IsSteady (register core flags deps m false none)
unfolding register
register-IsSteady core flags deps m closed quiet listed =
    let new = entry core flags deps false none in
    let name = core.shortname in
    let keeps = insert-Keeps name new m.all in
    record {
      closed = λ k lib e. elim (entry_after name new m.all k lib e) [
        | inl (same, is_new) ↦
            subst (λ (x : GlobalDylib). AllListed (insert name new m.all) x.inner.needed_libs)
              is_new (AllListed-Keeps m.all (insert name new m.all) core.needed_libs keeps listed)
        | inr old ↦
            AllListed-Keeps m.all (insert name new m.all) lib.inner.needed_libs keeps
              (closed k lib old)
      ];
      quiet = λ k lib e. elim (entry_after name new m.all k lib e) [
        | inl (same, is_new) ↦ subst (λ (x : GlobalDylib). x.new_idx ≡ 255) is_new refl
        | inr old ↦ quiet k lib old
      ];
    }

-- What a call returns that loaded `core`: the library with the box of its dependencies, `core` the
-- first of them; it is registered so, and global if that was asked for.
pub record IsLoaded (fresh : ℕ) (flags : OpenFlags) (core : CoreComponent) (d : Dylib) (m : Manager)
    : Type 0 where
  pub items : List CoreComponent
  pub handle :
      d
      ≡ record { inner = core; flags = flags; deps = some (record { addr = fresh; items = items }) }
  pub first : get_elem? items 0 ≡ some core
  pub registered : get core.shortname m.all ≡ some (entry core flags d.deps false none)
  pub global : contains flags rtld_global ≡ true → get core.shortname m.global ≡ some core
  pub closed :
      (j : ℕ) (dep : CoreComponent) → get_elem? items j ≡ some dep → AllListed m.all dep.needed_libs

pub register-IsLoaded :
    (fresh : ℕ) (flags : OpenFlags) (core : CoreComponent) (items : List CoreComponent)
    (m : Manager)
    → get_elem? items 0 ≡ some core
    → ((j : ℕ) (dep : CoreComponent)
        → get_elem? items j ≡ some dep
        → AllListed m.all dep.needed_libs)
    → let deps : Option Deps = some (record { addr = fresh; items = items }) in
      IsLoaded fresh flags core
        (record { inner = core; flags = flags; deps = deps })
        (register core flags deps m false none)
unfolding register
register-IsLoaded fresh flags core items m first closed =
    let deps : Option Deps = some (record { addr = fresh; items = items }) in
    let new = entry core flags deps false none in
    let name = core.shortname in
    record {
      items = items;
      handle = refl;
      first = first;
      registered = insert-new name new m.all;
      global = λ asked. rw asked (get-insert name name core m.global ∙ rw (text_eq_refl name));
      closed = λ j dep e.
          AllListed-Keeps m.all (insert name new m.all) dep.needed_libs
            (insert-Keeps name new m.all) (closed j dep e);
    }

abbrev pub Steady : ℕ → OpenFlags → CoreComponent → Dylib → Walk → Type 0
Steady fresh flags core d w = IsSteady w.manager × IsLoaded fresh flags core d w.manager

-- The returned library is the one that the closure of `dlopen_impl` has loaded.
abbrev pub IsLoadedFrom : ℕ → OpenFlags → Result ElfLibrary → Dylib → Manager → Type 0
IsLoadedFrom fresh flags f d m =
    (lib : ElfLibrary) × (f ≡ ok lib) × IsLoaded fresh (strip flags) lib.dylib.core_component d m
