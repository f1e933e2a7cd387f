-- ===== src/Dlopen/Open/Prepared/Add.antt =====
-- Adding a library that was mapped keeps the search prepared.
use dlopen_rs.Dlopen.Open.Prepared.Insert.{
  small, Holds-lt, entry_after, insert-new, IsNew-append, insert-waits, insert-kept, insert-Keeps,
  Holds-append,
}
use dlopen_rs.Dlopen.Resolve.Descent.{InNames}
use dlopen_rs.Loader.{CoreComponent}
use dlopen_rs.Dlopen.Search.{rpath_of, add_library}
use dlopen_rs.Register.{register, entry}
use dlopen_rs.Error.{out_of_fuel, assertion_failed, panicked, err, ok, Result}
use dlopen_rs.Base.IndexMap.{get, IndexMap}
use dlopen_rs.Flags.{OpenFlags}
use dlopen_rs.Dlopen.Resolve.Visits.{Waiting}
use dlopen_rs.Dlopen.Open.Ready.{Holds, Keeps, AllListed-Keeps}
use dlopen_rs.Dlopen.Open.Prepared.{
  IsNew, AllKept, HasParent, AllListed, Walk, GlobalDylib, ElfLibrary, Text, IsPrepared, IsPlain,
  Going, IsQueued, IsQueued-append, unclosed-grow, open_one-le,
}
use dlopen_rs.Base.{
  [], refl, ltb→lt, get_elem?-append, subst, true, ltb, ◌≤◌, ◌∙◌, sym, inr, get_elem?-append_last,
  ◌⊎◌, ◌∷◌, get_elem?-append_cases, inl, Bool-cases, length-append, none, get_elem?, some, arith,
  get_elem?-lt, ◌≡◌, ◌≢◌, length, ◌++◌, ◌^◌, Option, ◌%◌, ◌<◌, List, ℕ,
}

-- A library that this call has mapped needs the name.
abbrev pub IsAsked : Text → List (Option ElfLibrary) → Type 0
IsAsked name libs =
    (j : ℕ) × (lib : ElfLibrary) × (get_elem? libs j ≡ some (some lib))
    × InNames name lib.dylib.core_component.needed_libs

module _ (m0 : IndexMap GlobalDylib) (flags : OpenFlags) (lib : ElfLibrary)
    (plain : IsPlain lib.dylib) (w : Walk)
    (fresh : get lib.dylib.core_component.shortname w.manager.all ≡ none)
    (asked : IsAsked lib.dylib.core_component.shortname w.new_libs) where
  abbrev new_entry : GlobalDylib
  new_entry = entry lib.dylib.core_component flags none true (some (length w.new_libs % 2 ^ 8))

  module _ (fits : length w.new_libs < 255) where
    abbrev grown : Walk
    grown = record {
      manager =
          register lib.dylib.core_component flags none w.manager true
            (some (length w.new_libs % 2 ^ 8));
      dep_libs = w.dep_libs ++ lib.dylib.core_component ∷ [];
      new_libs = w.new_libs ++ some lib ∷ [];
      rpath_vec = w.rpath_vec ++ rpath_of lib ∷ [];
      cur_rpath_pos = w.cur_rpath_pos;
      relocated = w.relocated;
    }

    new_index :
        (k : Text) (idx : ℕ)
        → Waiting grown.manager.all k idx
        → ((lib.dylib.core_component.shortname ≡ k) × (idx ≡ length w.new_libs))
          ⊎ Waiting w.manager.all k idx
    unfolding register
    new_index k idx wait =
        elim (insert-waits lib.dylib.core_component.shortname new_entry w.manager.all k idx wait) [
          | inl (same, e) ↦ inl (same, e ∙ small (length w.new_libs) fits)
          | inr old ↦ inr old
        ]

    grown-Keeps : Keeps w.manager.all grown.manager.all
    unfolding register
    grown-Keeps = insert-Keeps lib.dylib.core_component.shortname new_entry w.manager.all

    module _ (h : IsPrepared m0 w) where
      grown-Waiting :
          (k : Text) (idx : ℕ)
          → Waiting grown.manager.all k idx
          → idx ≢ 255
          → Holds grown.new_libs idx × (idx ≢ 0)
      grown-Waiting k idx wait ne = elim (new_index k idx wait) [
        | inl (same, e) ↦ (
          rw e (lib, get_elem?-append_last w.new_libs (some lib)),
          (λ z. absurd (omega (arith, z, e, Holds-lt w.new_libs 0 h.first))),
        )
        | inr old ↦
            let (holds, positive) = h.waiting k idx old ne in
            (Holds-append w.new_libs lib idx holds, positive)
      ]

      -- an index that waited is smaller than the new one
      older :
          (k : Text) (idx : ℕ) → Waiting w.manager.all k idx → idx ≢ 255 → idx < length w.new_libs
      older k idx wait ne = Holds-lt w.new_libs idx (h.waiting k idx wait ne).0

      grown_single :
          (k k' : Text) (idx : ℕ)
          → Waiting grown.manager.all k idx
          → Waiting grown.manager.all k' idx
          → idx ≢ 255
          → k ≡ k'
      grown_single k k' idx one other ne = elim (new_index k idx one) [
        | inl (same, e) ↦ elim (new_index k' idx other) [
          | inl (same', e') ↦ sym same ∙ same'
          | inr old ↦ absurd (omega (arith, e, older k' idx old ne))
        ]
        | inr old ↦ elim (new_index k' idx other) [
          | inl (same', e') ↦ absurd (omega (arith, e', older k idx old ne))
          | inr old' ↦ h.single k k' idx old old' ne
        ]
      ]

      grown-IsNew : IsNew lib.dylib.core_component grown.new_libs
      grown-IsNew = (length w.new_libs, lib, get_elem?-append_last w.new_libs (some lib), refl)

      grown_entries :
          (k : Text) (l : GlobalDylib)
          → get k grown.manager.all ≡ some l
          → AllListed grown.manager.all l.inner.needed_libs
            ⊎ ((l.is_mark ≡ true) × IsNew l.inner grown.new_libs)
      unfolding register
      grown_entries k l e =
          elim (entry_after lib.dylib.core_component.shortname new_entry w.manager.all k l e) [
            | inl (same, is_new) ↦ inr (
                subst (λ (x : GlobalDylib). (x.is_mark ≡ true) × IsNew x.inner grown.new_libs)
                  is_new (refl, grown-IsNew))
            | inr old ↦ elim (h.entries k l old) [
              | inl listed ↦ inl (
                  AllListed-Keeps w.manager.all grown.manager.all l.inner.needed_libs grown-Keeps
                    listed)
              | inr (marked, is_new) ↦ inr (marked, IsNew-append w.new_libs lib l.inner is_new)
            ]
          ]

      grown_owned :
          (j : ℕ) (core : CoreComponent)
          → get_elem? grown.dep_libs j ≡ some core
          → AllListed grown.manager.all core.needed_libs ⊎ IsNew core grown.new_libs
      grown_owned j core e = elim (get_elem?-append_cases w.dep_libs lib.dylib.core_component j e) [
        | inl before ↦ elim (h.owned j core before) [
          | inl listed ↦
              inl (
                AllListed-Keeps w.manager.all grown.manager.all core.needed_libs grown-Keeps listed)
          | inr is_new ↦ inr (IsNew-append w.new_libs lib core is_new)
        ]
        | inr (at_end, same) ↦ inr (subst (λ c. IsNew c grown.new_libs) same grown-IsNew)
      ]

      new-HasParent : HasParent grown (length w.new_libs)
      unfolding register
      new-HasParent =
          let (j, l, at_j, inside) = asked in
          let name = lib.dylib.core_component.shortname in
          (
            j,
            l,
            name,
            get_elem?-lt w.new_libs j at_j,
            get_elem?-append w.new_libs (some lib ∷ []) j at_j,
            inside,
            (new_entry, insert-new name new_entry w.manager.all, small (length w.new_libs) fits),
          )

      grown_parent :
          (i : ℕ) (l : ElfLibrary)
          → get_elem? grown.new_libs i ≡ some (some l)
          → (i ≡ 0) ⊎ ((i ≢ 255) × HasParent grown i)
      unfolding register
      grown_parent i l e = elim (get_elem?-append_cases w.new_libs (some lib) i e) [
        | inr (at_end, is_new) ↦
            inr ((λ c. absurd (omega (arith, at_end, c, fits))), rw at_end new-HasParent)
        | inl before ↦ elim (h.parent i l before) [
          | inl root ↦ inl root
          | inr (ne, (j, l', name, below, at_j, inside, (entry, here, v))) ↦ inr (
            ne,
            (
              j,
              l',
              name,
              below,
              get_elem?-append w.new_libs (some lib ∷ []) j at_j,
              inside,
              (
                entry,
                insert-kept lib.dylib.core_component.shortname new_entry w.manager.all name entry
                    fresh here,
                v,
              ),
            ),
          )
        ]
      ]

      grown_old : AllKept m0 grown.manager.all
      unfolding register
      grown_old name l0 e =
          let (l, here, core, relocated) = h.old name l0 e in
          (
            l,
            insert-kept lib.dylib.core_component.shortname new_entry w.manager.all name l fresh
                here,
            core,
            relocated,
          )

      grown-IsQueued :
          (i : ℕ) (l : ElfLibrary)
          → get_elem? grown.new_libs i ≡ some (some l)
          → IsQueued l.dylib.core_component grown.dep_libs
      grown-IsQueued i l e = elim (get_elem?-append_cases w.new_libs (some lib) i e) [
        | inl old ↦
            IsQueued-append l.dylib.core_component lib.dylib.core_component w.dep_libs
              (h.queued i l old)
        | inr (at_end, is_new) ↦
            let same : lib ≡ l = cc is_new in
            subst (λ (x : ElfLibrary). IsQueued x.dylib.core_component grown.dep_libs) same
              (length w.dep_libs, get_elem?-append_last w.dep_libs lib.dylib.core_component)
      ]

      grown_sound :
          (i : ℕ) (l : ElfLibrary) → get_elem? grown.new_libs i ≡ some (some l) → IsPlain l.dylib
      grown_sound i l e = elim (get_elem?-append_cases w.new_libs (some lib) i e) [
        | inl old ↦ h.sound i l old
        | inr (at_end, is_new) ↦
            let same : lib ≡ l = cc is_new in subst (λ (x : ElfLibrary). IsPlain x.dylib) same plain
      ]

      grown-IsPrepared : IsPrepared m0 grown
      grown-IsPrepared = record {
        first = Holds-append w.new_libs lib 0 h.first;
        waiting = grown-Waiting;
        single = grown_single;
        entries = grown_entries;
        queued = grown-IsQueued;
        owned = grown_owned;
        sound = grown_sound;
        parent = grown_parent;
        old = grown_old;
      }

    grown-Going : (pos extra : ℕ) → Going m0 pos extra w → Going m0 pos extra grown
    grown-Going pos extra g =
        let core = lib.dylib.core_component in
        record {
          prepared = grown-IsPrepared g.prepared;
          room = omega (
            arith,
            unclosed-grow w.manager.all grown.manager.all pos w.dep_libs core grown-Keeps g.within,
            open_one-le grown.manager.all core,
            length-append w.rpath_vec (rpath_of lib ∷ []),
            g.room,
          );
          within = omega (arith, length-append w.dep_libs (core ∷ []), g.within);
        }

  -- The step ends well, or with the assertion that fewer than 255 libraries are new.
  abbrev pub Added : ℕ → ℕ → Result (Unit {0}) × Walk → Type 0
  Added pos extra (ok u, w') =
      Going m0 pos extra w'
      × (length w.rpath_vec ≤ length w'.rpath_vec)
      × ((core : CoreComponent) → IsQueued core w.dep_libs → IsQueued core w'.dep_libs)
  Added pos extra (err e, w') = ⊥
  Added pos extra (panicked e, w') = (e ≡ assertion_failed) × AllKept m0 w'.manager.all
  Added pos extra (out_of_fuel, w') = ⊥

  pub add_library-Added :
      (pos extra : ℕ) → Going m0 pos extra w → Added pos extra (add_library flags lib w)
  unfolding add_library
  add_library-Added pos extra g = elim (Bool-cases (ltb (length w.new_libs) 255)) [
    | inl t ↦
        rw (t, add_library)
          (
            grown-Going (ltb→lt (length w.new_libs) 255 t) pos extra g,
            omega (arith, length-append w.rpath_vec (rpath_of lib ∷ [])),
            (λ core q. IsQueued-append core lib.dylib.core_component w.dep_libs q),
          )
    | inr t ↦ rw (t, add_library) (refl, g.prepared.old)
  ]
