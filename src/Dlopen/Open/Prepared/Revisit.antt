-- ===== src/Dlopen/Open/Prepared/Revisit.antt =====
-- Meeting a registered library keeps the search prepared.
use dlopen_rs.Dlopen.Open.Kept.{AllKept-modify}
use dlopen_rs.Dlopen.Open.Listed.{AllListed, listed-modify}
use dlopen_rs.Dlopen.Search.{promote, revisit}
use dlopen_rs.Loader.{CoreComponent}
use dlopen_rs.Base.IndexMap.{insert, modify, get, IndexMap}
use dlopen_rs.Register.{set_flags, set_mark}
use dlopen_rs.Base.Text.{Text}
use dlopen_rs.Flags.{rtld_global, difference, contains, OpenFlags}
use dlopen_rs.Dlopen.Resolve.Descent.{changed}
use dlopen_rs.Dlopen.Resolve.Visits.{Waiting-modify, Waiting}
use dlopen_rs.Dlopen.Open.Ready.{Keeps, AllListed-Keeps}
use dlopen_rs.Dlopen.Open.Prepared.{
  IsNew, Walk, GlobalDylib, IsPrepared, Going, IsQueued-append, unclosed-grow, all_listed-AllListed,
  open_one,
}
use dlopen_rs.Dlopen.Open.Closure.{Onward-revisit, Onward-refl}
use dlopen_rs.Base.{
  [], get_elem?-append_cases, length-append, arith, inr, ◌∙◌, ap, Bool-cases, ◌⊎◌, subst, refl, sym,
  ◌∷◌, inl, ◌++◌, some, false, ◌≡◌, true, ℕ,
}

-- A change of an entry that keeps its library and its index, and takes no mark away.
record Mild (f : GlobalDylib → GlobalDylib) : Type 0 where
  index : (lib : GlobalDylib) → (f lib).new_idx ≡ lib.new_idx
  core : (lib : GlobalDylib) → (f lib).inner ≡ lib.inner
  mark : (lib : GlobalDylib) → lib.is_mark ≡ true → (f lib).is_mark ≡ true

module _ (name : Text) (f : GlobalDylib → GlobalDylib) (mild : Mild f) where
  -- an entry after the change has the index, the library and the mark of one before it
  entry_before :
      (m : IndexMap GlobalDylib) (k : Text) (lib : GlobalDylib)
      → get k (modify name f m) ≡ some lib
      → (old : GlobalDylib) × (get k m ≡ some old)
        × (lib.new_idx ≡ old.new_idx)
        × (lib.inner ≡ old.inner)
        × (old.is_mark ≡ true → lib.is_mark ≡ true)
  entry_before m k lib e =
      let (old, o, which) = changed m name k f m lib e in
      elim which [
        | inl same ↦ (
          old,
          o,
          ap (λ (x : GlobalDylib). x.new_idx) same ∙ mild.index old,
          ap (λ (x : GlobalDylib). x.inner) same ∙ mild.core old,
          (λ h. ap (λ (x : GlobalDylib). x.is_mark) same ∙ mild.mark old h),
        )
        | inr same ↦ (
          old,
          o,
          ap (λ (x : GlobalDylib). x.new_idx) same,
          ap (λ (x : GlobalDylib). x.inner) same,
          (λ h. ap (λ (x : GlobalDylib). x.is_mark) same ∙ h),
        )
      ]

  Waiting-before :
      (m : IndexMap GlobalDylib) (k : Text) (idx : ℕ)
      → Waiting (modify name f m) k idx
      → Waiting m k idx
  Waiting-before m k idx (lib, e, v) =
      let (old, o, same, _, _) = entry_before m k lib e in (old, o, sym same ∙ v)

  modify-Keeps : (m : IndexMap GlobalDylib) → Keeps m (modify name f m)
  modify-Keeps m k h = listed-modify name f m k h

  IsPrepared-modify :
      (m0 : IndexMap GlobalDylib) (w : Walk) (global : IndexMap CoreComponent)
      → IsPrepared m0 w
      → IsPrepared m0
          (record w { manager = record { all = modify name f w.manager.all; global = global } })
  IsPrepared-modify m0 w global h =
      let m = w.manager.all in
      let m' = modify name f m in
      let index = λ (idx : ℕ) (l : GlobalDylib) (e : l.new_idx ≡ idx). mild.index l ∙ e in
      record {
        first = h.first;
        waiting = λ k idx wait ne. h.waiting k idx (Waiting-before m k idx wait) ne;
        single = λ k k' idx one other ne.
            h.single k k' idx (Waiting-before m k idx one) (Waiting-before m k' idx other) ne;
        entries = λ k lib e.
            let (old, o, same, core, mark) = entry_before m k lib e in
            elim (h.entries k old o) [
              | inl listed ↦ inl (
                  AllListed-Keeps m m' lib.inner.needed_libs (modify-Keeps m)
                    (subst (λ (c : CoreComponent). AllListed m c.needed_libs) (sym core) listed))
              | inr (marked, is_new) ↦
                  inr (mark marked, subst (λ c. IsNew c w.new_libs) (sym core) is_new)
            ];
        queued = h.queued;
        owned = λ j core e. elim (h.owned j core e) [
          | inl listed ↦ inl (AllListed-Keeps m m' core.needed_libs (modify-Keeps m) listed)
          | inr is_new ↦ inr is_new
        ];
        sound = h.sound;
        parent = λ i lib e. elim (h.parent i lib e) [
          | inl root ↦ inl root
          | inr (ne, (j, l, needed, below, at_j, inside, wait)) ↦ inr (
            ne,
            (j, l, needed, below, at_j, inside, Waiting-modify name f m needed i (index i) wait),
          )
        ];
        old = AllKept-modify m0 name f m (mild.core, (λ l e. mild.index l ∙ e)) h.old;
      }

IsPrepared-queue :
    (m0 : IndexMap GlobalDylib) (w : Walk) (core : CoreComponent)
    → AllListed w.manager.all core.needed_libs ⊎ IsNew core w.new_libs
    → IsPrepared m0 w
    → IsPrepared m0 (record w { dep_libs = w.dep_libs ++ core ∷ [] })
IsPrepared-queue m0 w core fits h = record {
  first = h.first;
  waiting = h.waiting;
  single = h.single;
  entries = h.entries;
  queued = λ i lib e. IsQueued-append lib.dylib.core_component core w.dep_libs (h.queued i lib e);
  owned = λ j c e. elim (get_elem?-append_cases w.dep_libs core j e) [
    | inl before ↦ h.owned j c before
    | inr (at_end, same) ↦
        subst (λ (x : CoreComponent). AllListed w.manager.all x.needed_libs ⊎ IsNew x w.new_libs)
          same fits
  ];
  sound = h.sound;
  parent = h.parent;
  old = h.old;
}

Mild-mark : Mild (set_mark true)
Mild-mark = record { index = λ lib. refl; core = λ lib. refl; mark = λ lib h. refl }

Mild-flags : (flags : OpenFlags) → Mild (set_flags flags)
Mild-flags flags = record { index = λ lib. refl; core = λ lib. refl; mark = λ lib h. h }

module _ (m0 : IndexMap GlobalDylib) (flags : OpenFlags) (name : Text) (lib : GlobalDylib)
    (w : Walk) (here : get name w.manager.all ≡ some lib) where
  fits :
      IsPrepared m0 w → AllListed w.manager.all lib.inner.needed_libs ⊎ IsNew lib.inner w.new_libs
  fits h = elim (h.entries name lib here) [
    | inl listed ↦ inl listed
    | inr (marked, is_new) ↦ inr is_new
  ]

  unmarked : IsPrepared m0 w → lib.is_mark ≡ false → AllListed w.manager.all lib.inner.needed_libs
  unmarked h clear = elim (h.entries name lib here) [
    | inl listed ↦ listed
    | inr (marked, is_new) ↦ cc
  ]

  revisit-IsPrepared : IsPrepared m0 w → IsPrepared m0 (revisit flags name lib w)
  unfolding revisit promote
  revisit-IsPrepared h = elim (Bool-cases lib.is_mark) [
    | inl t ↦ rw t h
    | inr t ↦
        let queued = IsPrepared-queue m0 w lib.inner (fits h) h in
        let w1 = record w { dep_libs = w.dep_libs ++ lib.inner ∷ [] } in
        let marked =
          IsPrepared-modify name (set_mark true) Mild-mark m0 w1 w.manager.global queued in
        let m1 = record w.manager { all = modify name (set_mark true) w.manager.all } in
        elim (Bool-cases (contains (difference flags lib.flags) rtld_global)) [
          | inl g ↦
              rw (t, g)
                (IsPrepared-modify name (set_flags flags) (Mild-flags flags) m0
                  (record w1 { manager = m1 })
                  (insert lib.inner.shortname lib.inner w.manager.global) marked)
          | inr g ↦ rw (t, g) marked
        ]
  ]

  pub revisit-Keeps : Keeps w.manager.all (revisit flags name lib w).manager.all
  revisit-Keeps k h = (Onward-revisit w flags name lib w (Onward-refl w)).kept k h

  revisit-queue :
      (lib.is_mark ≡ true)
      ⊎ ((lib.is_mark ≡ false)
          × ((revisit flags name lib w).dep_libs ≡ w.dep_libs ++ lib.inner ∷ []))
  unfolding revisit
  revisit-queue = elim (Bool-cases lib.is_mark) [ inl t ↦ inl t | inr t ↦ inr (t, rw t) ]

  pub revisit-paths :
      ((revisit flags name lib w).rpath_vec ≡ w.rpath_vec)
      × ((revisit flags name lib w).cur_rpath_pos ≡ w.cur_rpath_pos)
  unfolding revisit
  revisit-paths = elim (Bool-cases lib.is_mark) [
    | inl t ↦ rw t (refl, refl)
    | inr t ↦ rw t (refl, refl)
  ]

  pub revisit-Going :
      (pos extra : ℕ) → Going m0 pos extra w → Going m0 pos extra (revisit flags name lib w)
  revisit-Going pos extra g = elim revisit-queue [
    | inl t ↦ unfold revisit in rw t g
    | inr (t, q) ↦
        let w' = revisit flags name lib w in
        let listed =
          AllListed-Keeps w.manager.all w'.manager.all lib.inner.needed_libs revisit-Keeps
            (unmarked g.prepared t) in
        let closed : open_one w'.manager.all lib.inner ≡ 0 =
          rw (all_listed-AllListed w'.manager.all lib.inner.needed_libs listed) in
        let grown =
          unclosed-grow w.manager.all w'.manager.all pos w.dep_libs lib.inner revisit-Keeps
            g.within in
        let (paths, position) = revisit-paths in
        record {
          prepared = revisit-IsPrepared g.prepared;
          room = rw (q, paths, position) (omega (arith, grown, closed, g.room));
          within = rw (q, length-append w.dep_libs (lib.inner ∷ [])) (omega (arith, g.within));
        }
  ]
