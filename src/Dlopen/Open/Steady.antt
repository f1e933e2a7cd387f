-- ===== src/Dlopen/Open/Steady.antt =====
-- Between two calls, what the libraries need is registered and none waits to be relocated.
pub mod Relocated
pub mod Loaded
pub mod Answer
pub mod Loading
pub mod Reachable
use dlopen_rs.Dlopen.Open.Ready.{IsReady}
use dlopen_rs.Dlopen.Search.{rpath_of}
use dlopen_rs.Dlopen.Open.Listed.{IsClosed, AllListed}
use dlopen_rs.Dlopen.Open.Closure.{AllFound, IsComplete}
use dlopen_rs.Base.Text.{Text}
use dlopen_rs.Dlopen.Walk.{start_walk, Walk}
use dlopen_rs.Loader.{CoreComponent, ElfLibrary}
use dlopen_rs.Register.{GlobalDylib, Manager}
use dlopen_rs.Base.IndexMap.{IndexMap}
use dlopen_rs.Dlopen.Open.Kept.{IsSteady, AllKept-refl}
use dlopen_rs.Dlopen.Open.Prepared.{
  open_one-le, IsPrepared, IsPlain, IsNew, IsQueued, AllPlain, Going,
}
use dlopen_rs.Dlopen.Open.Reached.{root}
use dlopen_rs.Base.{
  [], arith, refl, inr, ◌∙◌, inl, sym, subst, zero, suc, some, ◌≡◌, List, ◌∷◌, get_elem?, ℕ,
}

found-listed :
    (m : IndexMap GlobalDylib) (names : List Text)
    → AllPlain names
    → AllFound m names
    → AllListed m names
found-listed m [] plain h = tt
found-listed m (name ∷ names) plain h = (rw plain.0 at h.0, found-listed m names plain.1 h.1)

IsComplete-get :
    (m : IndexMap GlobalDylib) (cores : List CoreComponent) (i : ℕ) (core : CoreComponent)
    → IsComplete m cores
    → get_elem? cores i ≡ some core
    → AllFound m core.needed_libs
IsComplete-get m [] i core h e = cc
IsComplete-get m (c ∷ cores) zero core h e =
    let same : c ≡ core = cc e in subst (λ (x : CoreComponent). AllFound m x.needed_libs) same h.0
IsComplete-get m (c ∷ cores) (suc i) core h e = IsComplete-get m cores i core h.1 e

-- A search that succeeded is ready for the relocation.
module _ (m0 : IndexMap GlobalDylib) (w : Walk) (h : IsPrepared m0 w)
    (complete : IsComplete w.manager.all w.dep_libs) where
  new-AllListed :
      (i : ℕ) (lib : ElfLibrary)
      → get_elem? w.new_libs i ≡ some (some lib)
      → AllListed w.manager.all lib.dylib.core_component.needed_libs
  new-AllListed i lib e =
      let (j, at_j) = h.queued i lib e in
      found-listed w.manager.all lib.dylib.core_component.needed_libs (h.sound i lib e).plain
        (IsComplete-get w.manager.all w.dep_libs j lib.dylib.core_component complete at_j)

  pub IsNew-AllListed :
      (core : CoreComponent) → IsNew core w.new_libs → AllListed w.manager.all core.needed_libs
  IsNew-AllListed core (i, lib, e, same) =
      subst (λ (c : CoreComponent). AllListed w.manager.all c.needed_libs) same
        (new-AllListed i lib e)

  pub prepared-IsReady : IsReady (root ∷ []) w
  prepared-IsReady = record {
    listed = λ i lib e.
        subst (AllListed w.manager.all) (sym (h.sound i lib e).same) (new-AllListed i lib e);
    held = (h.first, (λ on. on), tt);
    waiting = λ name idx wait ne.
        let (holds, positive) = h.waiting name idx wait ne in
        (holds, (λ on. elim on [ inl e ↦ absurd (positive e) | inr deeper ↦ absurd deeper ]));
    single = h.single;
  }

  pub prepared-IsClosed : IsClosed w.manager.all
  prepared-IsClosed name lib e = elim (h.entries name lib e) [
    | inl listed ↦ listed
    | inr (marked, is_new) ↦ IsNew-AllListed lib.inner is_new
  ]

  pub queue-AllListed :
      (j : ℕ) (core : CoreComponent)
      → get_elem? w.dep_libs j ≡ some core
      → AllListed w.manager.all core.needed_libs
  queue-AllListed j core e = elim (h.owned j core e) [
    | inl listed ↦ listed
    | inr is_new ↦ IsNew-AllListed core is_new
  ]

single-get :
    {A : Type 0} (x : A) (i : ℕ) {y : A} → get_elem? (x ∷ []) i ≡ some y → (i ≡ 0) × (x ≡ y)
single-get x zero e = (refl, cc)
single-get x (suc i) e = cc

-- The search begins prepared, with the opened library as the only new one.
pub start-Going :
    (m : Manager) (lib : ElfLibrary)
    → IsSteady m
    → IsPlain lib.dylib
    → Going m.all 0 0 (start_walk lib.dylib.core_component (some lib ∷ []) (rpath_of lib ∷ []) m)
start-Going m lib steady plain =
    let w = start_walk lib.dylib.core_component (some lib ∷ []) (rpath_of lib ∷ []) m in
    record {
      prepared = record {
        first = (lib, refl);
        waiting = λ name idx (l, e, v) ne. absurd (ne (sym v ∙ steady.quiet name l e));
        single = λ name name' idx (l, e, v) other ne. absurd (ne (sym v ∙ steady.quiet name l e));
        entries = λ name l e. inl (steady.closed name l e);
        queued = λ i l e.
            let same : lib ≡ l = cc (single-get (some lib) i e).1 in
            subst
              (λ (x : ElfLibrary). IsQueued x.dylib.core_component (lib.dylib.core_component ∷ []))
              same (0, refl);
        owned = λ j core e. inr (0, lib, refl, (single-get lib.dylib.core_component j e).1);
        sound = λ i l e.
            let same : lib ≡ l = cc (single-get (some lib) i e).1 in
            subst (λ (x : ElfLibrary). IsPlain x.dylib) same plain;
        parent = λ i l e. inl (single-get (some lib) i e).0;
        old = AllKept-refl m.all steady.quiet;
      };
      room = omega (arith, open_one-le m.all lib.dylib.core_component);
      within = omega arith;
    }
