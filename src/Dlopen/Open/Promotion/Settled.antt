-- ===== src/Dlopen/Open/Promotion/Settled.antt =====
-- A search that meets registered libraries alone.
use dlopen_rs.Dlopen.Open.Listed.{
  IsClosed, AllClosed-modify, IsClosed-modify, AllListed-modify, AllClosed-append, AllClosed,
  AllListed,
}
use dlopen_rs.Dlopen.Open.Kept.{AllKept, AllKept-modify}
use dlopen_rs.Dlopen.Search.{promote, visit, search_loop, visit_all, revisit}
use dlopen_rs.Step.{and_then, Step}
use dlopen_rs.Error.{out_of_fuel, err, ok, panicked, Result}
use dlopen_rs.Dlopen.Walk.{Walk}
use dlopen_rs.Flags.{rtld_global, difference, contains, OpenFlags}
use dlopen_rs.Base.{
  [], refl, zero, ◌+◌, none, suc, Option, get_elem?, ℕ, ◌++◌, ◌≡◌, subst, ◌∙◌, List, ◌∷◌, some, inl,
  inr, true, Option-cases, Bool-cases, arith,
}
use dlopen_rs.Base.Text.{Text}
use dlopen_rs.Base.IndexMap.{IndexMap, get, modify}
use dlopen_rs.Loader.{Platform, CoreComponent}
use dlopen_rs.Register.{set_flags, set_mark, GlobalDylib}

-- The search has found every library registered so far, and will find the rest registered.
pub record IsSettled (m0 : IndexMap GlobalDylib) (w : Walk) : Type 0 where
  pub none_new : w.new_libs ≡ []
  pub closed : IsClosed w.manager.all
  pub queued : AllClosed w.manager.all w.dep_libs
  pub old : AllKept m0 w.manager.all

module _ (m0 : IndexMap GlobalDylib) where
  module _ (flags : OpenFlags) (name : Text) (lib : GlobalDylib) (w : Walk) where
    -- `all` changes by marks and flags alone
    revisit-all {ℓ} :
        (P : IndexMap GlobalDylib → Type ℓ)
        → ((m : IndexMap GlobalDylib) → P m → P (modify name (set_mark true) m))
        → ((m : IndexMap GlobalDylib) → P m → P (modify name (set_flags flags) m))
        → P w.manager.all
        → P (revisit flags name lib w).manager.all
    unfolding revisit promote
    revisit-all P mark flag h = elim (Bool-cases lib.is_mark) [
      | inl t ↦ rw t h
      | inr t ↦ elim (Bool-cases (contains (difference flags lib.flags) rtld_global)) [
        | inl g ↦ rw (t, g) (flag _ (mark w.manager.all h))
        | inr g ↦ rw (t, g) (mark w.manager.all h)
      ]
    ]

    revisit-queued :
        get name w.manager.all ≡ some lib
        → IsSettled m0 w
        → AllClosed (revisit flags name lib w).manager.all (revisit flags name lib w).dep_libs
    unfolding revisit promote
    revisit-queued e h = elim (Bool-cases lib.is_mark) [
      | inl t ↦ rw t h.queued
      | inr t ↦
          let more =
            AllClosed-append w.manager.all w.dep_libs lib.inner h.queued (h.closed name lib e) in
          let marked =
            AllClosed-modify name (set_mark true) w.manager.all (w.dep_libs ++ lib.inner ∷ [])
              more in
          elim (Bool-cases (contains (difference flags lib.flags) rtld_global)) [
            | inl g ↦
                rw (t, g)
                  (AllClosed-modify name (set_flags flags) _ (w.dep_libs ++ lib.inner ∷ []) marked)
            | inr g ↦ rw (t, g) marked
          ]
    ]

    revisit-new_libs : (revisit flags name lib w).new_libs ≡ w.new_libs
    unfolding revisit
    revisit-new_libs = ground arith

    revisit-IsSettled :
        get name w.manager.all ≡ some lib → IsSettled m0 w → IsSettled m0 (revisit flags name lib w)
    revisit-IsSettled e h = record {
      none_new = revisit-new_libs ∙ h.none_new;
      closed =
          revisit-all IsClosed (λ m. IsClosed-modify name (set_mark true) m (λ l. refl))
            (λ m. IsClosed-modify name (set_flags flags) m (λ l. refl)) h.closed;
      queued = revisit-queued e h;
      old =
          revisit-all (AllKept m0)
            (λ m. AllKept-modify m0 name (set_mark true) m ((λ l. refl), (λ l e. e)))
            (λ m. AllKept-modify m0 name (set_flags flags) m ((λ l. refl), (λ l e. e))) h.old;
    }

  -- A part of the search that met registered libraries alone.
  abbrev pub Quiet : Result (Unit {0}) × Walk → Type 0
  Quiet (ok u, w) = IsSettled m0 w
  Quiet (err e, w) = ⊥
  Quiet (panicked e, w) = ⊥
  Quiet (out_of_fuel, w) = Unit {0}

  AllClosed-get :
      (m : IndexMap GlobalDylib) (cores : List CoreComponent) (i : ℕ) (core : CoreComponent)
      → AllClosed m cores
      → get_elem? cores i ≡ some core
      → AllListed m core.needed_libs
  AllClosed-get m [] i core h e = cc
  AllClosed-get m (c ∷ cores) zero core h e =
      let same : c ≡ core = cc e in
      subst (λ (x : CoreComponent). AllListed m x.needed_libs) same h.0
  AllClosed-get m (c ∷ cores) (suc i) core h e = AllClosed-get m cores i core h.1 e

  Quiet-and_then :
      (out : Result (Unit {0}) × Walk) (k : Unit {0} → Step Walk (Unit {0}))
      → Quiet out
      → ((u : Unit {0}) (w : Walk) → IsSettled m0 w → Quiet (k u w))
      → Quiet (and_then out k)
  Quiet-and_then (ok u, w) k h next = next u w h
  Quiet-and_then (err e, w) k h next = absurd h
  Quiet-and_then (panicked e, w) k h next = absurd h
  Quiet-and_then (out_of_fuel, w) k h next = tt

  module _ (p : Platform) (flags : OpenFlags) where
    visit_all-Quiet :
        (names : List Text) (cur : Option ℕ) (w : Walk)
        → IsSettled m0 w
        → AllListed w.manager.all names
        → Quiet (visit_all p flags names cur w)
    unfolding visit_all visit
    visit_all-Quiet [] cur w h listed = h
    visit_all-Quiet (name ∷ names) cur w h listed = elim (Option-cases (get name w.manager.all)) [
      | inl e ↦ absurd (ground (arith, e, listed.0))
      | inr (lib, e) ↦
          rw (e, visit_all, visit)
            (visit_all-Quiet names cur (revisit flags name lib w)
              (revisit-IsSettled flags name lib w e h)
              (revisit-all flags name lib w (λ m. AllListed m names)
                (λ m. AllListed-modify name (set_mark true) m names)
                (λ m. AllListed-modify name (set_flags flags) m names) listed.1))
    ]

    pub search_loop-Quiet :
        (fuel pos : ℕ) (w : Walk) → IsSettled m0 w → Quiet (search_loop p flags fuel pos w)
    unfolding search_loop
    search_loop-Quiet zero pos w h = tt
    search_loop-Quiet (suc fuel) pos w h = elim (Option-cases (get_elem? w.dep_libs pos)) [
      | inl e ↦ rw (e, search_loop) h
      | inr (core, e) ↦
          rw (e, search_loop)
            (Quiet-and_then (visit_all p flags core.needed_libs none w) _
              (visit_all-Quiet core.needed_libs none w h
                (AllClosed-get w.manager.all w.dep_libs pos core h.queued e))
              (λ _ w' h'. search_loop-Quiet fuel (pos + 1) w' h'))
    ]
