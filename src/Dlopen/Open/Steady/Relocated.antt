-- ===== src/Dlopen/Open/Steady/Relocated.antt =====
-- A relocation that succeeds leaves no library waiting.
use dlopen_rs.Dlopen.Resolve.Rule.{resolve_loop-rule}
use dlopen_rs.Dlopen.Resolve.{resolve_loop, Item}
use dlopen_rs.Dlopen.Open.Listed.{AllListed-modify, IsClosed-modify, AllListed, IsClosed}
use dlopen_rs.Dlopen.Walk.{Walk}
use dlopen_rs.Loader.{Platform, ElfLibrary, CoreComponent}
use dlopen_rs.Base.Text.{Text}
use dlopen_rs.Register.{GlobalDylib}
use dlopen_rs.Base.IndexMap.{IndexMap}
use dlopen_rs.Dlopen.Open.Kept.{IsQuiet, AllKept, AllKept-modify}
use dlopen_rs.Dlopen.Open.Prepared.{IsPrepared}
use dlopen_rs.Dlopen.Open.Ready.{IsReady, Holds}
use dlopen_rs.Dlopen.Resolve.Once.{IsOnce, Taken, Absent-Taken}
use dlopen_rs.Dlopen.Open.Reached.{IsReached, AllHandled, IsHandled}
use dlopen_rs.Dlopen.Resolve.Reach.{Member}
use dlopen_rs.Dlopen.Resolve.Descent.{InNames}
use dlopen_rs.Base.{
  [], refl, ◌∙◌, ◌≢◌, sym, zero, none, inr, ==_iff, subst, some, suc, ◌==◌, arith, inl, Bool-cases,
  ◌≡◌, get_elem?, ◌∷◌, ◌<◌, Option, List, ℕ,
}

Taken-Member :
    (libs : List (Option ElfLibrary)) (i : ℕ) (is : List ℕ)
    → Member i is
    → Taken libs is
    → get_elem? libs i ≡ some none
Taken-Member libs i [] mem h = absurd mem
Taken-Member libs i (j ∷ is) (inl same) h = rw same h.0
Taken-Member libs i (j ∷ is) (inr deeper) h = Taken-Member libs i is deeper h.1

AllHandled-name :
    (m : IndexMap GlobalDylib) (done : List ℕ) (name : Text) (names : List Text)
    → InNames name names
    → AllHandled m done names
    → IsHandled m done name
AllHandled-name m done name [] inside h = absurd inside
AllHandled-name m done name (n ∷ names) (inl same) h = subst (IsHandled m done) (sym same) h.0
AllHandled-name m done name (n ∷ names) (inr deeper) h =
    AllHandled-name m done name names deeper h.1

module _ (m0 : IndexMap GlobalDylib) (before after : Walk) (h : IsPrepared m0 before)
    (reached : IsReached before after) where
  parent-Member :
      (i : ℕ) (lib : ElfLibrary)
      → get_elem? before.new_libs i ≡ some (some lib)
      → ((j : ℕ) → j < i → Holds before.new_libs j → Member j after.relocated)
      → Member i after.relocated
  parent-Member i lib e smaller = elim (h.parent i lib e) [
    | inl root ↦ rw root reached.first
    | inr (ne, (j, l, name, below, at_j, inside, (entry, here, v))) ↦
        let member = smaller j below (l, at_j) in
        let needed : InNames name l.dylib.needed_libs =
          subst (InNames name) (sym (h.sound j l at_j).same) inside in
        let handled =
          AllHandled-name before.manager.all after.relocated name l.dylib.needed_libs needed
            (reached.closed j l member at_j) in
        subst (λ k. Member k after.relocated) v (handled entry here (λ c. ne (sym v ∙ c)))
  ]

  -- every new library has been relocated: by induction on a bound of its index
  all-Member : (n i : ℕ) → i < n → Holds before.new_libs i → Member i after.relocated
  all-Member zero i below holds = absurd (omega arith)
  all-Member (suc n) i below (lib, e) =
      parent-Member i lib e (λ j less holds. all-Member n j (omega (arith, less, below)) holds)

  pub relocated-IsQuiet :
      IsReady [] after → IsOnce before.new_libs after → IsQuiet after.manager.all
  relocated-IsQuiet ready once name lib e = elim (Bool-cases (lib.new_idx == 255)) [
    | inl t ↦ (==_iff lib.new_idx 255).0 t
    | inr t ↦
        let ne : lib.new_idx ≢ 255 = λ c. cc (t, (==_iff lib.new_idx 255).1 c) in
        let ((l, at), off) = ready.waiting name lib.new_idx (lib, e, refl) ne in
        let absent = Absent-Taken after.new_libs lib.new_idx after.relocated at once.taken in
        let there : get_elem? before.new_libs lib.new_idx ≡ some (some l) =
          sym (once.kept lib.new_idx absent) ∙ at in
        let member = all-Member (suc lib.new_idx) lib.new_idx (omega arith) (l, there) in
        cc (at, Taken-Member after.new_libs lib.new_idx after.relocated member once.taken)
  ]

-- What the relocation keeps, however it ends.
pub record IsSafe (m0 : IndexMap GlobalDylib) (deps : List CoreComponent) (w : Walk) : Type 0 where
  pub closed : IsClosed w.manager.all
  pub queue : w.dep_libs ≡ deps
  pub listed :
      (j : ℕ) (core : CoreComponent)
      → get_elem? deps j ≡ some core
      → AllListed w.manager.all core.needed_libs
  pub old : AllKept m0 w.manager.all

pub resolve_loop-IsSafe :
    (m0 : IndexMap GlobalDylib) (deps : List CoreComponent) (p : Platform) (fuel : ℕ)
    (stack : List Item) (w : Walk)
    → IsSafe m0 deps w
    → IsSafe m0 deps (resolve_loop p fuel stack w).1
resolve_loop-IsSafe m0 deps p fuel stack w =
    resolve_loop-rule p (IsSafe m0 deps)
      (λ name f w' visit h. record {
        closed = IsClosed-modify name f w'.manager.all visit.0 h.closed;
        queue = h.queue;
        listed =
            λ j core e. AllListed-modify name f w'.manager.all core.needed_libs (h.listed j core e);
        old = AllKept-modify m0 name f w'.manager.all visit h.old;
      })
      (λ idx lib w' e h. record {
        closed = h.closed;
        queue = h.queue;
        listed = h.listed;
        old = h.old;
      })
      fuel stack w
