-- ===== src/Dlopen/Open/Ready/Steps.antt =====
-- The two ways in which a round changes what is ready.
use dlopen_rs.Dlopen.Resolve.Once.{get_elem?-set_self, get_elem?-set}
use dlopen_rs.Dlopen.Resolve.Descent.{Unmoved}
use dlopen_rs.Dlopen.Resolve.Reach.{OnStack}
use dlopen_rs.Register.{Manager, GlobalDylib}
use dlopen_rs.Dlopen.Resolve.{take_library, Item}
use dlopen_rs.Dlopen.Open.Ready.{
  AllListed-Keeps, AllListed, ElfLibrary, Text, Walk, IndexMap, IsReady, Keeps, Holds, AllHeld,
}
use dlopen_rs.Dlopen.Resolve.Visits.{Waiting, Visited}
use dlopen_rs.Base.{
  [], ==_iff, ap, ◌==◌, ◌∙◌, inr, none, some, sym, Bool-cases, inl, subst, set, ◌≡◌, get_elem?, ◌≢◌,
  ◌∷◌, Option, List, ℕ,
}

Holds-set :
    (libs : List (Option ElfLibrary)) (i j : ℕ) → i ≢ j → Holds libs i → Holds (set libs j none) i
Holds-set libs i j ne (lib, e) = (lib, get_elem?-set libs i j ne ∙ e)

AllHeld-set :
    (libs : List (Option ElfLibrary)) (j : ℕ) (stack : List Item)
    → ¬ OnStack j stack
    → AllHeld libs stack
    → AllHeld (set libs j none) stack
AllHeld-set libs j [] off h = tt
AllHeld-set libs j (item ∷ stack) off (here, alone, rest) = (
  Holds-set libs item.idx j (λ e. off (inl (sym e))) here,
  alone,
  AllHeld-set libs j stack (λ on. off (inr on)) rest,
)

waited :
    (m0 m : IndexMap GlobalDylib) (name : Text) (idx : ℕ)
    → Unmoved m0 m
    → Waiting m name idx
    → idx ≢ 255
    → Waiting m0 name idx
waited m0 m name idx u (lib, e, v) ne =
    subst (Waiting m0 name) v (u name lib e (λ c. ne (sym v ∙ c)))

module _ (item : Item) (stack : List Item) (w : Walk) (ready : IsReady (item ∷ stack) w)
    (m : Manager) (u : Unmoved w.manager.all m.all) (k : Keeps w.manager.all m.all) where
  listed_next :
      (i : ℕ) (lib : ElfLibrary)
      → get_elem? w.new_libs i ≡ some (some lib)
      → AllListed m.all lib.dylib.needed_libs
  listed_next i lib e =
      AllListed-Keeps w.manager.all m.all lib.dylib.needed_libs k (ready.listed i lib e)

  single_next :
      (name name' : Text) (idx : ℕ)
      → Waiting m.all name idx
      → Waiting m.all name' idx
      → idx ≢ 255
      → name ≡ name'
  single_next name name' idx one other ne =
      ready.single name name' idx (waited w.manager.all m.all name idx u one ne)
        (waited w.manager.all m.all name' idx u other ne) ne

  pub IsReady-take : IsReady stack (take_library item.idx (record w { manager = m }))
  IsReady-take = record {
    listed = λ i lib e. elim (Bool-cases (i == item.idx)) [
      | inl t ↦
          let same : i ≡ item.idx = (==_iff i item.idx).0 t in
          let gone : get_elem? (set w.new_libs item.idx none) i ≡ some none =
            rw same (get_elem?-set_self w.new_libs item.idx ready.held.0.1) in
          cc (e, gone)
      | inr t ↦
          let ne : i ≢ item.idx = λ c. cc (t, (==_iff i item.idx).1 c) in
          listed_next i lib (sym (get_elem?-set w.new_libs i item.idx ne) ∙ e)
    ];
    held = AllHeld-set w.new_libs item.idx stack ready.held.1 ready.held.2;
    waiting = λ name idx wait ne.
        let (holds, off) =
          ready.waiting name idx (waited w.manager.all m.all name idx u wait ne) ne in
        (Holds-set w.new_libs idx item.idx (λ e. off (inl e)) holds, (λ on. off (inr on)));
    single = single_next;
  }

  pub IsReady-descend :
      (item' : Item) (idx : ℕ) (name : Text)
      → item'.idx ≡ item.idx
      → idx ≢ 255
      → Waiting w.manager.all name idx
      → Visited m.all name
      → IsReady (record { idx = idx; next = 0 } ∷ item' ∷ stack) (record w { manager = m })
  IsReady-descend item' idx name same ne wait (l, at_name, done) =
      let (holds, off) = ready.waiting name idx wait ne in
      record {
        listed = listed_next;
        held = (
          holds,
          (λ on. elim on [ inl e ↦ off (inl (e ∙ same)) | inr deeper ↦ off (inr deeper) ]),
          rw same ready.held,
        );
        waiting = λ name2 idx2 wait2 ne2.
            let old = waited w.manager.all m.all name2 idx2 u wait2 ne2 in
            let (holds2, off2) = ready.waiting name2 idx2 old ne2 in
            (
              holds2,
              (λ on. elim on [
                | inr (inl e) ↦ off2 (inl (e ∙ same))
                | inr (inr deeper) ↦ off2 (inr deeper)
                | inl e ↦
                    let (l2, at_name2, v2) = wait2 in
                    let one : name2 ≡ name = ready.single name2 name idx (rw e at old) wait ne in
                    let both : l2 ≡ l = cc (at_name, at_name2, one) in
                    ne2 (sym v2 ∙ ap (λ (x : GlobalDylib). x.new_idx) both ∙ done)
              ]),
            );
        single = single_next;
      }
