-- ===== src/Dlopen/Resolve/Reach.antt =====
-- A relocation that succeeds has relocated all that the opened library reaches.
use dlopen_rs.Dlopen.Resolve.{
  can_relocate, descend, take_library, scan_names, from_call, Found, reloc, and_then, round, Step,
  settle, resolve_loop, Platform, Manager, ElfLibrary, Walk, Item,
}
use dlopen_rs.Dlopen.Resolve.Once.{IsOnce-take, Absent-Taken, IsOnce}
use dlopen_rs.Error.{
  success, failure, from_call, CallFault, refused, unwound, Foreign, Result, ok, err, panicked,
  out_of_fuel,
}
use dlopen_rs.Base.{
  [], refl, none, some, drop, zero, Option-cases, suc, subst, take, sym, get_elem?, Option, List, ℕ,
  ◌≡◌, ◌⊎◌, inl, inr, ◌∷◌, ◌∙◌,
}
use dlopen_rs.Step.{and_then, Step}
use dlopen_rs.Register.{Manager, GlobalDylib}
use dlopen_rs.Base.IndexMap.{IndexMap}
use dlopen_rs.Loader.{CoreComponent, Platform, ElfLibrary}
use dlopen_rs.Dlopen.Walk.{Walk}
use dlopen_rs.Dlopen.Resolve.Visits.{
  scan_names-Scanned, Scanned, AllVisited-Onward, Onward, Known, AllVisited,
}

abbrev pub Member : ℕ → List ℕ → Type 0
Member i [] = ⊥
Member i (j ∷ js) = (i ≡ j) ⊎ Member i js

abbrev pub OnStack : ℕ → List Item → Type 0
OnStack i [] = ⊥
OnStack i (item ∷ stack) = (i ≡ item.idx) ⊎ OnStack i stack

-- relocated already, or begun
abbrev pub Pending : List Item → Walk → ℕ → Type 0
Pending stack w i = Member i w.relocated ⊎ OnStack i stack

module _ (libs : List (Option ElfLibrary)) (m0 : IndexMap GlobalDylib) where
  -- what the items have scanned so far
  abbrev pub Items : IndexMap GlobalDylib → List Item → Type 0
  Items m [] = Unit {0}
  Items m (item ∷ stack) =
      ((lib : ElfLibrary)
        → get_elem? libs item.idx ≡ some (some lib)
        → AllVisited m (take item.next lib.dylib.needed_libs))
      × Items m stack

  pub record Inv (stack : List Item) (w : Walk) : Type 0 where
    pub once : IsOnce libs w
    pub items : Items w.manager.all stack
    pub done :
        (i : ℕ) (lib : ElfLibrary)
        → Member i w.relocated
        → get_elem? libs i ≡ some (some lib)
        → AllVisited w.manager.all lib.dylib.needed_libs
    pub known : Known m0 w.manager.all (Pending stack w)
    pub first : Pending stack w 0

  Items-Onward :
      (m m' : IndexMap GlobalDylib) (stack : List Item)
      → Onward m m'
      → Items m stack
      → Items m' stack
  Items-Onward m m' [] o h = tt
  Items-Onward m m' (item ∷ stack) o h = (
    (λ lib e. AllVisited-Onward m m' (take item.next lib.dylib.needed_libs) o (h.0 lib e)),
    Items-Onward m m' stack o h.1,
  )

  Known-weaken :
      (m : IndexMap GlobalDylib) (S T : ℕ → Type 0)
      → ((i : ℕ) → S i → T i)
      → Known m0 m S
      → Known m0 m T
  Known-weaken m S T f h name l0 e ne = elim (h name l0 e ne) [
    | inl v ↦ inl v
    | inr s ↦ inr (f _ s)
  ]

  abbrev pub After : Result (List Item) × Walk → Type 0
  After (ok stack, w) = Inv stack w
  After (err e, w) = Unit {0}
  After (panicked e, w) = Unit {0}
  After (out_of_fuel, w) = Unit {0}

  module _ (item : Item) (stack : List Item) (w : Walk) (inv : Inv (item ∷ stack) w)
      (lib : ElfLibrary) (holds : get_elem? w.new_libs item.idx ≡ some (some lib))
      (held : get_elem? libs item.idx ≡ some (some lib)) where
    begun :
        (idx : ℕ) (item' : Item) (i : ℕ)
        → item'.idx ≡ item.idx
        → (i ≡ idx) ⊎ Pending (item ∷ stack) w i
        → Pending (record { idx = idx; next = 0 } ∷ item' ∷ stack) w i
    begun idx item' i same (inl e) = inr (inl e)
    begun idx item' i same (inr (inl r)) = inl r
    begun idx item' i same (inr (inr (inl e))) = inr (inr (inl (e ∙ sym same)))
    begun idx item' i same (inr (inr (inr s))) = inr (inr (inr s))

    taken :
        (i : ℕ) → Pending (item ∷ stack) w i → Member i (item.idx ∷ w.relocated) ⊎ OnStack i stack
    taken i (inl r) = inl (inr r)
    taken i (inr (inl e)) = inl (inl e)
    taken i (inr (inr s)) = inr s

    done-next :
        (m' : Manager) (i : ℕ) (l : ElfLibrary)
        → AllVisited m'.all lib.dylib.needed_libs
        → Onward w.manager.all m'.all
        → Member i (item.idx ∷ w.relocated)
        → get_elem? libs i ≡ some (some l)
        → AllVisited m'.all l.dylib.needed_libs
    done-next m' i l v o (inl same) e =
        let one : lib ≡ l = cc (held, e, same) in
        subst (λ (x : ElfLibrary). AllVisited m'.all x.dylib.needed_libs) one v
    done-next m' i l v o (inr r) e =
        AllVisited-Onward w.manager.all m'.all l.dylib.needed_libs o (inv.done i l r e)

    module _ (p : Platform) where
      pub relocated :
          (m' : Manager) (r : Foreign CallFault CoreComponent)
          → AllVisited m'.all lib.dylib.needed_libs
          → Onward w.manager.all m'.all
          → Known m0 m'.all (Pending (item ∷ stack) w)
          → After (
              and_then
                (and_then
                  (from_call r, take_library item.idx (record w { manager = m' }))
                  (λ _ w'. (ok tt, w')))
                (λ _ w'. (ok stack, w')))
      relocated m' (failure (refused e)) v o k = tt
      relocated m' (failure (unwound q)) v o k = tt
      relocated m' (success core) v o k =
          let w' = record w { manager = m' } in
          let once : IsOnce libs w' = record {
            distinct = inv.once.distinct;
            taken = inv.once.taken;
            kept = inv.once.kept;
          } in
          record {
            once = IsOnce-take libs item.idx lib w' holds once;
            items = Items-Onward w.manager.all m'.all stack o inv.items.1;
            done = λ i l r e. done-next m' i l v o r e;
            known = Known-weaken m'.all _ _ taken k;
            first = taken 0 inv.first;
          }

      pub settle-After :
          (out : Result Found × Manager)
          → Scanned m0 (Pending (item ∷ stack) w) item lib.dylib.needed_libs w.manager out
          → After (and_then (out.0, record w { manager = out.1 }) (settle p item stack lib))
      unfolding settle reloc
      settle-After (ok can_relocate, m') (v, o, k) = relocated m' _ v o k
      settle-After (ok (descend item' idx), m') (same, v, o, k) = record {
        once = record {
          distinct = inv.once.distinct;
          taken = inv.once.taken;
          kept = inv.once.kept;
        };
        items = (
          (λ l e. tt),
          (
            (λ l e.
                let one : lib ≡ l = cc (held, e, same) in
                subst (λ (x : ElfLibrary). AllVisited m'.all (take item'.next x.dylib.needed_libs))
                  one v),
            Items-Onward w.manager.all m'.all stack o inv.items.1,
          ),
        );
        done = λ i l r e.
            AllVisited-Onward w.manager.all m'.all l.dylib.needed_libs o (inv.done i l r e);
        known = Known-weaken m'.all _ _ (λ i s. begun idx item' i same s) k;
        first = begun idx item' 0 same (inr inv.first);
      }
      settle-After (err e, m') h = tt
      settle-After (panicked e, m') h = tt
      settle-After (out_of_fuel, m') h = tt

  module _ (p : Platform) where
    round-After :
        (item : Item) (stack : List Item) (w : Walk)
        → Inv (item ∷ stack) w
        → After (round p item stack w)
    unfolding round
    round-After item stack w inv = elim (Option-cases (get_elem? w.new_libs item.idx)) [
      | inl e ↦ rw (e, round) tt
      | inr (none, e) ↦ rw (e, round) tt
      | inr (some lib, e) ↦
          let absent = Absent-Taken w.new_libs item.idx w.relocated e inv.once.taken in
          let held : get_elem? libs item.idx ≡ some (some lib) =
            sym (inv.once.kept item.idx absent) ∙ e in
          rw (e, round)
            (settle-After item stack w inv lib e held p
              (scan_names item (drop item.next lib.dylib.needed_libs) w.manager)
              (scan_names-Scanned m0 (Pending (item ∷ stack) w) lib.dylib.needed_libs item
                (drop item.next lib.dylib.needed_libs) w.manager refl (inv.items.0 lib held)
                inv.known))
    ]

    -- How the relocation may end.
    abbrev pub Ended : Result (Unit {0}) × Walk → Type 0
    Ended (ok u, w) = Inv [] w
    Ended (err e, w) = Unit {0}
    Ended (panicked e, w) = Unit {0}
    Ended (out_of_fuel, w) = Unit {0}

    Ended-and_then :
        (out : Result (List Item) × Walk) (k : List Item → Step Walk (Unit {0}))
        → After out
        → ((stack : List Item) (w : Walk) → Inv stack w → Ended (k stack w))
        → Ended (and_then out k)
    Ended-and_then (ok stack, w) k h next = next stack w h
    Ended-and_then (err e, w) k h next = tt
    Ended-and_then (panicked e, w) k h next = tt
    Ended-and_then (out_of_fuel, w) k h next = tt

    pub resolve_loop-Ended :
        (fuel : ℕ) (stack : List Item) (w : Walk)
        → Inv stack w
        → Ended (resolve_loop p fuel stack w)
    unfolding resolve_loop
    resolve_loop-Ended zero stack w inv = tt
    resolve_loop-Ended (suc fuel) [] w inv = inv
    resolve_loop-Ended (suc fuel) (item ∷ stack) w inv =
        Ended-and_then (round p item stack w) _ (round-After item stack w inv)
          (λ stack' w' inv'. resolve_loop-Ended fuel stack' w' inv')
