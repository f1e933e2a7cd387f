-- ===== src/Dlopen/Open/Order.antt =====
-- Libraries are relocated behind those that they need.
pub mod Rank
use dlopen_rs.Dlopen.Open.Order.Rank.{Over-weaken, IsOrdered, Over, Over-member, Rising, IsRanked}
use dlopen_rs.Dlopen.Resolve.{
  can_relocate, take_library, descend, scan_names, reloc, settle, resolve_loop, Found, round, Item,
}
use dlopen_rs.Dlopen.Resolve.Reach.{relocated, settle-After, Inv, Pending}
use dlopen_rs.Dlopen.Resolve.Descent.{
  scan_names-Descends, Descends-cons, Descends, InNames, Unmoved,
}
use dlopen_rs.Error.{
  success, failure, from_call, CallFault, refused, unwound, Foreign, Result, ok, err, panicked,
  out_of_fuel,
}
use dlopen_rs.Base.{
  [], none, inr, drop, zero, suc, Option-cases, subst, sym, get_elem?, arith, Option, List, ℕ, ◌≡◌,
  ◌<◌, inl, some, ◌∷◌, refl, ap, ◌∙◌,
}
use dlopen_rs.Dlopen.Resolve.Once.{Absent-Taken}
use dlopen_rs.Step.{and_then, Step}
use dlopen_rs.Dlopen.Walk.{Walk}
use dlopen_rs.Base.Text.{Text}
use dlopen_rs.Register.{Manager, GlobalDylib}
use dlopen_rs.Loader.{CoreComponent, Platform, ElfLibrary}
use dlopen_rs.Base.IndexMap.{IndexMap}
use dlopen_rs.Dlopen.Resolve.Visits.{
  scan_names-Scanned, Onward, Scanned, Known, AllVisited, Visited,
}
use dlopen_rs.Dlopen.Open.Reached.{start, root, IsHandled, AllHandled}

module _ (libs : List (Option ElfLibrary)) (m0 : IndexMap GlobalDylib) where
  module _ (rank : ℕ → ℕ) (ranked : IsRanked libs m0 rank) where
    record Sorted (stack : List Item) (w : Walk) : Type 0 where
      inv : Inv libs m0 stack w
      unmoved : Unmoved m0 w.manager.all
      rising : Rising rank stack
      ordered : IsOrdered libs m0 w.relocated

    abbrev After : Result (List Item) × Walk → Type 0
    After (ok stack, w) = Sorted stack w
    After (err e, w) = IsOrdered libs m0 w.relocated
    After (panicked e, w) = IsOrdered libs m0 w.relocated
    After (out_of_fuel, w) = IsOrdered libs m0 w.relocated

    module _ (item : Item) (stack : List Item) (w : Walk) (s : Sorted (item ∷ stack) w)
        (lib : ElfLibrary) (held : get_elem? libs item.idx ≡ some (some lib)) where
      settled :
          (m : IndexMap GlobalDylib) (name : Text)
          → InNames name lib.dylib.needed_libs
          → Visited m name
          → Known m0 m (Pending (item ∷ stack) w)
          → IsHandled m0 w.relocated name
      settled m name inside (l, e, v) known l0 e0 ne =
          let below : rank l0.new_idx < rank item.idx =
            ranked item.idx l0.new_idx lib name held inside (l0, e0, refl) ne in
          elim (known name l0 e0 ne) [
            | inl (l', e', v') ↦
                let same : l ≡ l' = cc (e, e') in
                absurd (ne (sym v' ∙ ap (λ (x : GlobalDylib). x.new_idx) (sym same) ∙ v))
            | inr (inl r) ↦ r
            | inr (inr (inl same)) ↦ absurd (omega (arith, ap rank same))
            | inr (inr (inr on)) ↦
                absurd
                  (omega (arith, Over-member rank (rank item.idx) l0.new_idx stack s.rising.0 on))
          ]

      all_settled :
          (m : IndexMap GlobalDylib) (names : List Text)
          → ((name : Text) → InNames name names → InNames name lib.dylib.needed_libs)
          → AllVisited m names
          → Known m0 m (Pending (item ∷ stack) w)
          → AllHandled m0 w.relocated names
      all_settled m [] sub v k = tt
      all_settled m (name ∷ names) sub v k = (
        settled m name (sub name (inl refl)) v.0 k,
        all_settled m names (λ n inside. sub n (inr inside)) v.1 k,
      )

      next-IsOrdered :
          (m : IndexMap GlobalDylib)
          → AllVisited m lib.dylib.needed_libs
          → Known m0 m (Pending (item ∷ stack) w)
          → IsOrdered libs m0 (item.idx ∷ w.relocated)
      next-IsOrdered m v k = (
        (λ l e.
            let same : lib ≡ l = cc (held, e) in
            subst (λ (x : ElfLibrary). AllHandled m0 w.relocated x.dylib.needed_libs) same
              (all_settled m lib.dylib.needed_libs (λ n inside. inside) v k)),
        s.ordered,
      )

      module _ (p : Platform) (holds : get_elem? w.new_libs item.idx ≡ some (some lib)) where
        taken :
            (m' : Manager) (r : Foreign CallFault CoreComponent)
            → AllVisited m'.all lib.dylib.needed_libs
            → Onward w.manager.all m'.all
            → Known m0 m'.all (Pending (item ∷ stack) w)
            → Unmoved m0 m'.all
            → After (
                and_then
                  (and_then
                    (from_call r, take_library item.idx (record w { manager = m' }))
                    (λ _ w'. (ok tt, w')))
                  (λ _ w'. (ok stack, w')))
        taken m' (failure (unwound q)) v o k u = next-IsOrdered m'.all v k
        taken m' (failure (refused e)) v o k u = next-IsOrdered m'.all v k
        taken m' (success core) v o k u = record {
          inv = relocated libs m0 item stack w s.inv lib holds held p m' (success core) v o k;
          unmoved = u;
          rising = s.rising.1;
          ordered = next-IsOrdered m'.all v k;
        }

        settle-Sorted :
            (out : Result Found × Manager)
            → Scanned m0 (Pending (item ∷ stack) w) item lib.dylib.needed_libs w.manager out
            → Descends m0 lib.dylib.needed_libs out
            → After (and_then (out.0, record w { manager = out.1 }) (settle p item stack lib))
        unfolding settle reloc
        settle-Sorted (ok can_relocate, m') (v, o, k) u = taken m' _ v o k u
        settle-Sorted (ok (descend item' idx), m') (same, v, o, k) (u, (name, inside, wait), ne) =
            let below : rank idx < rank item'.idx =
              rw same (ranked item.idx idx lib name held inside wait ne) in
            let over : Over rank (rank item'.idx) stack = rw same s.rising.0 in
            record {
              inv =
                  settle-After libs m0 item stack w s.inv lib holds held p
                    (ok (descend item' idx), m') (same, v, o, k);
              unmoved = u;
              rising = (
                (below, Over-weaken rank (rank idx) (rank item'.idx) stack below over),
                (over, s.rising.1),
              );
              ordered = s.ordered;
            }
        settle-Sorted (err e, m') h d = s.ordered
        settle-Sorted (panicked e, m') h d = s.ordered
        settle-Sorted (out_of_fuel, m') h d = s.ordered

    module _ (p : Platform) where
      Descends-drop :
          (n : ℕ) (names : List Text) (out : Result Found × Manager)
          → Descends m0 (drop n names) out
          → Descends m0 names out
      Descends-drop zero names out h = h
      Descends-drop (suc n) [] out h = h
      Descends-drop (suc n) (name ∷ names) out h =
          Descends-cons m0 name names out (Descends-drop n names out h)

      round-Sorted :
          (item : Item) (stack : List Item) (w : Walk)
          → Sorted (item ∷ stack) w
          → After (round p item stack w)
      unfolding round
      round-Sorted item stack w s = elim (Option-cases (get_elem? w.new_libs item.idx)) [
        | inl e ↦ rw (e, round) s.ordered
        | inr (none, e) ↦ rw (e, round) s.ordered
        | inr (some lib, e) ↦
            let needed = lib.dylib.needed_libs in
            let absent = Absent-Taken w.new_libs item.idx w.relocated e s.inv.once.taken in
            let held : get_elem? libs item.idx ≡ some (some lib) =
              sym (s.inv.once.kept item.idx absent) ∙ e in
            let out = scan_names item (drop item.next needed) w.manager in
            rw (e, round)
              (settle-Sorted item stack w s lib held p e out
                (scan_names-Scanned m0 (Pending (item ∷ stack) w) needed item
                  (drop item.next needed) w.manager refl (s.inv.items.0 lib held) s.inv.known)
                (Descends-drop item.next needed out
                  (scan_names-Descends m0 item (drop item.next needed) w.manager s.unmoved)))
      ]

      loop_next :
          (out : Result (List Item) × Walk) (k : List Item → Step Walk (Unit {0}))
          → After out
          → ((stack : List Item) (w : Walk)
              → Sorted stack w
              → IsOrdered libs m0 (k stack w).1.relocated)
          → IsOrdered libs m0 (and_then out k).1.relocated
      loop_next (ok stack, w) k h next = next stack w h
      loop_next (err e, w) k h next = h
      loop_next (panicked e, w) k h next = h
      loop_next (out_of_fuel, w) k h next = h

      resolve_loop-Sorted :
          (fuel : ℕ) (stack : List Item) (w : Walk)
          → Sorted stack w
          → IsOrdered libs m0 (resolve_loop p fuel stack w).1.relocated
      unfolding resolve_loop
      resolve_loop-Sorted zero stack w s = s.ordered
      resolve_loop-Sorted (suc fuel) [] w s = s.ordered
      resolve_loop-Sorted (suc fuel) (item ∷ stack) w s =
          loop_next (round p item stack w) _ (round-Sorted item stack w s)
            (λ stack' w' s'. resolve_loop-Sorted fuel stack' w' s')

-- However the relocation ends: if the new libraries do not need each other in a cycle, each
-- library that was handed to `relocate` was handed on behind every new library that it needs.
-- (The record of relocated libraries starts empty.)
pub resolve_loop-IsOrdered :
    (p : Platform) (fuel : ℕ) (rank : ℕ → ℕ) (w : Walk)
    → w.relocated ≡ []
    → IsRanked w.new_libs w.manager.all rank
    → IsOrdered w.new_libs w.manager.all (resolve_loop p fuel (root ∷ []) w).1.relocated
resolve_loop-IsOrdered p fuel rank w none_yet ranked =
    resolve_loop-Sorted w.new_libs w.manager.all rank ranked p fuel (root ∷ []) w (record {
      inv = start w none_yet;
      unmoved = λ name lib e ne. (lib, e, refl);
      rising = (tt, tt);
      ordered = rw none_yet tt;
    })
