-- ===== src/Dlopen/Open/Reached.antt =====
-- A relocation that succeeds has relocated all that the opened library reaches.
use dlopen_rs.Dlopen.Open.Total.{resolve-enough}
use dlopen_rs.Dlopen.Resolve.Ends.{resolve_loop-ends}
use dlopen_rs.Dlopen.Open.{resolve_fuel}
use dlopen_rs.Dlopen.Resolve.{resolve_loop, Item}
use dlopen_rs.Base.Text.{Text}
use dlopen_rs.Register.{GlobalDylib}
use dlopen_rs.Loader.{Platform, ElfLibrary}
use dlopen_rs.Base.IndexMap.{get, IndexMap}
use dlopen_rs.Dlopen.Walk.{Walk}
use dlopen_rs.Base.{
  [], refl, subst, ap, ◌∙◌, sym, List, get_elem?, ℕ, ◌≡◌, ◌≢◌, inl, inr, some, ◌∷◌,
}
use dlopen_rs.Error.{Result, ok, err, panicked, out_of_fuel}
use dlopen_rs.Dlopen.Resolve.Reach.{resolve_loop-Ended, Ended, Inv, Member, Pending}
use dlopen_rs.Dlopen.Resolve.Visits.{AllVisited, Visited}

-- The library of this name had been relocated before, or its index is one of `done`.
abbrev pub IsHandled : IndexMap GlobalDylib → List ℕ → Text → Type 0
IsHandled m0 done name =
    (lib : GlobalDylib) → get name m0 ≡ some lib → lib.new_idx ≢ 255 → Member lib.new_idx done

abbrev pub AllHandled : IndexMap GlobalDylib → List ℕ → List Text → Type 0
AllHandled m0 done [] = Unit {0}
AllHandled m0 done (name ∷ names) = IsHandled m0 done name × AllHandled m0 done names

-- The first library is relocated, and with each new library those that it needs.
pub record IsReached (before after : Walk) : Type 0 where
  pub first : Member 0 after.relocated
  pub closed :
      (i : ℕ) (lib : ElfLibrary)
      → Member i after.relocated
      → get_elem? before.new_libs i ≡ some (some lib)
      → AllHandled before.manager.all after.relocated lib.dylib.needed_libs

module _ (before after : Walk) (inv : Inv before.new_libs before.manager.all [] after) where
  settled : (i : ℕ) → Pending [] after i → Member i after.relocated
  settled i (inl r) = r
  settled i (inr none) = absurd none

  handled :
      (name : Text)
      → Visited after.manager.all name
      → IsHandled before.manager.all after.relocated name
  handled name (l, e, v) l0 e0 ne = elim (inv.known name l0 e0 ne) [
    | inr s ↦ settled l0.new_idx s
    | inl (l', e', v') ↦
        let same : l ≡ l' = cc (e, e') in
        absurd (ne (sym v' ∙ ap (λ (x : GlobalDylib). x.new_idx) (sym same) ∙ v))
  ]

  all_handled :
      (names : List Text)
      → AllVisited after.manager.all names
      → AllHandled before.manager.all after.relocated names
  all_handled [] h = tt
  all_handled (name ∷ names) h = (handled name h.0, all_handled names h.1)

  reached : IsReached before after
  reached = record {
    first = settled 0 inv.first;
    closed = λ i lib r e. all_handled lib.dylib.needed_libs (inv.done i lib r e);
  }

-- How the relocation of new libraries may end.
abbrev pub IsResolved : Walk → Result (Unit {0}) × Walk → Type 0
IsResolved before (ok u, w) = IsReached before w
IsResolved before (err e, w) = Unit {0}
IsResolved before (panicked e, w) = Unit {0}
IsResolved before (out_of_fuel, w) = ⊥

resolved :
    (p : Platform) (before : Walk) (out : Result (Unit {0}) × Walk)
    → out.0 ≢ out_of_fuel
    → Ended before.new_libs before.manager.all p out
    → IsResolved before out
resolved p before (ok u, w) ends h = reached before w h
resolved p before (err e, w) ends h = tt
resolved p before (panicked e, w) ends h = tt
resolved p before (out_of_fuel, w) ends h = absurd (ends refl)

abbrev pub root : Item
root = record { idx = 0; next = 0 }

pub start : (w : Walk) → w.relocated ≡ [] → Inv w.new_libs w.manager.all (root ∷ []) w
start w none_yet = record {
  once = record { distinct = rw none_yet tt; taken = rw none_yet tt; kept = λ i out. refl };
  items = ((λ lib e. tt), tt);
  done = λ i lib r e. absurd (subst (Member i) none_yet r);
  known = λ name l0 e ne. inl (l0, e, refl);
  first = inr (inl refl);
}

-- The relocation of `dlopen_impl` ends. If it succeeds, the opened library has been relocated,
-- and with each library that has been relocated also every one that it needs, unless that one
-- was relocated before the call. (The record of relocated libraries starts empty.)
pub resolve_loop-IsResolved :
    (p : Platform) (w : Walk)
    → w.relocated ≡ []
    → IsResolved w (resolve_loop p (resolve_fuel w.manager) (root ∷ []) w)
resolve_loop-IsResolved p w none_yet =
    resolved p w (resolve_loop p (resolve_fuel w.manager) (root ∷ []) w)
      (resolve_loop-ends p (resolve_fuel w.manager) (root ∷ []) w (resolve-enough p 0 0 root w))
      (resolve_loop-Ended w.new_libs w.manager.all p (resolve_fuel w.manager) (root ∷ []) w
        (start w none_yet))
