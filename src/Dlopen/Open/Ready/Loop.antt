-- ===== src/Dlopen/Open/Ready/Loop.antt =====
-- A relocation that the search has prepared does not panic.
use dlopen_rs.Dlopen.Open.Ready.Steps.{IsReady-descend, IsReady-take}
use dlopen_rs.Builtin.{builtin}
use dlopen_rs.Dlopen.Open.Total.{resolve-enough}
use dlopen_rs.Base.IndexMap.{values}
use dlopen_rs.Dlopen.Resolve.Ends.{resolve_loop-ends}
use dlopen_rs.Register.{Manager}
use dlopen_rs.Dlopen.Open.{resolve_fuel}
use dlopen_rs.Step.{and_then, Step}
use dlopen_rs.Base.Text.{Text}
use dlopen_rs.Error.{
  loader_error, Called-cases, refused, failure, LoaderError, panicked, out_of_fuel, err, ok, Error,
  Result,
}
use dlopen_rs.Dlopen.Resolve.{
  descend, Found, scan_names, reloc, resolve_loop, settle, round, can_relocate,
}
use dlopen_rs.Dlopen.Walk.{Walk}
use dlopen_rs.Dlopen.Open.Panics.{IsRelocatePanic}
use dlopen_rs.Loader.{create_lazy_scope, LazyScope, ElfLibrary, CoreComponent, ElfDylib, Platform}
use dlopen_rs.Dlopen.Open.Ready.{AllListed, Item, GlobalDylib, IndexMap, IsReady}
use dlopen_rs.Dlopen.Open.Ready.Scan.{Scanned, scan_names-Scanned}
use dlopen_rs.Dlopen.Open.Reached.{root}
use dlopen_rs.Base.{[], inr, inl, ◌++◌, ◌≡◌, refl, zero, suc, Option, ◌≢◌, drop, List, ◌∷◌, ℕ}

-- The error is one that the relocation of a library gave.
abbrev pub IsRefused : Platform → Error → Type 0
IsRefused p e =
    (lib : ElfDylib) × (scope : List CoreComponent) × (find : (Text → Option ℕ))
    × (lazy_scope : Option LazyScope) × (failed : LoaderError) × (p.relocate lib scope find
          lazy_scope
        ≡ failure (refused failed))
    × (e ≡ loader_error failed)

module _ (p : Platform) where
  abbrev After : Result (List Item) × Walk → Type 0
  After (ok stack, w) = IsReady stack w
  After (err e, w) = IsRefused p e
  After (panicked e, w) = IsRelocatePanic p e
  After (out_of_fuel, w) = ⊥

  settle-IsReady :
      (item : Item) (stack : List Item) (w : Walk) (lib : ElfLibrary) (out : Result Found × Manager)
      → IsReady (item ∷ stack) w
      → Scanned w.manager.all item.idx out
      → After (and_then (out.0, record w { manager = out.1 }) (settle p item stack lib))
  unfolding settle reloc
  settle-IsReady item stack w lib (ok can_relocate, m) ready (u, k) =
      let scope = values m.global ++ w.dep_libs in
      let lazy_scope = create_lazy_scope w.dep_libs lib.dylib.is_lazy in
      elim (Called-cases (p.relocate lib.dylib scope (builtin p.address) lazy_scope)) [
        | inl (core, e) ↦ rw e (IsReady-take item stack w ready m u k)
        | inr (inl (failed, e)) ↦
            rw e (lib.dylib, scope, builtin p.address, lazy_scope, failed, e, refl)
        | inr (inr (q, e)) ↦ rw e (lib.dylib, scope, builtin p.address, lazy_scope, e)
      ]
  settle-IsReady item stack w lib (ok (descend item' idx), m) ready (u, k, same, ne, rest) =
      let (name, wait, visited) = rest in
      IsReady-descend item stack w ready m u k item' idx name same ne wait visited
  settle-IsReady item stack w lib (err e, m) ready h = absurd h
  settle-IsReady item stack w lib (panicked e, m) ready h = absurd h
  settle-IsReady item stack w lib (out_of_fuel, m) ready h = absurd h

  AllListed-drop :
      (m : IndexMap GlobalDylib) (n : ℕ) (names : List Text)
      → AllListed m names
      → AllListed m (drop n names)
  AllListed-drop m zero names h = h
  AllListed-drop m (suc n) [] h = tt
  AllListed-drop m (suc n) (name ∷ names) h = AllListed-drop m n names h.1

  round-IsReady :
      (item : Item) (stack : List Item) (w : Walk)
      → IsReady (item ∷ stack) w
      → After (round p item stack w)
  unfolding round
  round-IsReady item stack w ready =
      let (lib, e) = ready.held.0 in
      let names = drop item.next lib.dylib.needed_libs in
      rw (e, round)
        (settle-IsReady item stack w lib (scan_names item names w.manager) ready (
          scan_names-Scanned w.manager.all item.idx item names w.manager refl
            (λ name l here ne. (l, here, refl)) (λ k l. l)
            (AllListed-drop w.manager.all item.next lib.dylib.needed_libs
              (ready.listed item.idx lib e))))

  -- How the relocation may end.
  abbrev pub IsCarriedOut : Result (Unit {0}) × Walk → Type 0
  IsCarriedOut (ok u, w) = IsReady [] w
  IsCarriedOut (err e, w) = IsRefused p e
  IsCarriedOut (panicked e, w) = IsRelocatePanic p e
  IsCarriedOut (out_of_fuel, w) = ⊥

  loop_next :
      (out : Result (List Item) × Walk) (k : List Item → Step Walk (Unit {0}))
      → After out
      → (and_then out k).0 ≢ out_of_fuel
      → ((stack : List Item) (w : Walk)
          → IsReady stack w
          → (k stack w).0 ≢ out_of_fuel
          → IsCarriedOut (k stack w))
      → IsCarriedOut (and_then out k)
  loop_next (ok stack, w) k h ends next = next stack w h ends
  loop_next (err e, w) k h ends next = h
  loop_next (panicked e, w) k h ends next = h
  loop_next (out_of_fuel, w) k h ends next = absurd h

  resolve_loop-IsReady :
      (fuel : ℕ) (stack : List Item) (w : Walk)
      → IsReady stack w
      → (resolve_loop p fuel stack w).0 ≢ out_of_fuel
      → IsCarriedOut (resolve_loop p fuel stack w)
  unfolding resolve_loop
  resolve_loop-IsReady zero stack w ready ends = absurd (ends refl)
  resolve_loop-IsReady (suc fuel) [] w ready ends = ready
  resolve_loop-IsReady (suc fuel) (item ∷ stack) w ready ends =
      loop_next (round p item stack w) _ (round-IsReady item stack w ready) ends
        (λ stack' w' ready' ends'. resolve_loop-IsReady fuel stack' w' ready' ends')

  -- If the new libraries need registered names alone, and each index that waits is that of a new
  -- library and stands under one name, then the relocation that starts at the opened library
  -- ends; the only error is one that relocating a library gave, and the only panic one of the
  -- callback `deal_unknown` while a library was relocated.
  pub resolve_loop-IsCarriedOut :
      (w : Walk)
      → IsReady (root ∷ []) w
      → IsCarriedOut (resolve_loop p (resolve_fuel w.manager) (root ∷ []) w)
  resolve_loop-IsCarriedOut w ready =
      resolve_loop-IsReady (resolve_fuel w.manager) (root ∷ []) w ready
        (resolve_loop-ends p (resolve_fuel w.manager) (root ∷ []) w (resolve-enough p 0 0 root w))
