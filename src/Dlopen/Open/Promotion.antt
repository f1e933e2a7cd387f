-- ===== src/Dlopen/Open/Promotion.antt =====
-- Opening a loaded library once more, where the code goes through its loading part again.
pub mod Settled
use dlopen_rs.Dlopen.Open.Promotion.Settled.{IsSettled, Quiet, search_loop-Quiet}
use dlopen_rs.Dlopen.Open.Listed.{IsClosed}
use dlopen_rs.Dlopen.Open.Kept.{
  AllKept-empty, AllKept, AllKept-refl, IsSteady, IsRestored, IsRestored-take,
}
use dlopen_rs.Dlopen.Open.Total.{search-ends}
use dlopen_rs.Dlopen.Open.{
  strip, start_walk, resolve_fuel, ElfLibrary, search_fuel, Manager, open_new, guarded, open_locked,
  dlopen_impl,
}
use dlopen_rs.Dlopen.Search.{search_loop}
use dlopen_rs.Dlopen.Resolve.{Item, round, resolve_loop}
use dlopen_rs.Step.{and_then, Step}
use dlopen_rs.Error.{Panic, out_of_fuel, err, ok, index_out_of_bounds, panicked, Result}
use dlopen_rs.Dlopen.Walk.{start_walk, Walk}
use dlopen_rs.Flags.{rtld_global, difference, contains, OpenFlags}
use dlopen_rs.Base.{
  [], length, ◌*◌, last?, false, not, ◌≢◌, ◌&&◌, refl, ◌+◌, none, suc, get_elem?, ℕ, ◌≡◌, ap, ◌∷◌,
  some, is_some, arith,
}
use dlopen_rs.Base.Text.{split, Text}
use dlopen_rs.Base.IndexMap.{IndexMap, get}
use dlopen_rs.Loader.{ElfLibrary, Dylib, Platform, CoreComponent}
use dlopen_rs.Register.{Manager, GlobalDylib}

module _ (m0 : IndexMap GlobalDylib) where
  module _ (p : Platform) (flags : OpenFlags) where
    -- The step panics with an index that is out of bounds.
    abbrev Panics : {A : Type 0} → Result A × Walk → Type 0
    Panics out = (out.0 ≡ panicked index_out_of_bounds) × AllKept m0 out.1.manager.all

    no_first :
        (fuel : ℕ) (item : Item) (w : Walk)
        → IsSettled m0 w
        → Panics (resolve_loop p (suc fuel) (item ∷ []) w)
    unfolding resolve_loop round
    no_first fuel item w h =
        let empty : get_elem? w.new_libs item.idx ≡ none =
          ap (λ l. get_elem? l item.idx) h.none_new in
        rw (empty, resolve_loop, round) (refl, h.old)

    Quiet-Panics :
        (out : Result (Unit {0}) × Walk) (k : Unit {0} → Step Walk Dylib)
        → Quiet m0 out
        → out.0 ≢ out_of_fuel
        → ((u : Unit {0}) (w : Walk) → IsSettled m0 w → Panics (k u w))
        → Panics (and_then out k)
    Quiet-Panics (ok u, w) k h ends next = next u w h
    Quiet-Panics (err e, w) k h ends next = absurd h
    Quiet-Panics (panicked e, w) k h ends next = absurd h
    Quiet-Panics (out_of_fuel, w) k h ends next = absurd (ends refl)

    then-Panics :
        {A : Type 0} (out : Result A × Walk) (k : A → Step Walk Dylib)
        → Panics out
        → Panics (and_then out k)
    then-Panics (ok a, w) k h = absurd (cc h.0)
    then-Panics (err a, w) k h = absurd (cc h.0)
    then-Panics (panicked a, w) k h = (cc h.0, h.1)
    then-Panics (out_of_fuel, w) k h = absurd (cc h.0)

    open_locked-Panics :
        (fresh : ℕ) (core : CoreComponent) (w : Walk)
        → w.dep_libs ≡ core ∷ []
        → IsSettled m0 w
        → Panics (open_locked p fresh flags w)
    unfolding open_locked
    open_locked-Panics fresh core w one h =
        Quiet-Panics (search_loop p flags (search_fuel w.manager) 0 w) _
          (search_loop-Quiet m0 p flags (search_fuel w.manager) 0 w h)
          (search-ends p fresh flags core w one)
          (λ _ w1 h1.
            let first : Item = record { idx = 0; next = 0 } in
            let positive : resolve_fuel w1.manager ≡ suc (2 * length w1.manager.all + 1) =
              omega arith in
            then-Panics (resolve_loop p (resolve_fuel w1.manager) (first ∷ []) w1) _
              (rw positive (no_first (2 * length w1.manager.all + 1) first w1 h1)))

guarded-panics :
    {A : Type 0} (old : Manager) (out : Result A × Manager) (e : Panic)
    → out.0 ≡ panicked e
    → (guarded old out).0 ≡ panicked e
unfolding guarded
guarded-panics old (ok a, m) e h = h
guarded-panics old (err a, m) e h = h
guarded-panics old (panicked a, m) e h = h
guarded-panics old (out_of_fuel, m) e h = h

-- the library was opened as a dependency alone, or RTLD_GLOBAL is asked for anew
abbrev pub IsPromotion : GlobalDylib → OpenFlags → Type 0
IsPromotion lib flags =
    (is_some lib.deps && not (contains (difference flags lib.flags) rtld_global)) ≡ false

-- If everything that the registered libraries need is registered, then opening a registered
-- library panics wherever it does not return at once: where the library was loaded as a dependency
-- alone, or where the flags ask for RTLD_GLOBAL and its flags do not have it.
pub dlopen_impl-promotion_panics :
    (p : Platform) (fresh : ℕ) (path key : Text) (flags : OpenFlags) (f : Result ElfLibrary)
    (m : Manager) (lib : GlobalDylib)
    → last? (split b'/' path) ≡ some key
    → get key m.all ≡ some lib
    → IsPromotion lib flags
    → IsClosed m.all
    → (dlopen_impl p fresh path flags f m).0 ≡ panicked index_out_of_bounds
unfolding dlopen_impl open_new
dlopen_impl-promotion_panics p fresh path key flags f m lib named found again closed =
    let w = start_walk lib.inner [] [] m in
    let settled : IsSettled [] w = record {
      none_new = refl;
      closed = closed;
      queued = (closed key lib found, tt);
      old = AllKept-empty m.all;
    } in
    rw (named, dlopen_impl, found, again, open_new)
      (guarded-panics m _ index_out_of_bounds
        (open_locked-Panics [] p (strip flags) fresh lib.inner w refl settled).0)

guarded-IsRestored :
    (old : Manager) (steady : IsSteady old) (out : Result Dylib × Walk)
    → out.0 ≡ panicked index_out_of_bounds
    → AllKept old.all out.1.manager.all
    → IsRestored old steady (guarded old (out.0, out.1.manager)).1.all
unfolding guarded
guarded-IsRestored old steady (ok d, w) e kept = absurd (cc e)
guarded-IsRestored old steady (err a, w) e kept = absurd (cc e)
guarded-IsRestored old steady (panicked a, w) e kept =
    IsRestored-take old steady (length old.all) w.manager.all kept
guarded-IsRestored old steady (out_of_fuel, w) e kept = absurd (cc e)

-- An opening that panics so leaves the registered libraries relocated and in their place.
pub promotion-IsRestored :
    (p : Platform) (fresh : ℕ) (flags : OpenFlags) (m : Manager) (key : Text) (lib : GlobalDylib)
    (steady : IsSteady m)
    → get key m.all ≡ some lib
    → IsRestored m steady (open_new p fresh flags lib.inner [] [] m).1.all
unfolding open_new
promotion-IsRestored p fresh flags m key lib steady found =
    let w = start_walk lib.inner [] [] m in
    let settled : IsSettled m.all w = record {
      none_new = refl;
      closed = steady.closed;
      queued = (steady.closed key lib found, tt);
      old = AllKept-refl m.all steady.quiet;
    } in
    let (panics, kept) = open_locked-Panics m.all p (strip flags) fresh lib.inner w refl settled in
    guarded-IsRestored m steady (open_locked p fresh (strip flags) w) panics kept
