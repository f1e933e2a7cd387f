-- ===== src/Dlopen/Open/Steady/Answer.antt =====
-- How an opening ends in a manager where what the libraries need is registered and none waits.
use dlopen_rs.Dlopen.Open.Steady.Loaded.{
  register-IsSteady, register-IsLoaded, IsLoaded, Steady, IsLoadedFrom,
}
use dlopen_rs.Dlopen.Open.Closure.{
  Onward-refl, Onward-revisit, Onward-add, Onward, IsNaming, IsComplete,
}
use dlopen_rs.Dlopen.Open.Prepared.Missing.{Fine, LoadsPlain}
use dlopen_rs.Dlopen.Open.Complete.{search_loop-IsSearched, IsSearched}
use dlopen_rs.Dlopen.Search.Rule.{search_loop-rule}
use dlopen_rs.Dlopen.Open.{
  strip, search_fuel, start_walk, open_locked, open_new, guarded, panicked, resolve_fuel, ok,
  resolve_loop, Manager, and_then, finish,
}
use dlopen_rs.Error.{Panic, out_of_fuel, err, Result}
use dlopen_rs.Flags.{OpenFlags}
use dlopen_rs.Loader.{ElfLibrary, Deps, Platform, CoreComponent, Dylib}
use dlopen_rs.Base.IndexMap.{IndexMap}
use dlopen_rs.Dlopen.Open.Panics.{IsDuePanic, IsLoadPanic}
use dlopen_rs.Dlopen.Open.Kept.{IsRestored-refl, IsRestored-take, IsRestored, IsSteady, IsQuiet}
use dlopen_rs.Dlopen.Open.Prepared.{IsPlain, IsPrepared}
use dlopen_rs.Dlopen.Open.Prepared.Search.{search_loop-Fine}
use dlopen_rs.Dlopen.Open.Steady.{
  start-Going, Walk, GlobalDylib, prepared-IsReady, prepared-IsClosed, queue-AllListed,
}
use dlopen_rs.Dlopen.Open.Steady.Relocated.{relocated-IsQuiet, IsSafe, resolve_loop-IsSafe}
use dlopen_rs.Dlopen.Open.Ready.Loop.{IsCarriedOut, resolve_loop-IsCarriedOut}
use dlopen_rs.Dlopen.Open.Reached.{root, IsResolved, resolve_loop-IsResolved}
use dlopen_rs.Dlopen.Resolve.Once.{IsOnce, resolve_loop-IsOnce}
use dlopen_rs.Dlopen.Search.{rpath_of, add_library, revisit, search_loop}
use dlopen_rs.Base.{
  inl, inr, get_elem?-append, sym, [], ◌≢◌, ◌∙◌, ap, some, get_elem?, refl, ◌∷◌, arith, length, ◌≡◌,
  Option, ℕ,
}

module _ (m0 : IndexMap GlobalDylib) (p : Platform) (fresh : ℕ) (flags : OpenFlags) (w1 : Walk)
    (h : IsPrepared m0 w1) (complete : IsComplete w1.manager.all w1.dep_libs) (core : CoreComponent)
    (top : get_elem? w1.dep_libs 0 ≡ some core) where
  finish-Fine :
      (w2 : Walk)
      → IsSafe m0 w1.dep_libs w2
      → IsQuiet w2.manager.all
      → Fine m0 p (Steady fresh flags core) (finish p fresh flags w2)
  unfolding finish
  finish-Fine w2 safe quiet =
      let deps : Option Deps = some (record { addr = fresh; items = w2.dep_libs }) in
      let first : get_elem? w2.dep_libs 0 ≡ some core = ap (λ l. get_elem? l 0) safe.queue ∙ top in
      rw (first, finish)
        (
          register-IsSteady core flags deps w2.manager safe.closed quiet (safe.listed 0 core top),
          register-IsLoaded fresh flags core w2.dep_libs w2.manager first
              (λ j dep e. safe.listed j dep (sym (ap (λ l. get_elem? l j) safe.queue) ∙ e)),
        )

  relocated-Fine :
      (out : Result (Unit {0}) × Walk)
      → IsCarriedOut p out
      → IsResolved w1 out
      → IsOnce w1.new_libs out.1
      → IsSafe m0 w1.dep_libs out.1
      → Fine m0 p (Steady fresh flags core) (and_then out (λ _ w2. finish p fresh flags w2))
  relocated-Fine (ok u, w2) ready reached once safe =
      finish-Fine w2 safe (relocated-IsQuiet m0 w1 w2 h reached ready once)
  relocated-Fine (err e, w2) ready reached once safe = safe.old
  relocated-Fine (panicked e, w2) ready reached once safe = (inr (inr ready), safe.old)
  relocated-Fine (out_of_fuel, w2) ready reached once safe = absurd ready

  resolve-Fine :
      w1.relocated ≡ []
      → Fine m0 p (Steady fresh flags core) (
          and_then
            (resolve_loop p (resolve_fuel w1.manager) (root ∷ []) w1)
            (λ _ w2. finish p fresh flags w2))
  resolve-Fine none_yet =
      let fuel = resolve_fuel w1.manager in
      relocated-Fine (resolve_loop p fuel (root ∷ []) w1)
        (resolve_loop-IsCarriedOut p w1 (prepared-IsReady m0 w1 h complete))
        (resolve_loop-IsResolved p w1 none_yet) (resolve_loop-IsOnce p fuel (root ∷ []) w1 none_yet)
        (resolve_loop-IsSafe m0 w1.dep_libs p fuel (root ∷ []) w1 (record {
          closed = prepared-IsClosed m0 w1 h complete;
          queue = refl;
          listed = queue-AllListed m0 w1 h complete;
          old = h.old;
        }))

search_loop-relocated :
    (p : Platform) (flags : OpenFlags) (fuel pos : ℕ) (w : Walk)
    → w.relocated ≡ []
    → (search_loop p flags fuel pos w).1.relocated ≡ []
unfolding revisit add_library
search_loop-relocated p flags fuel pos w =
    search_loop-rule p flags (λ w'. w'.relocated ≡ []) (λ name lib w' here e. ground (arith, e))
      (λ lib w' e. ground (arith, e)) (λ w' e. e) fuel pos w

-- The opened library stays the first of the queue.
search_loop-first :
    (p : Platform) (flags : OpenFlags) (fuel pos : ℕ) (w : Walk) (core : CoreComponent)
    → get_elem? w.dep_libs 0 ≡ some core
    → get_elem? (search_loop p flags fuel pos w).1.dep_libs 0 ≡ some core
search_loop-first p flags fuel pos w core =
    search_loop-rule p flags (λ w'. get_elem? w'.dep_libs 0 ≡ some core)
      (λ name lib w' here e.
        kept w' (revisit flags name lib w') (Onward-revisit w' flags name lib w' (Onward-refl w'))
          e)
      (λ lib w' e.
        kept w' (add_library flags lib w').1 (Onward-add w' flags lib w' (Onward-refl w')) e)
      (λ w' e. e) fuel pos w
  where
    kept :
        (w1 w2 : Walk)
        → Onward w1 w2
        → get_elem? w1.dep_libs 0 ≡ some core
        → get_elem? w2.dep_libs 0 ≡ some core
    kept w1 w2 o e = let (rest, q) = o.queue in rw q (get_elem?-append w1.dep_libs rest 0 e)

module _ (p : Platform) (naming : IsNaming p) (loads : LoadsPlain p) (fresh : ℕ) where
  searched-Fine :
      (m0 : IndexMap GlobalDylib) (flags : OpenFlags) (core : CoreComponent)
      (out : Result (Unit {0}) × Walk)
      → Fine m0 p (λ _ w1. IsPrepared m0 w1) out
      → IsSearched out
      → out.1.relocated ≡ []
      → get_elem? out.1.dep_libs 0 ≡ some core
      → Fine m0 p (Steady fresh flags core) (
          and_then out (λ _ w1.
            and_then
              (resolve_loop p (resolve_fuel w1.manager) (root ∷ []) w1)
              (λ _ w2. finish p fresh flags w2)))
  searched-Fine m0 flags core (ok u, w1) h complete none_yet top =
      resolve-Fine m0 p fresh flags w1 h complete core top none_yet
  searched-Fine m0 flags core (err e, w1) h complete none_yet top = h
  searched-Fine m0 flags core (panicked e, w1) h complete none_yet top = h
  searched-Fine m0 flags core (out_of_fuel, w1) h complete none_yet top = absurd complete

  -- How a call ends: with a steady manager and `Q`, or with the libraries of before.
  abbrev pub Closing :
      (Dylib → Manager → Type 0) → (m : Manager) → IsSteady m → Result Dylib × Manager → Type 0
  Closing Q m steady (ok d, m') = IsSteady m' × Q d m'
  Closing Q m steady (err e, m') = IsRestored m steady m'.all
  Closing Q m steady (panicked e, m') = IsDuePanic p e × IsRestored m steady m'.all
  Closing Q m steady (out_of_fuel, m') = IsRestored m steady m'.all

  guarded-Closing :
      (Q : Dylib → Manager → Type 0) (m : Manager) (steady : IsSteady m) (out : Result Dylib × Walk)
      → Fine m.all p (λ d w. IsSteady w.manager × Q d w.manager) out
      → Closing Q m steady (guarded m (out.0, out.1.manager))
  unfolding guarded
  guarded-Closing Q m steady (ok d, w) h = h
  guarded-Closing Q m steady (err e, w) h = IsRestored-take m steady (length m.all) w.manager.all h
  guarded-Closing Q m steady (panicked e, w) h =
      (h.0, IsRestored-take m steady (length m.all) w.manager.all h.1)
  guarded-Closing Q m steady (out_of_fuel, w) h =
      IsRestored-take m steady (length m.all) w.manager.all h

  open_new-Closing :
      (flags : OpenFlags) (lib : ElfLibrary) (m : Manager) (steady : IsSteady m)
      → IsPlain lib.dylib
      → Closing
          (IsLoaded fresh (strip flags) lib.dylib.core_component)
          m
          steady
          (open_new p fresh flags lib.dylib.core_component (some lib ∷ []) (rpath_of lib ∷ []) m)
  unfolding open_new open_locked
  open_new-Closing flags lib m steady plain =
      let core = lib.dylib.core_component in
      let w = start_walk core (some lib ∷ []) (rpath_of lib ∷ []) m in
      let fuel = search_fuel m in
      guarded-Closing (IsLoaded fresh (strip flags) core) m steady
        (open_locked p fresh (strip flags) w)
        (searched-Fine m.all (strip flags) core (search_loop p (strip flags) fuel 0 w)
          (search_loop-Fine m.all p naming loads (strip flags) fuel 0 w
            (start-Going m lib steady plain))
          (search_loop-IsSearched p (strip flags) core w naming refl)
          (search_loop-relocated p (strip flags) fuel 0 w refl)
          (search_loop-first p (strip flags) fuel 0 w core refl))

  -- The library that the closure of `dlopen_impl` loads has plain needed names.
  abbrev pub GivesPlain : Result ElfLibrary → Type 0
  GivesPlain f = (lib : ElfLibrary) → f ≡ ok lib → IsPlain lib.dylib

  Closing-map :
      (Q R : Dylib → Manager → Type 0) (m : Manager) (steady : IsSteady m)
      (out : Result Dylib × Manager)
      → Closing Q m steady out
      → ((d : Dylib) (m' : Manager) → Q d m' → R d m')
      → Closing R m steady out
  Closing-map Q R m steady (ok d, m') (s, q) f = (s, f d m' q)
  Closing-map Q R m steady (err e, m') h f = h
  Closing-map Q R m steady (panicked e, m') h f = h
  Closing-map Q R m steady (out_of_fuel, m') h f = h

  pub loaded-Closing :
      (flags : OpenFlags) (f : Result ElfLibrary) (m : Manager) (steady : IsSteady m)
      → GivesPlain f
      → f ≢ out_of_fuel
      → ((e : Panic) → f ≡ panicked e → IsLoadPanic p e)
      → Closing (IsLoadedFrom fresh flags f) m steady (
          and_then
            (f, m)
            (λ lib m'.
              open_new p fresh flags lib.dylib.core_component
                (some lib ∷ [])
                (rpath_of lib ∷ [])
                m'))
  loaded-Closing flags (ok lib) m steady gives ends calm =
      Closing-map (IsLoaded fresh (strip flags) lib.dylib.core_component)
        (IsLoadedFrom fresh flags (ok lib)) m steady
        (open_new p fresh flags lib.dylib.core_component (some lib ∷ []) (rpath_of lib ∷ []) m)
        (open_new-Closing flags lib m steady (gives lib refl)) (λ d m' h. (lib, refl, h))
  loaded-Closing flags (err e) m steady gives ends calm = IsRestored-refl m steady
  loaded-Closing flags (panicked e) m steady gives ends calm =
      (inr (inl (calm e refl)), IsRestored-refl m steady)
  loaded-Closing flags out_of_fuel m steady gives ends calm = absurd (ends refl)
