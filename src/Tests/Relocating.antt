-- ===== src/Tests/Relocating.antt =====
-- Relocation where `a.so` needs `d.so`, which needs nothing.
use dlopen_rs.Base.IndexMap.{get}
use dlopen_rs.Dlopen.Resolve.Descent.{InNames}
use dlopen_rs.Dlopen.Resolve.Visits.{Waiting}
use dlopen_rs.Dlopen.Open.Reached.{root}
use dlopen_rs.Dlopen.Resolve.{resolve_loop}
use dlopen_rs.Register.{GlobalDylib}
use dlopen_rs.Base.Text.{text_eq, codes}
use dlopen_rs.Loader.{ElfLibrary, CoreComponent}
use dlopen_rs.Base.{
  zero, suc, inr, arith, ◌<◌, inl, sym, ◌∙◌, ap, subst, ◌≡◌, refl, true, some, ◌==◌, none, ◌∷◌, [],
  if◌then◌else◌, ℕ,
}
use dlopen_rs.Dlopen.Open.Order.{resolve_loop-IsOrdered}
use dlopen_rs.Dlopen.Open.Order.Rank.{IsOrdered, IsRanked}
use dlopen_rs.Dlopen.Walk.{Walk}
use dlopen_rs.Tests.Sample.{sample_platform, sample_dylib, sample_core}

abbrev d_core : CoreComponent
d_core = sample_core 4 (codes "d.so") [] (codes "k")

abbrev top_core : CoreComponent
top_core = sample_core 1 (codes "a.so") (codes "d.so" ∷ []) (codes "f")

abbrev new_library : CoreComponent → ElfLibrary
new_library core = record { dylib = sample_dylib core; flags = 1 }

abbrev entry : CoreComponent → ℕ → GlobalDylib
entry core idx = record { inner = core; flags = 1; deps = none; is_mark = true; new_idx = idx }

abbrev searched : Walk
searched = record {
  manager = record {
    all = (codes "a.so", entry top_core 0) ∷ (codes "d.so", entry d_core 1) ∷ [];
    global = [];
  };
  dep_libs = top_core ∷ d_core ∷ [];
  new_libs = some (new_library top_core) ∷ some (new_library d_core) ∷ [];
  rpath_vec = [] ∷ [] ∷ [];
  cur_rpath_pos = 0;
  relocated = [];
}

abbrev rank : ℕ → ℕ
rank i = if i == 0 then 1 else 0

-- what `d.so` stands for
d_index : (j : ℕ) → Waiting searched.manager.all (codes "d.so") j → 1 ≡ j
unfolding get text_eq
d_index j (lib, e, v) =
    let same : entry d_core 1 ≡ lib = cc e in ap (λ (x : GlobalDylib). x.new_idx) same ∙ v

searched-IsRanked : IsRanked searched.new_libs searched.manager.all rank
searched-IsRanked zero j lib name held inside wait ne =
    let same : new_library top_core ≡ lib = cc held in
    let needed = subst (λ l. InNames name l.dylib.needed_libs) (sym same) inside in
    elim needed [
      | inl named ↦
          let at = d_index j (subst (λ n. Waiting searched.manager.all n j) named wait) in
          subst (λ k. rank k < 1) at (omega arith)
      | inr none_else ↦ absurd none_else
    ]
searched-IsRanked (suc zero) j lib name held inside wait ne =
    let same : new_library d_core ≡ lib = cc held in
    absurd (subst (λ l. InNames name l.dylib.needed_libs) (sym same) inside)
searched-IsRanked (suc (suc i)) j lib name held inside wait ne = absurd (cc held)

resolve_loop-IsOrdered_example :
    IsOrdered searched.new_libs searched.manager.all
      (resolve_loop (sample_platform 0) 10 (root ∷ []) searched).1.relocated
resolve_loop-IsOrdered_example =
    resolve_loop-IsOrdered (sample_platform 0) 10 rank searched refl searched-IsRanked
