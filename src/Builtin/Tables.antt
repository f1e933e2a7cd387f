-- ===== src/Builtin/Tables.antt =====
-- How the two tables of builtin symbols differ.
use dlopen_rs.Base.{
  sym, ◌&&◌, ◌∙◌, arith, Bool, ap, if◌then◌else◌, Bool-cases, ℕ, ◌≡◌, refl, true, false, List, [],
  ◌∷◌, ◌++◌, none, some, map, inl, inr,
}
use dlopen_rs.Base.Text.{Text, codes, text_eq, text_eq_iff, starts_with}
use dlopen_rs.Base.IndexMap.{IndexMap, get}
use dlopen_rs.Builtin.{
  cxa_thread_atexit_impl, tls_get_addr, cxa_atexit_impl, dl_iterate_phdr, Function, builtin,
  builtin_unwinding, unwind_names, unwinding_abi,
}

abbrev unwind_prefix : Text
unwind_prefix = codes "_Unwind_"

abbrev all_unwind : List Text → Bool
all_unwind [] = true
all_unwind (name ∷ names) = starts_with name unwind_prefix && all_unwind names

all_unwind-names : all_unwind unwind_names ≡ true
unfolding starts_with
all_unwind-names = refl

get-append_none : (k : Text) (m m' : IndexMap ℕ) → get k m' ≡ none → get k (m ++ m') ≡ get k m
unfolding get
get-append_none k [] m' e = e
get-append_none k ((j, v) ∷ m) m' e = rw (get-append_none k m m' e)

get-unwind :
    (f : Text → ℕ) (k : Text) (names : List Text)
    → all_unwind names ≡ true
    → starts_with k unwind_prefix ≡ false
    → get k (map (λ name. (name, f name)) names) ≡ none
unfolding get
get-unwind f k [] all other = refl
get-unwind f k (name ∷ names) all other = elim (Bool-cases (text_eq name k)) [
  | inl same ↦
      let e : name ≡ k = (text_eq_iff name k).0 same in
      let first : starts_with name unwind_prefix ≡ true = ground (arith, all) in
      absurd (cc (first, other, e))
  | inr t ↦ rw t (get-unwind f k names (ground (arith, all)) other)
]

-- The two tables hold the same for every name but `__cxa_finalize` and those of the unwinder.
pub builtin_unwinding-builtin :
    (address : Function → ℕ) (name : Text)
    → text_eq (codes "__cxa_finalize") name ≡ false
    → starts_with name (codes "_Unwind_") ≡ false
    → builtin_unwinding address name ≡ builtin address name
unfolding builtin builtin_unwinding get
builtin_unwinding-builtin address name kept other =
    let common : IndexMap ℕ =
      (codes "__cxa_thread_atexit_impl", address cxa_thread_atexit_impl)
      ∷ (codes "__tls_get_addr", address tls_get_addr)
      ∷ (codes "_ITM_registerTMCloneTable", 0)
      ∷ (codes "_ITM_deregisterTMCloneTable", 0)
      ∷ (codes "__gmon_start__", 0)
      ∷ (codes "dl_iterate_phdr", address dl_iterate_phdr)
      ∷ [] in
    let unwind = λ (n : Text). address (unwinding_abi n) in
    let no_unwind = get-unwind unwind name unwind_names all_unwind-names other in
    let same = get-append_none name common (map (λ n. (n, unwind n)) unwind_names) no_unwind in
    let skipped : (if text_eq (codes "__cxa_finalize") name then some 0 else get name common)
        ≡ get name common =
      ap (λ b. if b then some 0 else get name common) kept in
    ap (λ v. if text_eq (codes "__cxa_atexit") name then some (address cxa_atexit_impl) else v)
      (same ∙ sym skipped)
