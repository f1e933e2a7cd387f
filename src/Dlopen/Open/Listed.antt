-- ===== src/Dlopen/Open/Listed.antt =====
-- Tables that hold all that their libraries need, and the changes that keep them so.
use dlopen_rs.Base.{
  [], ◌++◌, ◌≡◌, ap, subst, sym, ◌∙◌, List, ◌∷◌, some, inl, inr, true, Option-cases, Bool-cases,
  is_some, arith,
}
use dlopen_rs.Base.Text.{Text, text_eq}
use dlopen_rs.Base.IndexMap.{IndexMap, get, modify, get-modify}
use dlopen_rs.Loader.{CoreComponent}
use dlopen_rs.Register.{GlobalDylib}

-- All these names are registered.
abbrev pub AllListed : IndexMap GlobalDylib → List Text → Type 0
AllListed m [] = Unit {0}
AllListed m (name ∷ names) = (is_some (get name m) ≡ true) × AllListed m names

abbrev pub AllClosed : IndexMap GlobalDylib → List CoreComponent → Type 0
AllClosed m [] = Unit {0}
AllClosed m (core ∷ cores) = AllListed m core.needed_libs × AllClosed m cores

-- What the registered libraries need is registered.
abbrev pub IsClosed : IndexMap GlobalDylib → Type 0
IsClosed m =
    (name : Text) (lib : GlobalDylib) → get name m ≡ some lib → AllListed m lib.inner.needed_libs

module _ (name : Text) (f : GlobalDylib → GlobalDylib) (m : IndexMap GlobalDylib) where
  pub listed-modify :
      (k : Text) → is_some (get k m) ≡ true → is_some (get k (modify name f m)) ≡ true
  listed-modify k h = rw (get-modify name k f m) (ground arith)

  pub AllListed-modify : (names : List Text) → AllListed m names → AllListed (modify name f m) names
  AllListed-modify [] h = tt
  AllListed-modify (k ∷ names) h = (listed-modify k h.0, AllListed-modify names h.1)

  pub AllClosed-modify :
      (cores : List CoreComponent) → AllClosed m cores → AllClosed (modify name f m) cores
  AllClosed-modify [] h = tt
  AllClosed-modify (core ∷ cores) h =
      (AllListed-modify core.needed_libs h.0, AllClosed-modify cores h.1)

  -- an entry after the change has the handle of an entry before it
  pub entry-before :
      ((lib : GlobalDylib) → (f lib).inner ≡ lib.inner)
      → (k : Text) (lib : GlobalDylib) → get k (modify name f m) ≡ some lib
      → (old : GlobalDylib) × (get k m ≡ some old) × (lib.inner ≡ old.inner)
  entry-before same k lib e = elim (Option-cases (get k m)) [
    | inl n ↦ absurd (ground (arith, e, n, get-modify name k f m))
    | inr (old, o) ↦ elim (Bool-cases (text_eq name k)) [
      | inl t ↦
          let changed : lib ≡ f old = ground (arith, e, o, get-modify name k f m) in
          (old, o, ap (λ (x : GlobalDylib). x.inner) changed ∙ same old)
      | inr t ↦ (old, o, ground (arith, e, o, get-modify name k f m))
    ]
  ]

  pub IsClosed-modify :
      ((lib : GlobalDylib) → (f lib).inner ≡ lib.inner) → IsClosed m → IsClosed (modify name f m)
  IsClosed-modify same h k lib e =
      let (old, o, inner) = entry-before same k lib e in
      AllListed-modify lib.inner.needed_libs
        (subst (λ (c : CoreComponent). AllListed m c.needed_libs) (sym inner) (h k old o))

pub AllClosed-append :
    (m : IndexMap GlobalDylib) (cores : List CoreComponent) (core : CoreComponent)
    → AllClosed m cores
    → AllListed m core.needed_libs
    → AllClosed m (cores ++ core ∷ [])
AllClosed-append m [] core h new = (new, tt)
AllClosed-append m (c ∷ cores) core h new = (h.0, AllClosed-append m cores core h.1 new)
