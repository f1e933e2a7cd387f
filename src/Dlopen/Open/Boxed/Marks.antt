-- ===== src/Dlopen/Open/Boxed/Marks.antt =====
-- What `is_mark` stands for while `dlopen_impl` of src/dlopen.rs searches.
use dlopen_rs.Dlopen.Resolve.Visits.{get-modify-some}
use dlopen_rs.Dlopen.Open.Prepared.{IsQueued, IsQueued-append}
use dlopen_rs.Dlopen.Open.Prepared.Insert.{entry_after, insert-new}
use dlopen_rs.Dlopen.Search.{revisit, promote, add_library}
use dlopen_rs.Dlopen.Open.Closure.{Post}
use dlopen_rs.Register.{GlobalDylib, register, entry, set_mark, set_flags}
use dlopen_rs.Dlopen.Walk.{Walk}
use dlopen_rs.Base.Text.{Text, text_eq, text_eq_iff, text_eq_refl, has_char}
use dlopen_rs.Base.IndexMap.{IndexMap, get, modify, insert, get-insert, get-modify}
use dlopen_rs.Loader.{ElfLibrary}
use dlopen_rs.Flags.{OpenFlags, contains, difference, rtld_global}
use dlopen_rs.Base.{
  [], ◌∷◌, ◌++◌, none, some, ◌≡◌, refl, sym, ◌∙◌, ap, subst, inl, inr, ◌⊎◌, true, Bool-cases, ltb,
  length, ◌%◌, ◌^◌, get_elem?-append_last,
}

-- The entry of this name is marked.
abbrev pub IsMarked : IndexMap GlobalDylib → Text → Type 0
IsMarked m name = (lib : GlobalDylib) × (get name m ≡ some lib) × (lib.is_mark ≡ true)

-- The name is a path, or its entry is marked.
abbrev pub Visited : Text → Walk → Type 0
Visited name w = (has_char b'/' name ≡ true) ⊎ IsMarked w.manager.all name

modify-IsMarked :
    (name k : Text) (f : GlobalDylib → GlobalDylib) (m : IndexMap GlobalDylib)
    → ((lib : GlobalDylib) → lib.is_mark ≡ true → (f lib).is_mark ≡ true)
    → IsMarked m k
    → IsMarked (modify name f m) k
modify-IsMarked name k f m keep (lib, e, marked) = elim (Bool-cases (text_eq name k)) [
  | inl t ↦ (f lib, get-modify-some name k f m lib e ∙ rw t, keep lib marked)
  | inr t ↦ (lib, get-modify-some name k f m lib e ∙ rw t, marked)
]

insert-IsMarked :
    (name k : Text) (new : GlobalDylib) (m : IndexMap GlobalDylib)
    → new.is_mark ≡ true
    → IsMarked m k
    → IsMarked (insert name new m) k
insert-IsMarked name k new m fresh (lib, e, marked) = elim (Bool-cases (text_eq name k)) [
  | inl t ↦ (new, get-insert name k new m ∙ rw t, fresh)
  | inr t ↦ (lib, get-insert name k new m ∙ rw (t, e), marked)
]

module _ (flags : OpenFlags) where
  pub revisit-IsMarked :
      (k name : Text) (lib : GlobalDylib) (w : Walk)
      → IsMarked w.manager.all k
      → IsMarked (revisit flags name lib w).manager.all k
  unfolding revisit promote
  revisit-IsMarked k name lib w h = elim (Bool-cases lib.is_mark) [
    | inl t ↦ rw t h
    | inr t ↦
        let marked = modify-IsMarked name k (set_mark true) w.manager.all (λ l e. refl) h in
        elim (Bool-cases (contains (difference flags lib.flags) rtld_global)) [
          | inl g ↦ rw (t, g) (modify-IsMarked name k (set_flags flags) _ (λ l e. e) marked)
          | inr g ↦ rw (t, g) marked
        ]
  ]

  pub revisit-marks :
      (name : Text) (lib : GlobalDylib) (w : Walk)
      → get name w.manager.all ≡ some lib
      → IsMarked (revisit flags name lib w).manager.all name
  unfolding revisit promote
  revisit-marks name lib w e = elim (Bool-cases lib.is_mark) [
    | inl t ↦ rw t (lib, e, t)
    | inr t ↦
        let marked : IsMarked (modify name (set_mark true) w.manager.all) name = (
          set_mark true lib,
          get-modify-some name name (set_mark true) w.manager.all lib e ∙ rw (text_eq_refl name),
          refl,
        ) in
        elim (Bool-cases (contains (difference flags lib.flags) rtld_global)) [
          | inl g ↦ rw (t, g) (modify-IsMarked name name (set_flags flags) _ (λ l e. e) marked)
          | inr g ↦ rw (t, g) marked
        ]
  ]

  pub add_library-IsMarked :
      (k : Text) (lib : ElfLibrary) (w : Walk)
      → IsMarked w.manager.all k
      → IsMarked (add_library flags lib w).1.manager.all k
  unfolding add_library register
  add_library-IsMarked k lib w h = elim (Bool-cases (ltb (length w.new_libs) 255)) [
    | inl t ↦ rw t (insert-IsMarked lib.dylib.core_component.shortname k _ w.manager.all refl h)
    | inr t ↦ rw t h
  ]

  pub add_library-marks :
      (lib : ElfLibrary) (w : Walk)
      → Post (Visited lib.dylib.core_component.shortname) (add_library flags lib w)
  unfolding add_library register
  add_library-marks lib w = elim (Bool-cases (ltb (length w.new_libs) 255)) [
    | inl t ↦
        let core = lib.dylib.core_component in
        let new = entry core flags none true (some (length w.new_libs % 2 ^ 8)) in
        rw t (inr (new, insert-new core.shortname new w.manager.all, refl))
    | inr t ↦ rw t tt
  ]

-- A marked library is in the queue, or it was marked before the call.
abbrev pub AllBoxed : IndexMap GlobalDylib → Walk → Type 0
AllBoxed m0 w =
    (name : Text) (lib : GlobalDylib)
    → get name w.manager.all ≡ some lib
    → lib.is_mark ≡ true
    → IsQueued lib.inner w.dep_libs ⊎ IsMarked m0 name

module _ (m0 : IndexMap GlobalDylib) (flags : OpenFlags) where
  -- the entries behind one change: that of the changed name has its library, the others stay
  kept_entry :
      (name k : Text) (f : GlobalDylib → GlobalDylib) (m : IndexMap GlobalDylib)
      (l lib : GlobalDylib)
      → ((x : GlobalDylib) → (f x).inner ≡ x.inner)
      → get name m ≡ some lib
      → get k (modify name f m) ≡ some l
      → (l.inner ≡ lib.inner) ⊎ (get k m ≡ some l)
  kept_entry name k f m l lib same here e = elim (Bool-cases (text_eq name k)) [
    | inl t ↦
        let name_same : name ≡ k = (text_eq_iff name k).0 t in
        let at_k : get k m ≡ some lib = subst (λ j. get j m ≡ some lib) name_same here in
        let changed_to : some l ≡ some (f lib) =
          sym e ∙ get-modify-some name k f m lib at_k ∙ rw t in
        let one : l ≡ f lib = cc changed_to in
        inl (ap (λ (x : GlobalDylib). x.inner) one ∙ same lib)
    | inr t ↦ inr (sym (get-modify name k f m ∙ rw t) ∙ e)
  ]

  boxed_again :
      (name k : Text) (lib l : GlobalDylib) (w : Walk)
      → AllBoxed m0 w
      → (l.inner ≡ lib.inner) ⊎ (get k w.manager.all ≡ some l)
      → l.is_mark ≡ true
      → IsQueued l.inner (w.dep_libs ++ lib.inner ∷ []) ⊎ IsMarked m0 k
  boxed_again name k lib l w h (inl same) marked =
      inl (length w.dep_libs, get_elem?-append_last w.dep_libs lib.inner ∙ ap some (sym same))
  boxed_again name k lib l w h (inr e) marked = elim (h k l e marked) [
    | inl queued ↦ inl (IsQueued-append l.inner lib.inner w.dep_libs queued)
    | inr before ↦ inr before
  ]

  pub revisit-AllBoxed :
      (name : Text) (lib : GlobalDylib) (w : Walk)
      → get name w.manager.all ≡ some lib
      → AllBoxed m0 w
      → AllBoxed m0 (revisit flags name lib w)
  unfolding revisit promote
  revisit-AllBoxed name lib w here h = elim (Bool-cases lib.is_mark) [
    | inl t ↦ rw t h
    | inr t ↦
        let m = w.manager.all in
        let m1 = modify name (set_mark true) m in
        let here1 : get name m1 ≡ some (set_mark true lib) =
          get-modify-some name name (set_mark true) m lib here ∙ rw (text_eq_refl name) in
        let first = λ (k : Text) (l : GlobalDylib) (e : get k m1 ≡ some l).
          kept_entry name k (set_mark true) m l lib (λ x. refl) here e in
        elim (Bool-cases (contains (difference flags lib.flags) rtld_global)) [
          | inr g ↦ rw (t, g) (λ k l e marked. boxed_again name k lib l w h (first k l e) marked)
          | inl g ↦
              rw (t, g)
                (λ k l e marked.
                  let second =
                    kept_entry name k (set_flags flags) m1 l (set_mark true lib) (λ x. refl) here1
                      e in
                  elim second [
                    | inl same ↦ boxed_again name k lib l w h (inl same) marked
                    | inr e1 ↦ boxed_again name k lib l w h (first k l e1) marked
                  ])
        ]
  ]

  pub add_library-AllBoxed :
      (lib : ElfLibrary) (w : Walk) → AllBoxed m0 w → AllBoxed m0 (add_library flags lib w).1
  unfolding add_library register
  add_library-AllBoxed lib w h = elim (Bool-cases (ltb (length w.new_libs) 255)) [
    | inr t ↦ rw t h
    | inl t ↦
        let core = lib.dylib.core_component in
        let new = entry core flags none true (some (length w.new_libs % 2 ^ 8)) in
        rw t (λ k l e marked. elim (entry_after core.shortname new w.manager.all k l e) [
          | inl (same, is_new) ↦ inl (
            length w.dep_libs,
            get_elem?-append_last w.dep_libs core ∙ ap (λ (x : GlobalDylib). some x.inner) is_new,
          )
          | inr old ↦ elim (h k l old marked) [
            | inl queued ↦ inl (IsQueued-append l.inner core w.dep_libs queued)
            | inr before ↦ inr before
          ]
        ])
  ]
