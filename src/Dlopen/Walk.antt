-- ===== src/Dlopen/Walk.antt =====
-- The variables of `dlopen_impl`: the locked manager and the vectors that the loops grow.
use dlopen_rs.Base.{ℕ, List, [], ◌∷◌, Option}
use dlopen_rs.Base.Text.{Text}
use dlopen_rs.Loader.{CoreComponent, ElfLibrary}
use dlopen_rs.Register.{Manager}

-- `relocated` is a record of effects: the indices of the new libraries that were handed to
-- `relocate`, the last one first.
pub record Walk : Type 0 where
  pub manager : Manager
  pub dep_libs : List CoreComponent
  pub new_libs : List (Option ElfLibrary)
  pub rpath_vec : List (List Text)
  pub cur_rpath_pos : ℕ
  pub relocated : List ℕ

-- the variables as they are before the search
abbrev pub start_walk : CoreComponent → List (Option ElfLibrary) → List (List Text) → Manager → Walk
start_walk core new_libs rpath_vec m = record {
  manager = m;
  dep_libs = core ∷ [];
  new_libs = new_libs;
  rpath_vec = rpath_vec;
  cur_rpath_pos = 0;
  relocated = [];
}
