-- ===== src/CInterface.antt =====
-- The C interface of src/dlopen.rs: `dlopen`, `dlsym`, `dlclose` and `dl_iterate_phdr` of `imp`.
-- A handle is the address of a box of dependencies, which it owns once.
pub mod Exports
pub mod Handles
pub mod Iterate
pub mod Symbols
use dlopen_rs.Base.{
  ℕ, ◌-◌, ◌^◌, ◌%◌, List, [], ◌∷◌, Option, none, some, if◌then◌else◌, ◌==◌, length, find_map,
  get_or_else,
}
use dlopen_rs.Base.Text.{Text}
use dlopen_rs.Base.IndexMap.{IndexMap, get, values}
use dlopen_rs.Error.{
  index_out_of_bounds, Result, ok, err, panicked, out_of_fuel, unwrap_none, dangling, todo,
}
use dlopen_rs.Step.{and_then, Step}
use dlopen_rs.Flags.{OpenFlags}
use dlopen_rs.Loader.{Phdr, CoreComponent, Deps, Dylib, Platform, find_symbol}
use dlopen_rs.Register.{GlobalDylib, Manager, get_dylib}
use dlopen_rs.Register.World.{World, drop_dylib}
use dlopen_rs.Dlopen.Open.{dlopen}

-- The box that a handle points to, if it is one that was handed out.
abbrev pub find_box : ℕ → List Deps → Option Deps
find_box addr [] = none
find_box addr (b ∷ bs) = if b.addr == addr then some b else find_box addr bs

-- one owner of the box fewer
abbrev pub release : ℕ → List Deps → List Deps
release addr [] = []
release addr (b ∷ bs) = if b.addr == addr then bs else b ∷ release addr bs

abbrev pub with_manager : Manager → World → World
with_manager m w = record w { manager = m }

-- `all.get_index(0)`
abbrev pub first_lib : IndexMap GlobalDylib → Option GlobalDylib
first_lib [] = none
first_lib ((k, lib) ∷ m) = some lib

-- a step that ends with the drop of a `Dylib`
abbrev pub dropping : {A : Type 0} → A → Dylib → World → Result A × World
dropping a d w = and_then (drop_dylib d w) (λ _ w'. (ok a, w'))

-- `Arc::into_raw(take(&mut lib.deps).unwrap())`, and the drop of `lib` without its box
unfoldable pub hand_out : Dylib → Step World ℕ
hand_out lib w = elim lib.deps [
  | none ↦ (panicked unwrap_none, w)
  | some b ↦ dropping b.addr (record lib { deps = none }) (record w { handles = b ∷ w.handles })
]

-- `if let Ok(lib) = .. { lib } else { return null() }`, and what follows it
unfoldable pub handle_of : Result Dylib → Step World ℕ
unfolding hand_out
handle_of (ok lib) w = hand_out lib w
handle_of (err e) w = (ok 0, w)
handle_of (panicked e) w = (panicked e, w)
handle_of out_of_fuel w = (out_of_fuel, w)

-- `dlopen`; a null file name is `none`, and the null handle is 0
unfoldable pub dlopen_c : Platform → ℕ → Option Text → OpenFlags → Step World ℕ
unfolding hand_out handle_of
dlopen_c p fresh none flags w = elim (first_lib w.manager.all) [
  | none ↦ (panicked unwrap_none, w)
  | some lib ↦ hand_out (get_dylib lib) w
]
dlopen_c p fresh (some path) flags w =
    let (result, m) = dlopen p fresh path flags w.manager in handle_of result (with_manager m w)

abbrev pub rtld_default : ℕ
rtld_default = 0

abbrev pub rtld_next : ℕ
rtld_next = 2 ^ 64 - 1

-- `find_symbol(..).ok()`, and null if there is none
abbrev pub or_null : Result ℕ → Result ℕ
or_null (ok sym) = ok sym
or_null (err e) = ok 0
or_null (panicked e) = panicked e
or_null out_of_fuel = out_of_fuel

-- `dlsym`, which changes nothing
unfoldable pub dlsym : ℕ → Text → World → Result ℕ
dlsym handle name w =
    if handle == rtld_default
    then ok (get_or_else (find_map (λ lib. lib.symbol name) (values w.manager.global)) 0)
    else if handle == rtld_next
    then panicked todo
    else elim (find_box handle w.handles) [
      | none ↦ panicked dangling
      | some b ↦ or_null (find_symbol b.items name)
    ]

-- `dlclose`: the handle gives up the box, and a `Dylib` of the library goes out of scope.
unfoldable pub dlclose : ℕ → Step World ℕ
dlclose handle w = elim (find_box handle w.handles) [
  | none ↦ (panicked dangling, w)
  | some b ↦
      let released = record w { handles = release handle w.handles } in
      elim b.items [
        | [] ↦ (panicked index_out_of_bounds, released)
        | core ∷ cores ↦ elim (get core.shortname w.manager.all) [
          | none ↦ (panicked unwrap_none, released)
          | some lib ↦ dropping 0 (get_dylib lib) released
        ]
      ]
]

-- `dl_phdr_info`: the fields that are not constants
pub record PhdrInfo : Type 0 where
  pub dlpi_addr : ℕ
  pub dlpi_name : Text
  pub dlpi_phdr : List Phdr
  pub dlpi_phnum : ℕ
  pub dlpi_adds : ℕ
  pub dlpi_subs : ℕ

abbrev pub phdr_info : ℕ → CoreComponent → PhdrInfo
phdr_info adds core = record {
  dlpi_addr = core.base;
  dlpi_name = core.name;
  dlpi_phdr = core.phdrs;
  dlpi_phnum = length core.phdrs % 2 ^ 16;
  dlpi_adds = adds;
  dlpi_subs = 0;
}

-- `if phdrs.is_empty() { continue; }`
abbrev pub has_phdrs : CoreComponent → Option CoreComponent
has_phdrs core = elim core.phdrs [ [] ↦ none | ph ∷ phs ↦ some core ]

-- The callback works on the caller's data; 0 asks for the next library.
module _ {S : Type 0} (callback : Option (PhdrInfo → S → ℕ × S)) where
  abbrev pub call : PhdrInfo → ℕ → S → ℕ × S
  call info ret s = elim callback [ none ↦ (ret, s) | some f ↦ f info s ]

  unfoldable pub iterate_libs : ℕ → ℕ → List GlobalDylib → S → ℕ × S
  iterate_libs adds ret [] s = (ret, s)
  iterate_libs adds ret (lib ∷ libs) s = elim (has_phdrs lib.inner) [
    | none ↦ iterate_libs adds ret libs s
    | some core ↦
        let (ret', s') = call (phdr_info adds core) ret s in
        let rest = iterate_libs adds ret' libs s' in if ret' == 0 then rest else (ret', s')
  ]

  -- `dl_iterate_phdr`; `old` is the function of the host, called with the same callback.
  unfoldable pub dl_iterate_phdr : (S → ℕ × S) → Manager → S → ℕ × S
  unfolding iterate_libs
  dl_iterate_phdr old m s =
      let (ret, s') = old s in
      if ret == 0 then iterate_libs (length m.all) ret (values m.all) s' else (ret, s')
