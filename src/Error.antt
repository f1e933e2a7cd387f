-- ===== src/Error.antt =====
-- The errors of src/lib.rs, and how a call of the library ends.
use dlopen_rs.Base.{◌≡◌, refl, ◌⊎◌, inl, inr, Option, none, some}
use dlopen_rs.Base.Text.{Text}

-- `std::io::Error` and `elf_loader::Error`, which the code stores and prints: the printed text.
pub data IoError : Type 0 where
  io : Text → IoError

pub data LoaderError : Type 0 where
  loader : Text → LoaderError

pub data Error : Type 0 where
  io_error : IoError → Error
  loader_error : LoaderError → Error
  find_lib_error : Text → Error
  find_symbol_error : Text → Error

-- `Display::fmt`
unfoldable pub fmt : Error → Text
fmt (io_error (io text)) = text
fmt (loader_error (loader text)) = text
fmt (find_lib_error msg) = msg
fmt (find_symbol_error msg) = msg

-- `std::error::Error::source`
unfoldable pub source : Error → Option IoError
source (io_error err) = some err
source (loader_error err) = none
source (find_lib_error msg) = none
source (find_symbol_error msg) = none

-- The panics of the sources. `dangling` is a read through a pointer to nothing, which is undefined
-- behaviour in the sources.
pub data Panic : Type 0 where
  unwrap_none index_out_of_bounds assertion_failed not_initialised dangling todo cannot_create_tls
        out_of_memory unwrap_err poisoned :
      Panic

pub data Result {ℓ} (A : Type ℓ) : Type ℓ where
  ok : A → Result A
  err : Error → Result A
  panicked : Panic → Result A
  out_of_fuel : Result A

-- `result?` on a foreign result, with the `From` conversions.
pub data Foreign {ℓ} (E : Type 0) (A : Type ℓ) : Type ℓ where
  success : A → Foreign E A
  failure : E → Foreign E A

-- How a call of elf_loader fails: with its error, or with a panic of the callback that it runs.
pub data CallFault : Type 0 where
  refused : LoaderError → CallFault
  unwound : Panic → CallFault

abbrev pub from_io {ℓ} : {A : Type ℓ} → Foreign IoError A → Result A
from_io (success a) = ok a
from_io (failure e) = err (io_error e)

abbrev pub from_loader {ℓ} : {A : Type ℓ} → Foreign LoaderError A → Result A
from_loader (success a) = ok a
from_loader (failure e) = err (loader_error e)

abbrev pub from_call {ℓ} : {A : Type ℓ} → Foreign CallFault A → Result A
from_call (success a) = ok a
from_call (failure (refused e)) = err (loader_error e)
from_call (failure (unwound q)) = panicked q

-- `option.unwrap()` and `option.ok_or(e)`
abbrev pub unwrap {ℓ} : {A : Type ℓ} → Option A → Result A
unwrap none = panicked unwrap_none
unwrap (some a) = ok a

abbrev pub ok_or {ℓ} : {A : Type ℓ} → Error → Option A → Result A
ok_or e none = err e
ok_or e (some a) = ok a

-- `slice[i]`
abbrev pub index {ℓ} : {A : Type ℓ} → Option A → Result A
index none = panicked index_out_of_bounds
index (some a) = ok a

infixl 5 ◌>>=◌
abbrev pub ◌>>=◌ {ℓ κ} : {A : Type ℓ} {B : Type κ} → Result A → (A → Result B) → Result B
ok a >>= f = f a
err e >>= f = err e
panicked p >>= f = panicked p
out_of_fuel >>= f = out_of_fuel

module _ {ℓ} {E : Type 0} {A : Type ℓ} where
  pub Foreign-cases : (r : Foreign E A) → ((a : A) × (r ≡ success a)) ⊎ ((e : E) × (r ≡ failure e))
  Foreign-cases (success a) = inl (a, refl)
  Foreign-cases (failure e) = inr (e, refl)

module _ {ℓ} {A : Type ℓ} where
  pub Called-cases :
      (r : Foreign CallFault A)
      → ((a : A) × (r ≡ success a))
        ⊎ (((e : LoaderError) × (r ≡ failure (refused e)))
            ⊎ ((q : Panic) × (r ≡ failure (unwound q))))
  Called-cases (success a) = inl (a, refl)
  Called-cases (failure (refused e)) = inr (inl (e, refl))
  Called-cases (failure (unwound q)) = inr (inr (q, refl))
