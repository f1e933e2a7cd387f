-- ===== src/CInterface/Exports.antt =====
-- cdylib/src/lib.rs: the constructor and the exports of the C library.
use dlopen_rs.Base.{ℕ, Option}
use dlopen_rs.Base.Text.{Text}
use dlopen_rs.Flags.{OpenFlags}
use dlopen_rs.Loader.{Platform}
use dlopen_rs.Register.{Manager}
use dlopen_rs.Register.World.{World}
use dlopen_rs.CInterface.{PhdrInfo, dlopen_c, dlsym, dlclose, dl_iterate_phdr}
use dlopen_rs.Error.{Result, panicked, todo}
use dlopen_rs.Step.{Step, and_then}
use dlopen_rs.Startup.{HostLoader, Program, init}

-- The constructor of the library; `logger` is what `env_logger::init` does, which panics if there is
-- a logger already.
unfoldable pub ctor_init : Result (Unit {0}) → HostLoader → ℕ → Step Program (Unit {0})
unfolding init
ctor_init logger host fuel s = and_then (logger, s) (λ _ s'. init host fuel s')

unfoldable pub exported_dlopen : Platform → ℕ → Option Text → OpenFlags → Step World ℕ
unfolding dlopen_c
exported_dlopen p fresh filename flags = dlopen_c p fresh filename flags

unfoldable pub exported_dlsym : ℕ → Text → World → Result ℕ
unfolding dlsym
exported_dlsym handle symbol_name = dlsym handle symbol_name

unfoldable pub exported_dlclose : ℕ → Step World ℕ
unfolding dlclose
exported_dlclose handle = dlclose handle

unfoldable pub exported_dl_iterate_phdr :
    {S : Type 0} → Option (PhdrInfo → S → ℕ × S) → (S → ℕ × S) → Manager → S → ℕ × S
unfolding dl_iterate_phdr
exported_dl_iterate_phdr callback old m start = dl_iterate_phdr callback old m start

unfoldable pub dladdr : ℕ → ℕ → Result (Unit {0})
dladdr addr info = panicked todo

unfoldable pub dlinfo : ℕ → ℕ → ℕ → Result (Unit {0})
dlinfo handle request info = panicked todo

-- the null pointer, whatever failed before
unfoldable pub dlerror : ℕ
dlerror = 0
