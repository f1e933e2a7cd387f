-- ===== src/Tests/Hooking.antt =====
-- A library with a TLS segment: its program header and its relocations.
use dlopen_rs.DebugList.{debug_set}
use dlopen_rs.Tls.{TlsIndex, offset_of, tls_get_addr}
use dlopen_rs.Base.{inl, ◌≡◌, refl, true, [], ◌∷◌, some, none, ◌==◌, if◌then◌else◌, arith}
use dlopen_rs.Error.{ok}
use dlopen_rs.Tls.{inner_of, new_tls}
use dlopen_rs.Builtin.Tables.{builtin_unwinding-builtin}
use dlopen_rs.Builtin.{builtin, builtin_unwinding}
use dlopen_rs.Base.Text.{codes, text_eq, starts_with}
use dlopen_rs.Hooks.{
  Abi, dummy, Parts, Segments, parse_phdr, deal_unknown, TlsLibrary, ElfRela, elf_tls,
}
use dlopen_rs.Hooks.Bound.{deal_unknown-IsBound, IsBound}
use dlopen_rs.Hooks.Modules.{deal_unknown-parse_phdr, parsed_tls, relocated_index, HoldsImage}
use dlopen_rs.Tests.Threads.{tls_phdr, sample_host, loaded}

abbrev sample_abi : Abi
sample_abi = record {
  pt_gnu_eh_frame = 0x6474_e550;
  pt_dynamic = 2;
  pt_tls = 7;
  rel_dtpmod = 16;
  stb_local = 0;
}

abbrev parts : Parts sample_abi dummy sample_host (λ d. 5000)
parts = record {
  user_data = λ i. none;
  frames = tt;
  debug = record { heap = λ q. none; lock = debug_set; map = 0; state = 0; tail = 0; breaks = [] };
  tls = loaded;
}

abbrev segments : Segments
segments = record { base = 4096; len = 16384 }

abbrev library : TlsLibrary
library = record {
  base = 4096;
  user_data = λ i. if i == 2 then some (elf_tls 20480) else none;
  symbol_idx = λ i. record { st_info = 16; name = i };
  lookup_filter = λ info. info.name == 3;
}

abbrev no_symbol : ElfRela
no_symbol = record { r_type = 16; r_symbol = 0; r_offset = 512 }

abbrev named : ElfRela
named = record { r_type = 16; r_symbol = 3; r_offset = 512 }

-- the state after `parse_phdr`, and the index with the relocated word
abbrev tls_memory : dlopen_rs.Tls.Memory
tls_memory =
    parsed_tls sample_abi dummy sample_host (λ d. 5000) 9 2 tls_phdr segments parts no_symbol
      library [] (λ x. 0)

abbrev tls_index : TlsIndex
tls_index =
    relocated_index sample_abi dummy sample_host (λ d. 5000) 9 2 tls_phdr segments parts no_symbol
      library [] (λ x. 0) 2

deal_unknown-parse_phdr_example :
    ((parse_phdr sample_abi dummy sample_host (λ d. 5000) 9 tls_phdr segments parts).0 ≡ ok tt)
    × ((deal_unknown sample_abi no_symbol library [] (λ x. 0)).0 ≡ ok true)
    × ((tls_get_addr sample_host 7 tls_index tls_memory).0 ≡ ok 16410)
    × HoldsImage tls_phdr 4096 16392 loaded.bytes
        (tls_get_addr sample_host 7 tls_index tls_memory).1.bytes
unfolding parse_phdr new_tls inner_of offset_of
deal_unknown-parse_phdr_example =
    deal_unknown-parse_phdr sample_abi dummy sample_host (λ d. 5000) 9 2 tls_phdr segments parts
      no_symbol library [] (λ x. 0) 7 2 refl (λ e. omega arith) (λ e. omega arith) refl
      (omega arith) refl refl refl (omega arith, omega arith) refl (λ e. omega arith)
      (inl (omega arith)) refl

deal_unknown-IsBound_example :
    IsBound sample_abi named library
      (library ∷ [])
      (λ x. 0)
      (deal_unknown sample_abi named library (library ∷ []) (λ x. 0))
deal_unknown-IsBound_example = deal_unknown-IsBound sample_abi named library (library ∷ []) (λ x. 0)

builtin_unwinding-builtin_example :
    builtin_unwinding (λ f. 64) (codes "__tls_get_addr")
    ≡ builtin (λ f. 64) (codes "__tls_get_addr")
unfolding text_eq starts_with
builtin_unwinding-builtin_example =
    builtin_unwinding-builtin (λ f. 64) (codes "__tls_get_addr") refl refl
