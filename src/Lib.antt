-- ===== src/Lib.antt =====
-- A model of dlopen-rs, a dynamic linker for ELF libraries: opening a library with all that it
-- needs, the tables of the loaded libraries, unloading, the list that debuggers read, start-up,
-- exception tables and thread-local variables.
--
-- The program. `ElfLibrary::dlopen` (src/dlopen.rs) loads a file, searches the libraries that it needs
-- breadth first, registers each new one in the manager (src/register.rs), relocates the new ones
-- depth first, and hands out a `Dylib` (src/loader/mod.rs) that shares the box of its
-- dependencies with the manager. `Drop for Dylib` (src/register.rs) compares a count of
-- references with a threshold and unregisters the library and its dependencies. src/debug.rs
-- keeps the list of link maps for a debugger, which `init` (src/init.rs) starts with the libraries
-- that the host has loaded. While a library is loaded, `parse_phdr` hands its frame table to the
-- unwinder (src/loader/ehframe) and makes a module for its thread-local variables
-- (src/loader/tls.rs), whose id `deal_unknown` writes where a relocation asks for it.
--
-- The files, each with the code that it models:
--   Base, Base/*         lists, options, texts as lists of code points, and `IndexMap` as an
--                        association list in the order of insertion
--   Error                src/lib.rs: `Error`; how a call ends (a value, an error, a panic, out of fuel)
--   Step                 state passing: a `Step S A` takes a state to a result and the state that the
--                        code leaves, also where it fails
--   Flags                src/lib.rs: `OpenFlags`, a word of 32 bits
--   Builtin              src/loader/builtin.rs: the tables of builtin symbols
--   Loader               src/loader/mod.rs: libraries, loading, symbol lookup; `Platform` is what
--                        the sources call and do not implement
--   Register             src/register.rs: the manager, `register`, `global_find`
--   Register/World       src/register.rs: `Drop for Dylib`. The count of references of a handle is
--                        computed from all its owners: the tables, the `Dylib` values and the boxes
--   Paths                src/dlopen.rs: `fixup_rpath`, `deal_path`, the search path
--   Dlopen/Walk          src/dlopen.rs: the variables of `dlopen_impl`
--   Dlopen/Search        src/dlopen.rs: the search, `find_library` and the closure handed to it
--   Dlopen/Resolve       src/dlopen.rs: the relocation by an explicit stack
--   Dlopen/Open          src/dlopen.rs: `Recycler`, `dlopen_impl`, `dlopen`, `dlopen_from_binary`
--   Dlopen/Open/Ready    what the relocation needs to be carried out; Prepared: what the search keeps,
--                        so that it is ready; Steady: what holds between two calls;
--                        Boxed: the box of dependencies that a call returns
--   Relocate             src/loader/mod.rs: `relocate`, `relocate_with`, `load_existing`
--   CInterface           src/dlopen.rs: `dlopen`, `dlsym`, `dlclose` and `dl_iterate_phdr` of `imp`;
--                        Exports: the constructor and exports of cdylib/src/lib.rs
--   DebugList            src/debug.rs, and `LinkMap` of src/init.rs, on an explicit heap
--   EhFrame, EhFrame/*   src/loader/ehframe: the frame tables. Libgcc and Libunwind call the unwinder, on
--                        a memory that is a partial function; Unwinding keeps a finder over a hash
--                        table, which is an interface with laws
--   Tls                  src/loader/tls.rs: the blocks of thread-local variables, on a memory of bytes
--                        with the values of each thread
--   Startup, Startup/*   src/init.rs: `init` and `from_link_map` over the link maps of the host
--   Hooks, Hooks/*       src/loader/mod.rs: `parse_phdr` and `deal_unknown`, which the crate elf_loader
--                        calls; the version of the exception tables is an interface
--   Tests                a small file system with libraries that need each other
--
-- Correspondence. Names are those of the source; a piece of `dlopen_impl` that is a definition of
-- its own says above it which piece it is. Shared handles (`CoreComponent`, `Arc`) carry the
-- address that they share. The build has the features `std`, `debug` and `tls`; the lookup of
-- symbols uses the table of a build without `unwinding`. The locks are not modelled, but
-- for the poisoning of `DEBUG`, and a step is a call; `tls_get_addr` takes the thread that calls it.
-- Log output is left out. Paths are valid UTF-8. `load_dylib` and `relocate` of elf_loader run the
-- callbacks `parse_phdr` and `deal_unknown`: a panic of theirs is one way in which the calls end.
--
-- Bounds. The search runs one round for each library in the queue. A new library takes one of the
-- 255 places of `new_libs`, and a registered one is queued at most once, when it is marked; the
-- search gets the number of the registered libraries and 257 as fuel. In the relocation each turn pops
-- an item or sets one `new_idx`, so twice the number of the registered libraries and 2 is
-- enough. Both are shown to be enough below.
--
-- The walk over a frame table runs until an entry of length 0, and the loop of `init` until a null
-- pointer; their fuel is more than the number of entries or of link maps.
--
-- Not modelled: the ELF reader, mapping and relocation (the crate elf_loader), and the reading of the
-- loader cache, which are fields of `Platform` where the code calls them. libc's keys, the allocator,
-- the hash table and the parser of gimli are parameters of the parts that use them.
-- When the destructor of a thread's block runs is up to libc. The examples, the benchmarks and
-- example-dylib are programs that use the library, and the accessors and `Debug` of
-- src/loader/mod.rs hand on what the crate elf_loader keeps: they are left out.
pub mod Base
pub mod Error
pub mod Step
pub mod Flags
pub mod Builtin
pub mod Loader
pub mod Register
pub mod Paths
pub mod Relocate
pub mod Dlopen
pub mod CInterface
pub mod DebugList
pub mod EhFrame
pub mod Tls
pub mod Startup
pub mod Hooks
pub mod Tests
