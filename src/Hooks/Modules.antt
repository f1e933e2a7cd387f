-- ===== src/Hooks/Modules.antt =====
-- The module ids of thread-local variables: from the program header to the relocation.
use dlopen_rs.Tls.{
  tls_get_addr, fill, offset_of, TlsIndex, max_tls_index, inner_of, Host, new_tls, set_inner,
}
use dlopen_rs.Tls.Block.{tls_get_addr-IsFilled, Fits}
use dlopen_rs.Loader.{Phdr}
use dlopen_rs.Base.{
  ◌∙◌, ◌^◌, ◌%◌, ◌≤◌, ap, ltb, arith, ◌<◌, ◌≢◌, ◌==◌, ◌+◌, ℕ, ◌≡◌, ◌⊎◌, true, false, List, some,
}
use dlopen_rs.Error.{Result, ok}
use dlopen_rs.Hooks.{
  insert_datum, tls_id, elf_tls, UserData, Parts, Segments, CustomDebug, Unwinder, ElfRela, Abi,
  deal_dtpmod, add_tls, write_own, deal_unknown, parse_phdr, cast, TlsLibrary, write_word,
}

module _ (abi : Abi) (unwinder : Unwinder) (host : Host) (box_new : CustomDebug → ℕ) where
  -- the parts with the module of a library
  abbrev with_module :
      ℕ → Phdr → Segments → Parts abi unwinder host box_new → Parts abi unwinder host box_new
  with_module key phdr segments s = record s {
    tls = set_inner (host.box_new s.tls) (some (inner_of phdr segments.base key)) s.tls;
    user_data = insert_datum tls_id (elf_tls (host.box_new s.tls)) s.user_data;
  }

  parse_phdr-tls :
      (cname key : ℕ) (phdr : Phdr) (segments : Segments) (s : Parts abi unwinder host box_new)
      → phdr.p_type ≡ abi.pt_tls
      → abi.pt_tls ≢ abi.pt_gnu_eh_frame
      → abi.pt_tls ≢ abi.pt_dynamic
      → host.pthread_key_create s.tls ≡ some key
      → max_tls_index < host.box_new s.tls
      → parse_phdr abi unwinder host box_new cname phdr segments s
        ≡ (ok tt, with_module key phdr segments s)
  unfolding parse_phdr add_tls new_tls
  parse_phdr-tls cname key phdr segments s kind no_frame no_dynamic made large =
      let not_frame : (phdr.p_type == abi.pt_gnu_eh_frame) ≡ false =
        ground (arith, kind, no_frame) in
      let not_dynamic : (phdr.p_type == abi.pt_dynamic) ≡ false =
        ground (arith, kind, no_dynamic) in
      let is_tls : (phdr.p_type == abi.pt_tls) ≡ true = ground (arith, kind) in
      let big : ltb max_tls_index (host.box_new s.tls) ≡ true = ground (arith, large) in
      let entry : new_tls host phdr segments.base s.tls ≡ (
        ok (host.box_new s.tls),
        set_inner (host.box_new s.tls) (some (inner_of phdr segments.base key)) s.tls,
      ) =
        rw (made, new_tls, big) in
      rw (not_frame, not_dynamic, is_tls, entry)

-- The memory after the first use of a library's variables: the image of the segment stands in the
-- block behind the offset, and zeros behind the image.
pub record HoldsImage (phdr : Phdr) (base block : ℕ) (before after : ℕ → ℕ) : Type 0 where
  pub image :
      (i : ℕ)
      → i < phdr.p_filesz
      → after (block + offset_of phdr.p_align + i) ≡ before (base + phdr.p_vaddr + i)
  pub zeros :
      (i : ℕ)
      → phdr.p_filesz ≤ i
      → offset_of phdr.p_align + i < (offset_of phdr.p_align + phdr.p_memsz) % 2 ^ 64
      → after (block + offset_of phdr.p_align + i) ≡ 0

module _ (abi : Abi) (unwinder : Unwinder) (host : Host) (box_new : CustomDebug → ℕ) (cname key : ℕ)
    (phdr : Phdr) (segments : Segments) (s : Parts abi unwinder host box_new) (rela : ElfRela)
    (lib : TlsLibrary) (deps : List TlsLibrary) (words : ℕ → ℕ) where
  -- the memory after `parse_phdr`, and the index that the relocation leaves
  abbrev pub parsed_tls : dlopen_rs.Tls.Memory
  parsed_tls = (parse_phdr abi unwinder host box_new cname phdr segments s).1.tls

  abbrev pub relocated_index : ℕ → TlsIndex
  relocated_index offset = record {
    ti_module = (deal_unknown abi rela lib deps words).1 (lib.base + rela.r_offset);
    ti_offset = offset;
  }

  -- the block that the allocator gives
  abbrev pub new_block : ℕ
  new_block = host.alloc_zeroed parsed_tls (inner_of phdr segments.base key).layout

  -- A library with a TLS segment, from its program header to the first use of its variables by a
  -- thread: `parse_phdr` succeeds, a relocation that names no symbol succeeds, and `tls_get_addr`
  -- with the index that the relocation has written gives the address in a new block, where the
  -- image of the segment stands behind the offset, with zeros behind it. (A key can be created,
  -- and the box stands above MAX_TLS_INDEX; the three types of headers differ. The block has room
  -- for the layout and the image, the thread has no value yet, there is memory, apart from the
  -- image, and the value can be stored.)
  pub deal_unknown-parse_phdr :
      (thread offset : ℕ)
      → phdr.p_type ≡ abi.pt_tls
      → abi.pt_tls ≢ abi.pt_gnu_eh_frame
      → abi.pt_tls ≢ abi.pt_dynamic
      → host.pthread_key_create s.tls ≡ some key
      → max_tls_index < host.box_new s.tls
      → lib.user_data ≡ (parse_phdr abi unwinder host box_new cname phdr segments s).1.user_data
      → rela.r_type ≡ abi.rel_dtpmod
      → rela.r_symbol ≡ 0
      → Fits host (inner_of phdr segments.base key)
      → s.tls.specific thread key ≡ 0
      → new_block ≢ 0
      → ((inner_of phdr segments.base key).image + phdr.p_filesz ≤ new_block)
        ⊎ (new_block + (inner_of phdr segments.base key).layout.size
            ≤ (inner_of phdr segments.base key).image)
      → host.setspecific_fails
          (fill host (inner_of phdr segments.base key) new_block parsed_tls)
          thread
          key
        ≡ false
      → ((parse_phdr abi unwinder host box_new cname phdr segments s).0 ≡ ok tt)
        × ((deal_unknown abi rela lib deps words).0 ≡ ok true)
        × ((tls_get_addr host thread (relocated_index offset) parsed_tls).0
            ≡ ok (new_block + offset_of phdr.p_align + (offset + host.tls_dtv_offset) % 2 ^ 64))
        × HoldsImage phdr segments.base new_block s.tls.bytes
            (tls_get_addr host thread (relocated_index offset) parsed_tls).1.bytes
  unfolding deal_unknown deal_dtpmod write_own cast inner_of
  deal_unknown-parse_phdr thread offset kind no_frame no_dynamic made large same dtpmod own fits
        none_yet there away stored =
      let parsed =
        parse_phdr-tls abi unwinder host box_new cname key phdr segments s kind no_frame no_dynamic
          made large in
      let tls = inner_of phdr segments.base key in
      let box = host.box_new s.tls in
      let is_dtpmod : (rela.r_type == abi.rel_dtpmod) ≡ true = ground (arith, dtpmod) in
      let no_symbol : (rela.r_symbol == 0) ≡ true = ground (arith, own) in
      let datum : lib.user_data tls_id ≡ some (elf_tls box) =
        ap (λ (d : UserData). d tls_id) (rw parsed at same) in
      let id : cast lib ≡ ok box = rw (cast, datum) in
      let bound : deal_unknown abi rela lib deps words
          ≡ (ok true, write_word (lib.base + rela.r_offset) box words) =
        rw (is_dtpmod, no_symbol, write_own, id) in
      let index : (relocated_index offset).ti_module ≡ box = rw bound (ground arith) in
      let memory : parsed_tls ≡ set_inner box (some tls) s.tls =
        ap (λ (r : Result (Unit {0}) × Parts abi unwinder host box_new). r.1.tls) parsed in
      let held : parsed_tls.inners (relocated_index offset).ti_module ≡ some tls =
        rw (index, memory) (ground arith) in
      let empty_yet : parsed_tls.specific thread key ≡ 0 = rw memory none_yet in
      let (answer, kept, filled) =
        tls_get_addr-IsFilled host tls thread (relocated_index offset) parsed_tls
          (omega (arith, index, large)) held fits empty_yet there away stored in
      let bytes : parsed_tls.bytes ≡ s.tls.bytes = rw memory in
      (
        rw parsed,
        rw bound,
        answer,
        record {
          image = λ i inside. filled.image i inside ∙ ap (λ (b : ℕ → ℕ). b (tls.image + i)) bytes;
          zeros = filled.zeros;
        },
      )
