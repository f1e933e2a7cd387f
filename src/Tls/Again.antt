-- ===== src/Tls/Again.antt =====
-- A later use of a library's variables by the same thread.
use dlopen_rs.Error.{ok}
use dlopen_rs.Base.{
  false, ap, some, ◌∙◌, arith, true, ◌+◌, subst, ◌==◌, Option-cases, inl, inr, ltb, Bool-cases, ◌≢◌,
  ◌≡◌,
}
use dlopen_rs.Tls.{
  ℕ, tls_get_addr, first_use, fill, variable, Host, Memory, TlsInner, TlsIndex, max_tls_index,
  set_specific,
}

module _ (host : Host) (thread : ℕ) where
  unchanged :
      (index : TlsIndex) (m m' : Memory) (addr : ℕ)
      → tls_get_addr host thread index m ≡ (ok addr, m')
      → m ≡ m'
      → tls_get_addr host thread index m' ≡ (ok addr, m')
  unchanged index m m' addr e same =
      subst (λ w. tls_get_addr host thread index w ≡ (ok addr, m')) same e

  later :
      (index : TlsIndex) (tls : TlsInner) (m : Memory) (block : ℕ)
      → ltb max_tls_index index.ti_module ≡ true
      → m.inners index.ti_module ≡ some tls
      → m.specific thread tls.key ≡ block
      → (block == 0) ≡ false
      → tls_get_addr host thread index m ≡ (ok (variable host index (block + tls.offset)), m)
  unfolding tls_get_addr
  later index tls m block large held mine there = rw (large, held, mine, there)

  -- Once a thread has an address of a variable, `tls_get_addr` returns the same address again, and
  -- leaves everything as it is. (The allocation does not fail, and the address is not null.)
  pub tls_get_addr-tls_get_addr :
      (index : TlsIndex) (m m' : Memory) (addr : ℕ)
      → tls_get_addr host thread index m ≡ (ok addr, m')
      → addr ≢ 0
      → tls_get_addr host thread index m' ≡ (ok addr, m')
  unfolding tls_get_addr first_use fill
  tls_get_addr-tls_get_addr index m m' addr e some_addr =
      elim (Bool-cases (ltb max_tls_index index.ti_module)) [
        | inr small ↦ unchanged index m m' addr e (cc (rw small at e))
        | inl large ↦ elim (Option-cases (m.inners index.ti_module)) [
          | inl n ↦ absurd (cc (rw (large, n) at e))
          | inr (tls, held) ↦ elim (Bool-cases (m.specific thread tls.key == 0)) [
            | inr known ↦ unchanged index m m' addr e (cc (rw (large, held, known) at e))
            | inl none_yet ↦ elim (Bool-cases (host.alloc_zeroed m tls.layout == 0)) [
              | inl null ↦ absurd (cc (rw (large, held, none_yet, null) at e))
              | inr there ↦
                  elim (Bool-cases (
                    host.setspecific_fails (fill host tls (host.alloc_zeroed m tls.layout) m) thread
                      tls.key)) [
                        | inl fails ↦
                            absurd (some_addr (cc (rw (large, held, none_yet, there, fails) at e)))
                        | inr stored ↦
                            let block = host.alloc_zeroed m tls.layout in
                            let m1 : Memory =
                              set_specific thread tls.key block (fill host tls block m) in
                            let mine : m1.specific thread tls.key ≡ block = ground arith in
                            let e1 : tls_get_addr host thread index m
                                ≡ (ok (variable host index (block + tls.offset)), m1) =
                              rw (large, held, none_yet, there, stored) in
                            let same : m1 ≡ m' = cc (e, e1) in
                            let value : variable host index (block + tls.offset) ≡ addr =
                              cc (e, e1) in
                            subst (λ w. tls_get_addr host thread index w ≡ (ok addr, w)) same
                              (later index tls m1 block large held mine there
                                ∙ ap (λ x. (ok x, m1)) value)
                      ]
            ]
          ]
        ]
      ]
