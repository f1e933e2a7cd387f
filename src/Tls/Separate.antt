-- ===== src/Tls/Separate.antt =====
-- No two threads and no two libraries share a block.
use dlopen_rs.Tls.Keys.{DistinctKeys, IsNewKey, new_tls-keys, drop_tls-keys}
use dlopen_rs.Base.{
  if◌then◌else◌, ltb, Option-cases, subst, arith, ap, ◌&&◌, [], ◌⊎◌, ◌==◌, ◌≤◌, ◌∙◌, ◌∷◌, inr, ◌≡◌,
  inl, List, sym, Bool-cases, ◌+◌, ◌≢◌, ℕ,
}
use dlopen_rs.Tls.{
  tls_get_addr, max_tls_index, Phdr, TlsIndex, new_tls, first_use, drop_tls, fill, Host, Memory,
  TlsInner, set_specific, Layout,
}

abbrev pub IsIn : ℕ × Layout → List (ℕ × Layout) → Type 0
IsIn b [] = ⊥
IsIn b (c ∷ blocks) = (b ≡ c) ⊎ IsIn b blocks

-- one ends before the other starts
abbrev pub Apart : ℕ × Layout → ℕ × Layout → Type 0
Apart b c = (b.0 + b.1.size ≤ c.0) ⊎ (c.0 + c.1.size ≤ b.0)

-- A value under a key is in a live block, and of one thread and one key; the modules of libraries
-- have different keys; and the blocks do not overlap.
pub record IsSeparate (m : Memory) : Type 0 where
  pub live :
      (thread key : ℕ)
      → m.specific thread key ≢ 0
      → (layout : Layout) × IsIn (m.specific thread key, layout) m.blocks
  pub distinct :
      (thread key thread' key' : ℕ)
      → m.specific thread key ≢ 0
      → m.specific thread key ≡ m.specific thread' key'
      → (thread ≡ thread') × (key ≡ key')
  pub keys : DistinctKeys m
  pub apart : (b c : ℕ × Layout) → IsIn b m.blocks → IsIn c m.blocks → (b.0 ≡ c.0) ⊎ Apart b c

-- The allocator gives no memory that is in use.
abbrev pub IsFresh : Host → Type 0
IsFresh host =
    (m : Memory) (layout : Layout) (b : ℕ × Layout)
    → host.alloc_zeroed m layout ≢ 0
    → IsIn b m.blocks
    → (b.0 ≢ host.alloc_zeroed m layout) × Apart b (host.alloc_zeroed m layout, layout)

Apart-swap : (b c : ℕ × Layout) → Apart b c → Apart c b
Apart-swap b c (inl h) = inr h
Apart-swap b c (inr h) = inl h

module _ (host : Host) (fresh : IsFresh host) where
  fill-Apart :
      (tls : TlsInner) (m : Memory)
      → IsSeparate m
      → host.alloc_zeroed m tls.layout ≢ 0
      → (b c : ℕ × Layout) → IsIn b ((host.alloc_zeroed m tls.layout, tls.layout) ∷ m.blocks)
      → IsIn c ((host.alloc_zeroed m tls.layout, tls.layout) ∷ m.blocks)
      → (b.0 ≡ c.0) ⊎ Apart b c
  fill-Apart tls m s there b c (inl e) (inl e') = inl (ap (λ x. x.0) (e ∙ sym e'))
  fill-Apart tls m s there b c (inl e) (inr i) =
      let a =
        Apart-swap c (host.alloc_zeroed m tls.layout, tls.layout)
          (fresh m tls.layout c there i).1 in
      inr (subst (λ x. Apart x c) (sym e) a)
  fill-Apart tls m s there b c (inr i) (inl e') =
      inr (subst (λ x. Apart b x) (sym e') (fresh m tls.layout b there i).1)
  fill-Apart tls m s there b c (inr i) (inr i') = s.apart b c i i'

  fill-IsSeparate :
      (tls : TlsInner) (m : Memory)
      → IsSeparate m
      → host.alloc_zeroed m tls.layout ≢ 0
      → IsSeparate (fill host tls (host.alloc_zeroed m tls.layout) m)
  unfolding fill
  fill-IsSeparate tls m s there = record {
    live = λ t k used. let (layout, i) = s.live t k used in (layout, inr i);
    distinct = s.distinct;
    keys = s.keys;
    apart = fill-Apart tls m s there;
  }

  -- a value in use is not that of a new block
  old-value :
      (m : Memory) (layout : Layout) (thread key : ℕ)
      → IsSeparate m
      → host.alloc_zeroed m layout ≢ 0
      → m.specific thread key ≢ host.alloc_zeroed m layout
  old-value m layout thread key s there same =
      let (l, i) = s.live thread key (λ z. there (sym same ∙ z)) in
      (fresh m layout (m.specific thread key, l) there i).0 same

  set_specific-IsSeparate :
      (tls : TlsInner) (m : Memory) (thread : ℕ)
      → IsSeparate m
      → host.alloc_zeroed m tls.layout ≢ 0
      → IsSeparate (
          set_specific thread tls.key
            (host.alloc_zeroed m tls.layout)
            (fill host tls (host.alloc_zeroed m tls.layout) m))
  unfolding fill
  set_specific-IsSeparate tls m thread s there = record {
    live = λ t k used. elim (Bool-cases (t == thread && k == tls.key)) [
      | inl mine ↦ (tls.layout, inl (rw mine))
      | inr other ↦
          let (layout, i) = s.live t k (rw other at used) in
          let kept : m.specific t k
              ≡ (set_specific thread tls.key (host.alloc_zeroed m tls.layout) m).specific t k =
            rw other in
          (layout, inr (subst (λ v. IsIn (v, layout) m.blocks) kept i))
    ];
    distinct = λ t k t' k' used same. elim (Bool-cases (t == thread && k == tls.key)) [
      | inl mine ↦ elim (Bool-cases (t' == thread && k' == tls.key)) [
        | inl mine' ↦ (ground (arith, mine, mine'), ground (arith, mine, mine'))
        | inr other' ↦
            absurd (old-value m tls.layout t' k' s there (sym (rw (mine, other') at same)))
      ]
      | inr other ↦ elim (Bool-cases (t' == thread && k' == tls.key)) [
        | inl mine' ↦ absurd (old-value m tls.layout t k s there (rw (other, mine') at same))
        | inr other' ↦ s.distinct t k t' k' (rw other at used) (rw (other, other') at same)
      ]
    ];
    keys = s.keys;
    apart = fill-Apart tls m s there;
  }

  first_use-IsSeparate :
      (thread : ℕ) (index : TlsIndex) (tls : TlsInner) (m : Memory)
      → IsSeparate m
      → IsSeparate (first_use host thread index tls m).1
  unfolding first_use
  first_use-IsSeparate thread index tls m s =
      elim (Bool-cases (host.alloc_zeroed m tls.layout == 0)) [
        | inl null ↦ rw null s
        | inr found ↦
            let there : host.alloc_zeroed m tls.layout ≢ 0 = ground (arith, found) in
            elim (Bool-cases (
              host.setspecific_fails (fill host tls (host.alloc_zeroed m tls.layout) m) thread
                tls.key)) [
                  | inl fails ↦ rw (found, fails) (fill-IsSeparate tls m s there)
                  | inr stored ↦ rw (found, stored) (set_specific-IsSeparate tls m thread s there)
                ]
      ]

  tls_get_addr-IsSeparate_use :
      (thread : ℕ) (index : TlsIndex) (m : Memory)
      → IsSeparate m
      → IsSeparate (tls_get_addr host thread index m).1
  unfolding tls_get_addr
  tls_get_addr-IsSeparate_use thread index m s =
      elim (Bool-cases (ltb max_tls_index index.ti_module)) [
        | inr small ↦ rw small s
        | inl large ↦ elim (Option-cases (m.inners index.ti_module)) [
          | inl n ↦ rw (large, n) s
          | inr (tls, held) ↦ elim (Bool-cases (m.specific thread tls.key == 0)) [
            | inl none_yet ↦ rw (large, held, none_yet) (first_use-IsSeparate thread index tls m s)
            | inr known ↦ rw (large, held, known) s
          ]
        ]
      ]

  new_tls-IsSeparate :
      (phdr : Phdr) (base : ℕ) (m : Memory)
      → IsSeparate m
      → IsNewKey host m
      → IsSeparate (new_tls host phdr base m).1
  unfolding new_tls
  new_tls-IsSeparate phdr base m s new = elim (Option-cases (host.pthread_key_create m)) [
    | inl e ↦ rw (e, new_tls) s
    | inr (key, e) ↦ elim (Bool-cases (ltb max_tls_index (host.box_new m))) [
      | inl large ↦
          rw (e, new_tls, large)
            (record {
              live = s.live;
              distinct = s.distinct;
              keys = new_tls-keys host phdr base key (host.box_new m) m s.keys new e;
              apart = s.apart;
            })
      | inr small ↦ rw (e, new_tls, small) s
    ]
  ]

  drop_tls-IsSeparate : (self : ℕ) (m : Memory) → IsSeparate m → IsSeparate (drop_tls host self m).1
  unfolding drop_tls
  drop_tls-IsSeparate self m s = elim (Option-cases (m.inners self)) [
    | inl e ↦ rw (e, drop_tls) s
    | inr (inner, e) ↦
        rw (e, drop_tls)
          (record {
            live = λ t k used. elim (Bool-cases (k == inner.key)) [
              | inl gone ↦ absurd (used (rw gone))
              | inr kept ↦
                  let (layout, i) = s.live t k (rw kept at used) in
                  let same : m.specific t k ≡ (if k == inner.key then 0 else m.specific t k) =
                    rw kept in
                  (layout, subst (λ v. IsIn (v, layout) m.blocks) same i)
            ];
            distinct = λ t k t' k' used same. elim (Bool-cases (k == inner.key)) [
              | inl gone ↦ absurd (used (rw gone))
              | inr kept ↦ elim (Bool-cases (k' == inner.key)) [
                | inl gone' ↦ absurd (used (rw kept (rw (kept, gone') at same)))
                | inr kept' ↦ s.distinct t k t' k' (rw kept at used) (rw (kept, kept') at same)
              ]
            ];
            keys = drop_tls-keys self m s.keys;
            apart = s.apart;
          })
  ]

  -- The uses of variables, new libraries, and libraries that go keep this: a thread's value under
  -- the key of a library is in a live block that no other thread and no other library has, live
  -- libraries have different keys, and the blocks do not overlap. (The allocator gives no memory
  -- that is in use, and libc no key that a library has.)
  pub tls_get_addr-IsSeparate :
      (thread self base : ℕ) (index : TlsIndex) (phdr : Phdr) (m : Memory)
      → IsSeparate m
      → IsNewKey host m
      → IsSeparate (tls_get_addr host thread index m).1
        × IsSeparate (new_tls host phdr base m).1
        × IsSeparate (drop_tls host self m).1
  tls_get_addr-IsSeparate thread self base index phdr m s new = (
    tls_get_addr-IsSeparate_use thread index m s,
    new_tls-IsSeparate phdr base m s new,
    drop_tls-IsSeparate self m s,
  )
