-- ===== src/Tls/Keys.antt =====
-- The keys of libraries in src/loader/tls.rs.
use dlopen_rs.Base.{ℕ, ◌≡◌, ◌≢◌, ◌==◌, ◌∙◌, sym, ap, some, none, inl, inr, Bool-cases, arith}
use dlopen_rs.Loader.{Phdr}
use dlopen_rs.Tls.{Host, Memory, TlsInner, inner_of, set_inner}

-- The modules of libraries have different keys.
abbrev pub DistinctKeys : Memory → Type 0
DistinctKeys m =
    (lib lib' : ℕ) (x y : TlsInner)
    → m.inners lib ≡ some x
    → m.inners lib' ≡ some y
    → x.key ≡ y.key
    → lib ≡ lib'

-- libc gives no key that a library has.
abbrev pub IsNewKey : Host → Memory → Type 0
IsNewKey host m =
    (key lib : ℕ) (x : TlsInner)
    → host.pthread_key_create m ≡ some key
    → m.inners lib ≡ some x
    → x.key ≢ key

pub new_tls-keys :
    (host : Host) (phdr : Phdr) (base key addr : ℕ) (m : Memory)
    → DistinctKeys m
    → IsNewKey host m
    → host.pthread_key_create m ≡ some key
    → DistinctKeys (set_inner addr (some (inner_of phdr base key)) m)
unfolding inner_of
new_tls-keys host phdr base key addr m s new made lib lib' x y at_x at_y same =
    elim (Bool-cases (lib == addr)) [
      | inl mine ↦ elim (Bool-cases (lib' == addr)) [
        | inl mine' ↦ ground (arith, mine, mine')
        | inr other' ↦
            let here : inner_of phdr base key ≡ x = cc (rw mine at at_x) in
            let own : x.key ≡ key = ap (λ (i : TlsInner). i.key) (sym here) in
            absurd (new key lib' y made (rw other' at at_y) (sym same ∙ own))
      ]
      | inr other ↦ elim (Bool-cases (lib' == addr)) [
        | inl mine' ↦
            let here : inner_of phdr base key ≡ y = cc (rw mine' at at_y) in
            let own : y.key ≡ key = ap (λ (i : TlsInner). i.key) (sym here) in
            absurd (new key lib x made (rw other at at_x) (same ∙ own))
        | inr other' ↦ s lib lib' x y (rw other at at_x) (rw other' at at_y) same
      ]
    ]

pub drop_tls-keys : (self : ℕ) (m : Memory) → DistinctKeys m → DistinctKeys (set_inner self none m)
drop_tls-keys self m s lib lib' x y at_x at_y same = elim (Bool-cases (lib == self)) [
  | inl gone ↦ cc (rw gone at at_x)
  | inr kept ↦ elim (Bool-cases (lib' == self)) [
    | inl gone' ↦ cc (rw gone' at at_y)
    | inr kept' ↦ s lib lib' x y (rw kept at at_x) (rw kept' at at_y) same
  ]
]
