-- ===== src/EhFrame/Libunwind/Section.antt =====
-- The frame table as bytes: what the walk over it relies on.
use native.Mathlib.Nat.{pow-succ'}
use dlopen_rs.Base.{
  length-append, refl, ap, subst, ℕ, zero, suc, ◌+◌, ◌*◌, ◌/◌, ◌%◌, ◌^◌, ◌<◌, ◌≡◌, List, [], ◌∷◌,
  ◌++◌, some, Bool, true, false, length, arith,
}
use dlopen_rs.EhFrame.{Memory, read_bytes}

-- the bytes of a number, the lowest first
abbrev pub le_bytes : ℕ → ℕ → List ℕ
le_bytes zero v = []
le_bytes (suc n) v = v % 256 ∷ le_bytes n (v / 256)

-- An entry: whether its length has 64 bits, and its bytes behind the length.
pub record Entry : Type 0 where
  pub wide : Bool
  pub body : List ℕ

abbrev pub encode_len : Bool → ℕ → List ℕ
encode_len true n = le_bytes 4 0xffff_ffff ++ le_bytes 8 n
encode_len false n = le_bytes 4 n

abbrev pub encode_entry : Entry → List ℕ
encode_entry e = encode_len e.wide (length e.body) ++ e.body

abbrev pub encode_entries : List Entry → List ℕ
encode_entries [] = le_bytes 4 0
encode_entries (e ∷ es) = encode_entry e ++ encode_entries es

-- `.eh_frame`: the first entry, a common one, the entries behind it, and the end mark
abbrev pub encode_section : Entry → List Entry → List ℕ
encode_section cie fdes = encode_entry cie ++ encode_entries fdes

abbrev pub size_len : Bool → ℕ
size_len true = 12
size_len false = 4

abbrev pub size : Entry → ℕ
size e = size_len e.wide + length e.body

-- where the entries start
abbrev pub starts : ℕ → List Entry → List ℕ
starts addr [] = []
starts addr (e ∷ es) = addr ∷ starts (addr + size e) es

-- what the length can be; 0xffffffff says that 64 bits follow
abbrev pub limit : Bool → ℕ
limit true = 2 ^ 64
limit false = 0xffff_ffff

abbrev pub IsEntry : Entry → Type 0
IsEntry e = (0 < length e.body) × (length e.body < limit e.wide)

abbrev pub AllEntries : List Entry → Type 0
AllEntries [] = Unit {0}
AllEntries (e ∷ es) = IsEntry e × AllEntries es

-- The memory has these bytes at this address.
abbrev pub Holds : Memory → ℕ → List ℕ → Type 0
Holds mem addr [] = Unit {0}
Holds mem addr (b ∷ bs) = (mem addr ≡ some b) × Holds mem (addr + 1) bs

pub Holds-append :
    (mem : Memory) (addr : ℕ) (xs ys : List ℕ)
    → Holds mem addr (xs ++ ys)
    → Holds mem addr xs × Holds mem (addr + length xs) ys
Holds-append mem addr [] ys h =
    let here : addr ≡ addr + 0 = omega arith in (tt, subst (λ a. Holds mem a ys) here h)
Holds-append mem addr (x ∷ xs) ys h =
    let (front, back) = Holds-append mem (addr + 1) xs ys h.1 in
    let there : addr + 1 + length xs ≡ addr + length (x ∷ xs) = omega arith in
    ((h.0, front), subst (λ a. Holds mem a ys) there back)

pub read_bytes-le_bytes :
    (n : ℕ) (mem : Memory) (addr v : ℕ)
    → v < 256 ^ n
    → Holds mem addr (le_bytes n v)
    → read_bytes n mem addr ≡ some v
unfolding read_bytes
read_bytes-le_bytes zero mem addr v small h = ap some (omega arith)
read_bytes-le_bytes (suc n) mem addr v small h =
    let power : 256 ^ suc n ≡ 256 * 256 ^ n = pow-succ' 256 n in
    let ih : read_bytes n mem (addr + 1) ≡ some (v / 256) =
      read_bytes-le_bytes n mem (addr + 1) (v / 256) (omega arith) h.1 in
    rw (h.0, read_bytes, ih) (ap some (omega arith))

length-encode_len : (wide : Bool) (n : ℕ) → length (encode_len wide n) ≡ size_len wide
length-encode_len true n = refl
length-encode_len false n = refl

pub length-encode_entry : (e : Entry) → length (encode_entry e) ≡ size e
length-encode_entry e = omega (
  arith,
  length-append (encode_len e.wide (length e.body)) e.body,
  length-encode_len e.wide (length e.body),
)
