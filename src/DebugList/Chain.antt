-- ===== src/DebugList/Chain.antt =====
-- Doubly linked segments.
use dlopen_rs.Base.{
  ◌==◌, true, false, ℕ, ◌≡◌, ◌≢◌, refl, sym, List, [], ◌∷◌, ◌++◌, Option, some, arith,
}
use dlopen_rs.Error.{ok}
use dlopen_rs.DebugList.{LinkMap, Heap, CustomDebug, update, load, store, set_next, set_prev}

abbrev pub head_or : ℕ → List ℕ → ℕ
head_or d [] = d
head_or d (a ∷ xs) = a

abbrev pub last_or : ℕ → List ℕ → ℕ
last_or d [] = d
last_or d (a ∷ xs) = last_or a xs

abbrev pub Absent : ℕ → List ℕ → Type 0
Absent a [] = Unit {0}
Absent a (b ∷ ys) = (a ≢ b) × Absent a ys

abbrev pub Distinct : List ℕ → Type 0
Distinct [] = Unit {0}
Distinct (a ∷ xs) = Absent a xs × Distinct xs

-- The node at `a` has these neighbours.
pub record Node (h : Heap) (prev a next : ℕ) : Type 0 where
  pub node : LinkMap
  pub holds : h a ≡ some node
  pub back : node.l_prev ≡ prev
  pub forth : node.l_next ≡ next
  pub ne_null : a ≢ 0

-- From `prev` the nodes `xs` follow one another, and `stop` follows them.
abbrev pub Linked : Heap → ℕ → List ℕ → ℕ → Type 0
Linked h prev [] stop = Unit {0}
Linked h prev (a ∷ xs) stop = Node h prev a (head_or stop xs) × Linked h a xs stop

pub Node-update :
    (h : Heap) (prev a next p : ℕ) (v : Option LinkMap)
    → a ≢ p
    → Node h prev a next
    → Node (update h p v) prev a next
Node-update h prev a next p v h1 n = record {
  node = n.node;
  holds = ground (arith, n.holds);
  back = n.back;
  forth = n.forth;
  ne_null = n.ne_null;
}

pub same-node :
    (h : Heap) (prev a next : ℕ) (n : LinkMap)
    → h a ≡ some n
    → Node h prev a next
    → (n.l_prev ≡ prev) × (n.l_next ≡ next)
same-node h prev a next n e nd =
    let same : nd.node ≡ n = cc (nd.holds) in (rw (← same) nd.back, rw (← same) nd.forth)

pub Absent-last : (a b : ℕ) (xs : List ℕ) → Absent a (b ∷ xs) → a ≢ last_or b xs
Absent-last a b [] out = out.0
Absent-last a b (c ∷ xs) out = Absent-last a c xs out.1

-- A write at an address that is not in the segment leaves the segment.
pub Linked-update :
    (h : Heap) (prev : ℕ) (xs : List ℕ) (stop p : ℕ) (v : Option LinkMap)
    → Absent p xs
    → Linked h prev xs stop
    → Linked (update h p v) prev xs stop
Linked-update h prev [] stop p v out l = tt
Linked-update h prev (a ∷ xs) stop p v out l = (
  Node-update h prev a (head_or stop xs) p v (λ e. out.0 (sym e)) l.0,
  Linked-update h a xs stop p v out.1 l.1,
)

pub Linked-append :
    (h : Heap) (prev : ℕ) (xs ys : List ℕ) (stop : ℕ)
    → Linked h prev xs (head_or stop ys)
    → Linked h (last_or prev xs) ys stop
    → Linked h prev (xs ++ ys) stop
Linked-append h prev [] ys stop l r = r
Linked-append h prev (a ∷ []) ys stop l r = (l.0, r)
Linked-append h prev (a ∷ b ∷ xs) ys stop l r = (l.0, Linked-append h a (b ∷ xs) ys stop l.1 r)

pub Linked-front :
    (h : Heap) (prev : ℕ) (xs ys : List ℕ) (stop : ℕ)
    → Linked h prev (xs ++ ys) stop
    → Linked h prev xs (head_or stop ys)
Linked-front h prev [] ys stop l = tt
Linked-front h prev (a ∷ []) ys stop l = (l.0, tt)
Linked-front h prev (a ∷ b ∷ xs) ys stop l = (l.0, Linked-front h a (b ∷ xs) ys stop l.1)

pub Linked-back :
    (h : Heap) (prev : ℕ) (xs ys : List ℕ) (stop : ℕ)
    → Linked h prev (xs ++ ys) stop
    → Linked h (last_or prev xs) ys stop
Linked-back h prev [] ys stop l = l
Linked-back h prev (a ∷ xs) ys stop l = Linked-back h a xs ys stop l.1

-- the node at the end of a segment that is not empty
pub Linked-last :
    (h : Heap) (prev a : ℕ) (xs : List ℕ) (stop : ℕ)
    → Linked h prev (a ∷ xs) stop
    → (before : ℕ) × Node h before (last_or a xs) stop
Linked-last h prev a [] stop l = (prev, l.0)
Linked-last h prev a (b ∷ xs) stop l = Linked-last h a b xs stop l.1

-- Another end for a segment: a write to its last node.
pub Linked-set_next :
    (h : Heap) (prev a : ℕ) (xs : List ℕ) (stop stop' : ℕ) (n : LinkMap)
    → Distinct (a ∷ xs)
    → h (last_or a xs) ≡ some n
    → Linked h prev (a ∷ xs) stop
    → Linked (update h (last_or a xs) (some (record n { l_next = stop' }))) prev (a ∷ xs) stop'
Linked-set_next h prev a [] stop stop' n d e l = (
  record {
    node = record n { l_next = stop' };
    holds = ground arith;
    back = (same-node h prev a stop n e l.0).0;
    forth = refl;
    ne_null = l.0.ne_null;
  },
  tt,
)
Linked-set_next h prev a (b ∷ xs) stop stop' n d e l = (
  Node-update h prev a b (last_or b xs) _ (Absent-last a b xs d.0) l.0,
  Linked-set_next h a b xs stop stop' n d.1 e l.1,
)

-- Another predecessor for a segment: a write to its first node.
pub Linked-set_prev :
    (h : Heap) (prev prev' a : ℕ) (xs : List ℕ) (stop : ℕ) (n : LinkMap)
    → Distinct (a ∷ xs)
    → h a ≡ some n
    → Linked h prev (a ∷ xs) stop
    → Linked (update h a (some (record n { l_prev = prev' }))) prev' (a ∷ xs) stop
Linked-set_prev h prev prev' a xs stop n d e l = (
  record {
    node = record n { l_prev = prev' };
    holds = ground arith;
    back = refl;
    forth = (same-node h prev a (head_or stop xs) n e l.0).1;
    ne_null = l.0.ne_null;
  },
  Linked-update h a xs stop a _ d.0 l.1,
)

-- The list that the debugger finds: its nodes in order.
pub record IsList (s : CustomDebug) (xs : List ℕ) : Type 0 where
  pub first : s.map ≡ head_or 0 xs
  pub last : s.tail ≡ last_or 0 xs
  pub linked : Linked s.heap 0 xs 0
  pub distinct : Distinct xs

module _ (s : CustomDebug) (p : ℕ) (n : LinkMap) (e : s.heap p ≡ some n) where
  pub load-ok : load p s ≡ (ok n, s)
  unfolding load
  load-ok = rw (e, load)

  pub set_next-ok : (v : ℕ) → set_next p v s ≡ (ok tt, store p (some (record n { l_next = v })) s)
  unfolding set_next
  set_next-ok v = rw load-ok

  pub set_prev-ok : (v : ℕ) → set_prev p v s ≡ (ok tt, store p (some (record n { l_prev = v })) s)
  unfolding set_prev
  set_prev-ok v = rw load-ok

pub test-ne : (a b : ℕ) → a ≢ b → (a == b) ≡ false
test-ne a b h = ground arith

pub test_self : (a : ℕ) → (a == a) ≡ true
test_self a = ground arith
