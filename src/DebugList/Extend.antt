-- ===== src/DebugList/Extend.antt =====
-- What `DebugInfo::new` leaves in the heap as it was.
use dlopen_rs.Base.{
  ◌∙◌, ap, [], ◌∷◌, inr, sym, subst, inl, ◌==◌, ◌∷◌, Bool-cases, refl, none, ◌≢◌, arith, true, some,
  ◌≡◌,
}
use dlopen_rs.DebugList.{
  new_locked, debug_set, attach, store, announce, ok, List, ℕ, LinkMap, Heap, CustomDebug, new,
  link_map,
}
use dlopen_rs.DebugList.Chain.{Node, IsList, Linked-last, Absent-last, test-ne}
use dlopen_rs.DebugList.Add.{new-eq, Absent-fresh}

pub record IsLike (node like : LinkMap) : Type 0 where
  pub addr : node.l_addr ≡ like.l_addr
  pub name : node.l_name ≡ like.l_name
  pub ld : node.l_ld ≡ like.l_ld

-- At `a` the heap has a node with what `like` says of a library.
abbrev pub Shows : Heap → ℕ → LinkMap → Type 0
Shows h a like = (node : LinkMap) × (h a ≡ some node) × IsLike node like

pub record IsExtended (s : CustomDebug) (fresh : ℕ) (like : LinkMap) (s' : CustomDebug)
    : Type 0 where
  pub ready : s'.lock ≡ debug_set
  pub tail : s'.tail ≡ fresh
  pub frame : (q : ℕ) → q ≢ fresh → q ≢ s.tail → s'.heap q ≡ s.heap q
  pub shown : Shows s'.heap fresh like
  pub kept : (q : ℕ) (l : LinkMap) → q ≢ fresh → Shows s.heap q l → Shows s'.heap q l

module _ (s : CustomDebug) (fresh : ℕ) (like : LinkMap) where
  abbrev after : CustomDebug
  after = (new fresh like.l_addr like.l_name like.l_ld s).1

  abbrev node : LinkMap
  node = link_map like.l_addr like.l_name like.l_ld s.tail

  abbrev started : CustomDebug
  started = announce fresh (record (store fresh (some node) s) { map = fresh })

  new-eq_nil :
      s.lock ≡ debug_set
      → s.tail ≡ 0
      → new fresh like.l_addr like.l_name like.l_ld s ≡ (ok fresh, started)
  unfolding new new_locked
  new-eq_nil ready t =
      let stored = store fresh (some node) s in
      let none_yet : (s.tail == 0) ≡ true = ground (arith, t) in
      ap (λ b. new_locked b fresh node s) ready ∙ ap (λ b. attach b fresh stored) none_yet

  new-IsExtended_nil : s.lock ≡ debug_set → s.tail ≡ 0 → IsExtended s fresh like after
  new-IsExtended_nil ready t =
      rw (after, new-eq_nil ready t)
        (record {
          ready = ready;
          tail = refl;
          frame = λ q h1 h2. ground arith;
          shown = (node, ground arith, record { addr = refl; name = refl; ld = refl });
          kept = λ q l h1 (n, e, same). (n, rw (test-ne fresh q (λ x. h1 (sym x))) e, same);
        })

  new-IsExtended_cons :
      (n : LinkMap)
      → s.lock ≡ debug_set
      → s.tail ≢ 0
      → fresh ≢ s.tail
      → s.heap s.tail ≡ some n
      → IsExtended s fresh like after
  new-IsExtended_cons n ready ne other e =
      rw (after, new-eq s fresh like.l_addr like.l_name like.l_ld n ready ne other e)
        (record {
          ready = ready;
          tail = refl;
          frame =
              λ q h1 h2. rw (test-ne s.tail q (λ x. h2 (sym x)), test-ne fresh q (λ x. h1 (sym x)));
          shown = (
            node,
            rw (test-ne s.tail fresh (λ x. other (sym x))) (ground arith),
            record { addr = refl; name = refl; ld = refl },
          );
          kept = λ q l h1 (m, at, same). elim (Bool-cases (s.tail == q)) [
            | inl last ↦
                let at_tail : s.tail ≡ q = ground (arith, last) in
                let one : m ≡ n = cc (at, e, at_tail) in
                let one_like = subst (λ x. IsLike x l) one same in
                (
                  record n { l_next = fresh },
                  rw last,
                  record { addr = one_like.addr; name = one_like.name; ld = one_like.ld },
                )
            | inr before ↦ (m, rw (before, test-ne fresh q (λ x. h1 (sym x))) at, same)
          ];
        })

  pub new-IsExtended :
      (xs : List ℕ)
      → s.lock ≡ debug_set
      → IsList s xs
      → fresh ≢ 0
      → s.heap fresh ≡ none
      → IsExtended s fresh like after
  new-IsExtended [] ready l ne unused = new-IsExtended_nil ready l.last
  new-IsExtended (x ∷ xs) ready l ne unused =
      let out = Absent-fresh s.heap 0 fresh (x ∷ xs) 0 unused l.linked in
      let (before, tail_node) = Linked-last s.heap 0 x xs 0 l.linked in
      let nd : Node s.heap before s.tail 0 =
        subst (λ t. Node s.heap before t 0) (sym l.last) tail_node in
      let other : fresh ≢ s.tail =
        subst (λ t. fresh ≢ t) (sym l.last) (Absent-last fresh x xs out) in
      new-IsExtended_cons nd.node ready nd.ne_null other nd.holds
