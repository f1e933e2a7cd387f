-- ===== src/DebugList/Add.antt =====
-- `DebugInfo::new` appends to the list.
use dlopen_rs.Base.{◌∙◌, ℕ, ◌≡◌, ◌≢◌, refl, sym, subst, ap, List, [], ◌∷◌, ◌++◌, none, some, arith}
use dlopen_rs.Error.{ok}
use dlopen_rs.Step.{and_then}
use dlopen_rs.DebugList.{
  debug_set, new_locked, attach, link_map, LinkMap, Heap, CustomDebug, update, new, announce, store,
  rt_add, rt_consistent,
}
use dlopen_rs.DebugList.Chain.{
  head_or, last_or, Absent, Distinct, Node, Linked, Linked-update, Linked-append, Linked-last,
  Linked-set_next, IsList, Node-update, Absent-last, test-ne, set_next-ok,
}

pub last_or-append : (d a : ℕ) (xs : List ℕ) → last_or d (xs ++ a ∷ []) ≡ a
last_or-append d a [] = refl
last_or-append d a (x ∷ xs) = last_or-append x a xs

head_or-append : (d x a : ℕ) (xs : List ℕ) → head_or d ((x ∷ xs) ++ a ∷ []) ≡ x
head_or-append d x a xs = refl

Absent-append : (b a : ℕ) (xs : List ℕ) → b ≢ a → Absent b xs → Absent b (xs ++ a ∷ [])
Absent-append b a [] ne out = (ne, tt)
Absent-append b a (x ∷ xs) ne out = (out.0, Absent-append b a xs ne out.1)

Distinct-append : (a : ℕ) (xs : List ℕ) → Absent a xs → Distinct xs → Distinct (xs ++ a ∷ [])
Distinct-append a [] out d = (tt, tt)
Distinct-append a (x ∷ xs) out d =
    (Absent-append x a xs (λ e. out.0 (sym e)) d.0, Distinct-append a xs out.1 d.1)

-- An address that holds nothing is not in a list.
pub Absent-fresh :
    (h : Heap) (prev fresh : ℕ) (xs : List ℕ) (stop : ℕ)
    → h fresh ≡ none
    → Linked h prev xs stop
    → Absent fresh xs
Absent-fresh h prev fresh [] stop e l = tt
Absent-fresh h prev fresh (x ∷ xs) stop e l =
    (λ same. cc (l.0.holds, ap h same), Absent-fresh h x fresh xs stop e l.1)

-- What `DebugInfo::new` reports: the node is in the list, behind those that were there, and the
-- debugger was told of an addition and of the end of the change.
pub record IsAdded (s : CustomDebug) (xs : List ℕ) (fresh : ℕ) (s' : CustomDebug) : Type 0 where
  pub list : IsList s' (xs ++ fresh ∷ [])
  pub told : s'.breaks ≡ rt_consistent ∷ rt_add ∷ s.breaks

module _ (s : CustomDebug) (fresh base name dynamic : ℕ) where
  abbrev pub link : ℕ → LinkMap
  link prev = link_map base name dynamic prev

  fresh-Node :
      (h : Heap) (prev : ℕ) → fresh ≢ 0 → Node (update h fresh (some (link prev))) prev fresh 0
  fresh-Node h prev ne = record {
    node = link prev;
    holds = ground arith;
    back = refl;
    forth = refl;
    ne_null = ne;
  }

  new-nil :
      s.lock ≡ debug_set
      → IsList s []
      → fresh ≢ 0
      → ((new fresh base name dynamic s).0 ≡ ok fresh)
        × IsAdded s [] fresh (new fresh base name dynamic s).1
  unfolding new new_locked
  new-nil ready l ne =
      rw (ready, new_locked, l.last)
        (
          refl,
          record {
            list = record {
              first = refl;
              last = refl;
              linked = (fresh-Node s.heap 0 ne, tt);
              distinct = (tt, tt);
            };
            told = refl;
          },
        )

  -- the state after the call, where `n` is the node that was the last one
  abbrev pub appended : LinkMap → CustomDebug
  appended n =
      announce fresh
        (store s.tail (some (record n { l_next = fresh })) (store fresh (some (link s.tail)) s))

  pub new-eq :
      (n : LinkMap)
      → s.lock ≡ debug_set
      → s.tail ≢ 0
      → fresh ≢ s.tail
      → s.heap s.tail ≡ some n
      → new fresh base name dynamic s ≡ (ok fresh, appended n)
  unfolding new new_locked
  new-eq n ready ne other e =
      let stored = store fresh (some (link s.tail)) s in
      let still : stored.heap s.tail ≡ some n = rw (test-ne fresh s.tail other) e in
      ap (λ b. new_locked b fresh (link s.tail) s) ready
      ∙ ap (λ b. attach b fresh stored) (test-ne s.tail 0 ne)
      ∙ ap (λ out. and_then out (λ _ s'. (ok fresh, announce fresh s')))
          (set_next-ok stored s.tail n still fresh)

  appended-IsList :
      (x : ℕ) (xs : List ℕ) (n : LinkMap)
      → IsList s (x ∷ xs)
      → fresh ≢ 0
      → fresh ≢ s.tail
      → Absent fresh (x ∷ xs)
      → s.heap s.tail ≡ some n
      → IsList (appended n) ((x ∷ xs) ++ fresh ∷ [])
  appended-IsList x xs n l ne other out e =
      let h = update s.heap fresh (some (link s.tail)) in
      let still : h (last_or x xs) ≡ some n =
        subst (λ t. h t ≡ some n) l.last (rw (test-ne fresh s.tail other) e) in
      let before = Linked-update s.heap 0 (x ∷ xs) 0 fresh (some (link s.tail)) out l.linked in
      let front = Linked-set_next h 0 x xs 0 fresh n l.distinct still before in
      let node =
        Node-update h s.tail fresh 0 s.tail (some (record n { l_next = fresh })) other
          (fresh-Node s.heap s.tail ne) in
      let h' = λ (t : ℕ). update h t (some (record n { l_next = fresh })) in
      record {
        first = l.first;
        last = sym (last_or-append 0 fresh (x ∷ xs));
        linked =
            Linked-append (h' s.tail) 0 (x ∷ xs) (fresh ∷ []) 0
              (subst (λ t. Linked (h' t) 0 (x ∷ xs) fresh) (sym l.last) front)
              (subst (λ t. Node (h' s.tail) t fresh 0) l.last node, tt);
        distinct = Distinct-append fresh (x ∷ xs) out l.distinct;
      }

  new-cons :
      (x : ℕ) (xs : List ℕ)
      → s.lock ≡ debug_set
      → IsList s (x ∷ xs)
      → fresh ≢ 0
      → s.heap fresh ≡ none
      → ((new fresh base name dynamic s).0 ≡ ok fresh)
        × IsAdded s (x ∷ xs) fresh (new fresh base name dynamic s).1
  new-cons x xs ready l ne unused =
      let out = Absent-fresh s.heap 0 fresh (x ∷ xs) 0 unused l.linked in
      let (before, tail_node) = Linked-last s.heap 0 x xs 0 l.linked in
      let nd : Node s.heap before s.tail 0 =
        subst (λ t. Node s.heap before t 0) (sym l.last) tail_node in
      let other : fresh ≢ s.tail =
        subst (λ t. fresh ≢ t) (sym l.last) (Absent-last fresh x xs out) in
      rw (new-eq nd.node ready nd.ne_null other nd.holds)
        (refl, record { list = appended-IsList x xs nd.node l ne other out nd.holds; told = refl })

-- After `init`, `DebugInfo::new` puts the new node behind those that the debugger's list holds,
-- keeps the list doubly linked, and calls `brk` with RT_ADD and then with RT_CONSISTENT. (The new
-- box has an address that is not null and not in use.)
pub new-IsAdded :
    (s : CustomDebug) (xs : List ℕ) (fresh base name dynamic : ℕ)
    → s.lock ≡ debug_set
    → IsList s xs
    → fresh ≢ 0
    → s.heap fresh ≡ none
    → ((new fresh base name dynamic s).0 ≡ ok fresh)
      × IsAdded s xs fresh (new fresh base name dynamic s).1
new-IsAdded s [] fresh base name dynamic ready l ne unused =
    new-nil s fresh base name dynamic ready l ne
new-IsAdded s (x ∷ xs) fresh base name dynamic ready l ne unused =
    new-cons s fresh base name dynamic x xs ready l ne unused
