-- ===== src/DebugList/Remove.antt =====
-- `Drop for DebugInfo` takes one node out of the list.
use dlopen_rs.DebugList.Absent.{
  last_or-cons, last_or-through, last-Absent, Distinct-split, Absent-split, Distinct-drop,
}
use dlopen_rs.Base.{
  refl, ℕ, ◌≡◌, ◌≢◌, sym, ap, ◌∙◌, List, [], ◌∷◌, ◌++◌, none, some, Bool, true, false, ◌==◌,
}
use mathlib.Core.List.{append-nil}
use dlopen_rs.DebugList.Add.{last_or-append}
use dlopen_rs.Error.{Result, ok}
use dlopen_rs.Step.{and_then}
use dlopen_rs.DebugList.{
  LinkMap, CustomDebug, update, notify, store, unlink, remove, set_prev, set_next, rt_delete,
  rt_consistent,
}
use dlopen_rs.DebugList.Chain.{
  Linked-append, Linked-set_next, Linked-last, Linked-update, Linked-front, Absent-last, test_self,
  Linked-set_prev, Linked-back, test-ne, last_or, IsList, load-ok, set_next-ok, set_prev-ok,
}

-- What the debugger sees of the removal, and the box that is freed.
pub record IsRemoved (s : CustomDebug) (xs ys : List ℕ) (a : ℕ) (s' : CustomDebug) : Type 0 where
  pub list : IsList s' (xs ++ ys)
  pub told : s'.breaks ≡ rt_consistent ∷ rt_delete ∷ s.breaks
  pub freed : s'.heap a ≡ none

module _ (s : CustomDebug) (a : ℕ) where
  remove-eq :
      (b1 b2 : Bool) (s' : CustomDebug)
      → (s.map == a) ≡ b1
      → (s.tail == a) ≡ b2
      → unlink b1 b2 a (notify rt_delete s) ≡ (ok tt, s')
      → remove a s ≡ (ok tt, store a none (notify rt_consistent s'))
  unfolding remove
  remove-eq b1 b2 s' e1 e2 done =
      let finish = λ (out : Result (Unit {0}) × CustomDebug).
        and_then out (λ _ s1. (ok tt, store a none (notify rt_consistent s1))) in
      ap (λ b. finish (unlink b (s.tail == a) a (notify rt_delete s))) e1
      ∙ ap (λ b. finish (unlink b1 b a (notify rt_delete s))) e2
      ∙ ap finish done

module _ (s : CustomDebug) (a : ℕ) (n : LinkMap) (e : s.heap a ≡ some n) where
  unlink-first :
      (q : ℕ) (m : LinkMap)
      → n.l_next ≡ q
      → s.heap q ≡ some m
      → unlink true false a s
        ≡ (ok tt, store q (some (record m { l_prev = 0 })) (record s { map = q }))
  unfolding unlink
  unlink-first q m next e' =
      ap (λ out. and_then out (λ n s1. set_prev n.l_next 0 (record s1 { map = n.l_next })))
        (load-ok s a n e)
      ∙ ap (λ t. set_prev t 0 (record s { map = t })) next
      ∙ set_prev-ok (record s { map = q }) q m e' 0

  unlink-last :
      (p : ℕ) (m : LinkMap)
      → n.l_prev ≡ p
      → s.heap p ≡ some m
      → unlink false true a s
        ≡ (ok tt, record (store p (some (record m { l_next = 0 })) s) { tail = p })
  unfolding unlink
  unlink-last p m prev e' =
      ap
        (λ out. and_then out (λ n s1.
          and_then (set_next n.l_prev 0 s1) (λ _ s2. (ok tt, record s2 { tail = n.l_prev }))))
        (load-ok s a n e)
      ∙ ap (λ t. and_then (set_next t 0 s) (λ _ s2. (ok tt, record s2 { tail = t }))) prev
      ∙ ap (λ out. and_then out (λ _ s2. (ok tt, record s2 { tail = p }))) (set_next-ok s p m e' 0)

  unlink-middle :
      (p q : ℕ) (m k : LinkMap)
      → n.l_prev ≡ p
      → n.l_next ≡ q
      → s.heap p ≡ some m
      → update s.heap p (some (record m { l_next = q })) q ≡ some k
      → unlink false false a s ≡ (
        ok tt,
        store q (some (record k { l_prev = p })) (store p (some (record m { l_next = q })) s),
      )
  unfolding unlink
  unlink-middle p q m k prev next e' e'' =
      ap
        (λ out. and_then out (λ n s1.
          and_then (set_next n.l_prev n.l_next s1) (λ _ s2. set_prev n.l_next n.l_prev s2)))
        (load-ok s a n e)
      ∙ ap (λ t. and_then (set_next t n.l_next s) (λ _ s2. set_prev n.l_next t s2)) prev
      ∙ ap (λ t. and_then (set_next p t s) (λ _ s2. set_prev t p s2)) next
      ∙ ap (λ out. and_then out (λ _ s2. set_prev q p s2)) (set_next-ok s p m e' q)
      ∙ set_prev-ok (store p (some (record m { l_next = q })) s) q k e'' p

module _ (s : CustomDebug) (a : ℕ) where
  Removed : (xs ys : List ℕ) → Type 0
  Removed xs ys = ((remove a s).0 ≡ ok tt) × IsRemoved s xs ys a (remove a s).1

  test-not : (t b : ℕ) → t ≡ b → a ≢ b → (t == a) ≡ false
  test-not t b e ne = test-ne t a (λ same. ne (sym same ∙ e))

  remove-only : IsList s (a ∷ []) → Removed [] []
  unfolding Removed unlink
  remove-only l =
      rw (remove-eq s a true true _ (rw l.first (test_self a)) (rw l.last (test_self a)) refl) (
        refl,
        record {
          list = record { first = refl; last = refl; linked = tt; distinct = tt };
          told = refl;
          freed = rw (test_self a);
        },
      )

  remove-first : (y : ℕ) (ys : List ℕ) → IsList s (a ∷ y ∷ ys) → Removed [] (y ∷ ys)
  unfolding Removed
  remove-first y ys l =
      let nd = l.linked.0 in
      let yd = l.linked.1.0 in
      let s0 = notify rt_delete s in
      let done = unlink-first s0 a nd.node nd.holds y yd.node nd.forth yd.holds in
      let linked = Linked-set_prev s.heap a 0 y ys 0 yd.node l.distinct.1 yd.holds l.linked.1 in
      rw
        (remove-eq s a true false _ (rw l.first (test_self a))
          (test-not s.tail (last_or y ys) l.last (Absent-last a y ys l.distinct.0)) done)
        (
          refl,
          record {
            list = record {
              first = refl;
              last = l.last;
              linked =
                  Linked-update (update s.heap y (some (record yd.node { l_prev = 0 }))) 0 (y ∷ ys)
                    0 a none l.distinct.0 linked;
              distinct = l.distinct.1;
            };
            told = refl;
            freed = rw (test_self a);
          },
        )

  module _ (x : ℕ) (xs : List ℕ) where
    remove-last : IsList s ((x ∷ xs) ++ a ∷ []) → Removed (x ∷ xs) []
    unfolding Removed
    remove-last l =
        let (out, d) = Distinct-drop (x ∷ xs) a [] l.distinct in
        let absent = (Absent-split a (x ∷ xs) [] out).0 in
        let distinct = (Distinct-split (x ∷ xs) [] d).0 in
        let nd = (Linked-back s.heap 0 (x ∷ xs) (a ∷ []) 0 l.linked).0 in
        let front = Linked-front s.heap 0 (x ∷ xs) (a ∷ []) 0 l.linked in
        let (before, pd) = Linked-last s.heap 0 x xs a front in
        let p = last_or x xs in
        let h = update s.heap p (some (record pd.node { l_next = 0 })) in
        let done = unlink-last (notify rt_delete s) a nd.node nd.holds p pd.node nd.back pd.holds in
        let linked =
          Linked-update h 0 (x ∷ xs) 0 a none absent
            (Linked-set_next s.heap 0 x xs a 0 pd.node distinct pd.holds front) in
        rw
          (remove-eq s a false true _ (test-not s.map x l.first absent.0)
            (rw (l.last ∙ last_or-append 0 a (x ∷ xs)) (test_self a)) done)
          (
            refl,
            record {
              list = record {
                first = l.first;
                last = ap (last_or 0) (sym (append-nil (x ∷ xs)));
                linked = rw (append-nil xs) linked;
                distinct = d;
              };
              told = refl;
              freed = rw (test_self a);
            },
          )

    remove-middle :
        (y : ℕ) (ys : List ℕ) → IsList s ((x ∷ xs) ++ a ∷ y ∷ ys) → Removed (x ∷ xs) (y ∷ ys)
    unfolding Removed
    remove-middle y ys l =
        let (out, d) = Distinct-drop (x ∷ xs) a (y ∷ ys) l.distinct in
        let (absent, absent_back) = Absent-split a (x ∷ xs) (y ∷ ys) out in
        let (distinct, distinct_back) = Distinct-split (x ∷ xs) (y ∷ ys) d in
        let between = last-Absent x xs (y ∷ ys) d in
        let y_absent = (Absent-split y (x ∷ xs) ys (Distinct-drop (x ∷ xs) y ys d).0).0 in
        let back = Linked-back s.heap 0 (x ∷ xs) (a ∷ y ∷ ys) 0 l.linked in
        let front = Linked-front s.heap 0 (x ∷ xs) (a ∷ y ∷ ys) 0 l.linked in
        let (before, pd) = Linked-last s.heap 0 x xs a front in
        let p = last_or x xs in
        let v = some (record pd.node { l_next = y }) in
        let h1 = update s.heap p v in
        let back1 = Linked-update s.heap a (y ∷ ys) 0 p v between back.1 in
        let yd = back1.0 in
        let w = some (record yd.node { l_prev = p }) in
        let h2 = update h1 y w in
        let done =
          unlink-middle (notify rt_delete s) a back.0.node back.0.holds p y pd.node yd.node
            back.0.back back.0.forth pd.holds yd.holds in
        let front2 =
          Linked-update h1 0 (x ∷ xs) y y w y_absent
            (Linked-set_next s.heap 0 x xs a y pd.node distinct pd.holds front) in
        let back2 = Linked-set_prev h1 a p y ys 0 yd.node distinct_back yd.holds back1 in
        let linked =
          Linked-append (update h2 a none) 0 (x ∷ xs) (y ∷ ys) 0
            (Linked-update h2 0 (x ∷ xs) y a none absent front2)
            (Linked-update h2 p (y ∷ ys) 0 a none absent_back back2) in
        let ne_last : a ≢ last_or y ys = Absent-last a y ys absent_back in
        rw
          (remove-eq s a false false _ (test-not s.map x l.first absent.0)
            (test-not s.tail (last_or y ys) (l.last ∙ last_or-through x xs a y ys) ne_last) done)
          (
            refl,
            record {
              list = record {
                first = l.first;
                last = l.last ∙ last_or-through x xs a y ys ∙ sym (last_or-cons x xs y ys);
                linked = linked;
                distinct = d;
              };
              told = refl;
              freed = rw (test_self a);
            },
          )

-- `Drop for DebugInfo` takes the node at `a` out of the list, wherever it stands, leaves the other
-- nodes linked in their order, frees the node, and calls `brk` with RT_DELETE and then with
-- RT_CONSISTENT.
pub remove-IsRemoved :
    (s : CustomDebug) (xs : List ℕ) (a : ℕ) (ys : List ℕ)
    → IsList s (xs ++ a ∷ ys)
    → ((remove a s).0 ≡ ok tt) × IsRemoved s xs ys a (remove a s).1
unfolding Removed
remove-IsRemoved s [] a [] l = remove-only s a l
remove-IsRemoved s [] a (y ∷ ys) l = remove-first s a y ys l
remove-IsRemoved s (x ∷ xs) a [] l = remove-last s a x xs l
remove-IsRemoved s (x ∷ xs) a (y ∷ ys) l = remove-middle s a x xs y ys l
