-- ===== src/Startup/Loop.antt =====
-- The loop of `init` over the link maps of the host.
use dlopen_rs.Startup.Nodes.{Apart, Hosted-extended, ShowsAll-extended}
use dlopen_rs.Error.{ok}
use dlopen_rs.Register.{Manager}
use dlopen_rs.Base.{
  subst, sym, ap, Option, some, refl, inr, inl, Bool-cases, false, ◌==◌, ◌++◌, arith, ◌∙◌, ◌∷◌,
  length, true, none, List, ◌≡◌, ◌≢◌, ℕ, zero, suc, ◌<◌, [],
}
use dlopen_rs.DebugList.{debug_set, load, LinkMap, CustomDebug, new}
use dlopen_rs.DebugList.Extend.{IsExtended, new-IsExtended}
use dlopen_rs.DebugList.Add.{new-IsAdded}
use dlopen_rs.DebugList.Chain.{IsList}
use dlopen_rs.Startup.{Result, HostLoader, Program, walk_maps, note_libc}
use dlopen_rs.Startup.Host.{
  Hosted, ShowsAll, with_addr, AllReadable, registered, IsReadable, from_link_map-null,
  from_link_map-some, note_libc-some, with_library, with_existing,
}

-- What the allocator keeps of the heap, `IsValid`, makes a new box not null and not in use, and
-- `DebugInfo::new` keeps it.
abbrev pub IsFresh : HostLoader → (CustomDebug → Type 0) → Type 0
IsFresh host IsValid =
    (s : CustomDebug)
    → IsValid s
    → (host.box_new s ≢ 0)
      × (s.heap (host.box_new s) ≡ none)
      × ((like : LinkMap) (s' : CustomDebug) → IsExtended s (host.box_new s) like s' → IsValid s')

module _ (host : HostLoader) (IsValid : CustomDebug → Type 0) (fresh : IsFresh host IsValid) where
  -- what the walk starts with, and what it keeps
  pub record Ready (s : Program) (cur : ℕ) (links likes : List LinkMap) (xs : List ℕ) : Type 0 where
    pub ready : s.debug.lock ≡ debug_set
    pub list : IsList s.debug xs
    pub shows : ShowsAll s.debug.heap xs likes
    pub hosted : Hosted s.debug.heap cur links
    pub apart : Apart s.debug.heap s.debug.tail cur links
    pub valid : IsValid s.debug

  -- what it ends with
  pub record Walked (m : Manager) (links likes : List LinkMap) (r : AllReadable host links)
      (out : Result (Unit {0}) × Program) : Type 0 where
    pub ends : out.0 ≡ ok tt
    pub manager : out.1.manager ≡ registered host links r m
    pub xs : List ℕ
    pub list : IsList out.1.debug xs
    pub shows : ShowsAll out.1.debug.heap xs (with_addr links likes)

  Walked-cons :
      (link : LinkMap) (links likes likes' : List LinkMap) (r : AllReadable host (link ∷ links))
      (out : Result (Unit {0}) × Program) (m m' : Manager)
      → with_existing host link r.0.raw r.0.name m ≡ m'
      → with_addr (link ∷ links) likes ≡ with_addr links likes'
      → Walked m' links likes' r.1 out
      → Walked m (link ∷ links) likes r out
  Walked-cons link links likes likes' r out m m' same behind g = record {
    ends = g.ends;
    manager = g.manager ∙ ap (registered host links r.1) (sym same);
    xs = g.xs;
    list = g.list;
    shows = subst (ShowsAll out.1.debug.heap g.xs) (sym behind) g.shows;
  }

  load-ok :
      (d : CustomDebug) (cur : ℕ) (link : LinkMap)
      → d.heap cur ≡ some link
      → (load cur d).0 ≡ ok link
  unfolding load
  load-ok d cur link e = rw (load, e)

  walk_maps-null :
      (fuel cur : ℕ) (s : Program) (link : LinkMap)
      → IsReadable host link
      → cur ≢ 0
      → s.debug.heap cur ≡ some link
      → (link.l_addr == 0) ≡ true
      → walk_maps host (suc fuel) cur s ≡ walk_maps host fuel link.l_next s
  unfolding walk_maps note_libc
  walk_maps-null fuel cur s link r ne e null =
      let more : (cur == 0) ≡ false = ground (arith, ne) in
      rw (walk_maps, more, load-ok s.debug cur link e, from_link_map-null host link s r null)

  walk_maps-some :
      (fuel cur : ℕ) (s : Program) (link : LinkMap) (r : IsReadable host link)
      → cur ≢ 0
      → s.debug.heap cur ≡ some link
      → (link.l_addr == 0) ≡ false
      → (new (host.box_new s.debug) link.l_addr link.l_name link.l_ld s.debug).0
        ≡ ok (host.box_new s.debug)
      → (old : Option ℕ) × (walk_maps host (suc fuel) cur s
          ≡ walk_maps host fuel link.l_next
              (record (with_library host link r.raw r.name s) { old_dl_iterate_phdr = old }))
  unfolding walk_maps
  walk_maps-some fuel cur s link r ne e there added =
      let more : (cur == 0) ≡ false = ground (arith, ne) in
      let s' = with_library host link r.raw r.name s in
      let (old, noted) = note_libc-some host link s.manager s' r in
      (
        old,
        rw (
          walk_maps,
          more,
          load-ok s.debug cur link e,
          from_link_map-some host link s r there added,
          noted,
        ),
      )

  pub walk_maps-Walked :
      (fuel cur : ℕ) (s : Program) (links likes : List LinkMap) (xs : List ℕ)
      (r : AllReadable host links)
      → length links < fuel
      → Ready s cur links likes xs
      → Walked s.manager links likes r (walk_maps host fuel cur s)
  unfolding walk_maps load
  walk_maps-Walked zero cur s links likes xs r enough w = absurd (omega arith)
  walk_maps-Walked (suc fuel) cur s [] likes xs r enough w =
      let null : (cur == 0) ≡ true = ground (arith, w.hosted) in
      rw null (record { ends = refl; manager = refl; xs = xs; list = w.list; shows = w.shows })
  walk_maps-Walked (suc fuel) cur s (link ∷ links) likes xs r enough w =
      elim (Bool-cases (link.l_addr == 0)) [
        | inl null ↦ rw (walk_maps-null fuel cur s link r.0 w.hosted.0 w.hosted.1 null) (
            Walked-cons link links likes likes r (walk_maps host fuel link.l_next s) s.manager
              s.manager (rw null) (rw null)
              (walk_maps-Walked fuel link.l_next s links likes xs r.1 (omega arith) (record {
                ready = w.ready;
                list = w.list;
                shows = w.shows;
                hosted = w.hosted.2;
                apart = w.apart.1;
                valid = w.valid;
              })))
        | inr there ↦
            let box = host.box_new s.debug in
            let (ne, unused, keeps) = fresh s.debug w.valid in
            let (added, one) =
              new-IsAdded s.debug xs box link.l_addr link.l_name link.l_ld w.ready w.list ne
                unused in
            let (old, e) = walk_maps-some fuel cur s link r.0 w.hosted.0 w.hosted.1 there added in
            let after = record (with_library host link r.0.raw r.0.name s) {
              old_dl_iterate_phdr = old;
            } in
            let x = new-IsExtended s.debug box link xs w.ready w.list ne unused in
            let (hosted, apart) =
              Hosted-extended s.debug box link after.debug link.l_next links x unused w.apart.1
                w.hosted.2 in
            rw e (
              Walked-cons link links likes (likes ++ link ∷ []) r
                (walk_maps host fuel link.l_next after) s.manager after.manager (rw there)
                (rw there)
                (walk_maps-Walked fuel link.l_next after links (likes ++ link ∷ []) (xs ++ box ∷ [])
                  r.1 (omega arith)
                  (record {
                    ready = x.ready;
                    list = one.list;
                    shows =
                        ShowsAll-extended s.debug box link after.debug xs likes x unused w.shows;
                    hosted = hosted;
                    apart = apart;
                    valid = keeps link after.debug x;
                  })))
      ]
