-- ===== src/Startup/Nodes.antt =====
-- The host's nodes and the new ones in the heap, while the debugger's list grows.
use dlopen_rs.DebugList.{CustomDebug, Heap, LinkMap}
use dlopen_rs.DebugList.Extend.{IsExtended}
use dlopen_rs.Startup.Host.{Hosted, ShowsAll}
use dlopen_rs.Base.{◌++◌, ◌∙◌, none, [], ◌≢◌, ◌≡◌, ◌∷◌, List, ℕ}

-- No node of the host is a given one.
abbrev pub Apart : Heap → ℕ → ℕ → List LinkMap → Type 0
Apart h q cur [] = Unit {0}
Apart h q cur (link ∷ links) = (cur ≢ q) × Apart h q link.l_next links

pub Hosted-extended :
    (s : CustomDebug) (fresh : ℕ) (like : LinkMap) (s' : CustomDebug) (cur : ℕ)
    (links : List LinkMap)
    → IsExtended s fresh like s'
    → s.heap fresh ≡ none
    → Apart s.heap s.tail cur links
    → Hosted s.heap cur links
    → Hosted s'.heap cur links × Apart s'.heap s'.tail cur links
Hosted-extended s fresh like s' cur [] x unused a h = (h, tt)
Hosted-extended s fresh like s' cur (link ∷ links) x unused a h =
    let other : cur ≢ fresh = λ same. cc (h.1, unused, same) in
    let (rest, away) = Hosted-extended s fresh like s' link.l_next links x unused a.1 h.2 in
    ((h.0, x.frame cur other a.0 ∙ h.1, rest), (λ same. other (same ∙ x.tail), away))

pub ShowsAll-extended :
    (s : CustomDebug) (fresh : ℕ) (like : LinkMap) (s' : CustomDebug) (xs : List ℕ)
    (likes : List LinkMap)
    → IsExtended s fresh like s'
    → s.heap fresh ≡ none
    → ShowsAll s.heap xs likes
    → ShowsAll s'.heap (xs ++ fresh ∷ []) (likes ++ like ∷ [])
ShowsAll-extended s fresh like s' [] [] x unused h = (x.shown, tt)
ShowsAll-extended s fresh like s' [] (l ∷ likes) x unused h = absurd h
ShowsAll-extended s fresh like s' (y ∷ xs) [] x unused h = absurd h
ShowsAll-extended s fresh like s' (y ∷ xs) (l ∷ likes) x unused h =
    let other : y ≢ fresh = λ same. cc (h.0.1, unused, same) in
    (x.kept y l other h.0, ShowsAll-extended s fresh like s' xs likes x unused h.1)

pub Hosted-Apart :
    (h : Heap) (cur : ℕ) (links : List LinkMap) → Hosted h cur links → Apart h 0 cur links
Hosted-Apart h cur [] hosted = tt
Hosted-Apart h cur (link ∷ links) hosted = (hosted.0, Hosted-Apart h link.l_next links hosted.2)
