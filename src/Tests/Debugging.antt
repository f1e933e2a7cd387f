-- ===== src/Tests/Debugging.antt =====
-- A debugger's list of three nodes.
use dlopen_rs.DebugList.Add.{new-IsAdded, IsAdded}
use dlopen_rs.DebugList.Remove.{remove-IsRemoved, IsRemoved}
use dlopen_rs.Error.{ok}
use dlopen_rs.DebugList.Chain.{Node, IsList}
use dlopen_rs.DebugList.{debug_set, CustomDebug, remove, new, LinkMap}
use dlopen_rs.Base.{refl, none, arith, ◌≢◌, ◌==◌, [], if◌then◌else◌, some, ◌∷◌, ◌≡◌, ℕ}

abbrev node : ℕ → ℕ → LinkMap
node prev next = record { l_addr = 4096; l_name = 1; l_ld = 2; l_next = next; l_prev = prev }

abbrev three : CustomDebug
three = record {
  heap = λ p.
      if p == 16
      then some (node 0 32)
      else if p == 32
      then some (node 16 48)
      else if p == 48
      then some (node 32 0)
      else none;
  lock = debug_set;
  map = 16;
  state = 0;
  tail = 48;
  breaks = [];
}

abbrev node_at :
    (prev a next : ℕ) → three.heap a ≡ some (node prev next) → a ≢ 0 → Node three.heap prev a next
node_at prev a next e ne = record {
  node = node prev next;
  holds = e;
  back = refl;
  forth = refl;
  ne_null = ne;
}

three-IsList : IsList three (16 ∷ 32 ∷ 48 ∷ [])
three-IsList = record {
  first = refl;
  last = refl;
  linked = (
    node_at 0 16 32 refl (omega arith),
    (node_at 16 32 48 refl (omega arith), (node_at 32 48 0 refl (omega arith), tt)),
  );
  distinct = ((omega arith, (omega arith, tt)), ((omega arith, tt), (tt, tt)));
}

new-IsAdded_example :
    ((new 64 8192 1 2 three).0 ≡ ok 64)
    × IsAdded three (16 ∷ 32 ∷ 48 ∷ []) 64 (new 64 8192 1 2 three).1
new-IsAdded_example =
    new-IsAdded three (16 ∷ 32 ∷ 48 ∷ []) 64 8192 1 2 refl three-IsList (omega arith) refl

remove-IsRemoved_example :
    ((remove 32 three).0 ≡ ok tt) × IsRemoved three (16 ∷ []) (48 ∷ []) 32 (remove 32 three).1
remove-IsRemoved_example = remove-IsRemoved three (16 ∷ []) 32 (48 ∷ []) three-IsList
