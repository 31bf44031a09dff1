-- ===== src/Store/Memory/Nodes.antt =====
-- memory.go: the node registry.
use visus.Prelude.{
  ℕ, ◌+◌, ◌<◌, ◌≤◌, ◌^◌, String, ◌≡◌, none, some, List, [], ◌∷◌, arith, nat_eq, All, IsSorted,
  IsOrder, sort, sort-IsSorted, sort-perm, Perm, leb_trans, leb_total, ℤ, length, inl, inr,
  Option-cases,
}
use visus.Result.{ok}
use visus.Dict.{Dict, lookup, insert, remove, lookup-insert, All-insert, All-remove, All-lookup}
use visus.Store.Types.{NodeInfo}
use visus.Store.Memory
use visus.Store.Memory.{Memory, values, newest_first, get_nodes, register_node}
use visus.Store.Memory.Calls.{Call, exec, run, IsReady, found}
use visus.Store.Memory.Names.{Held}

newest_first-IsOrder : IsOrder newest_first
newest_first-IsOrder = record {
  total = λ a b. leb_total b.updated a.updated;
  trans = λ a b c p q. leb_trans c.updated b.updated a.updated q p;
}

abbrev pub stored_nodes : Memory → List NodeInfo
stored_nodes m = elim m.nodes [ none ↦ [] | some d ↦ values d ]

-- Once `Init` has run and no error is injected, `GetNodes` succeeds, changes nothing, and returns the
-- registered nodes, each as often as it is stored, those with the latest heartbeat first.
pub get_nodes_complete :
    (m : Memory)
    → IsReady m
    → m.error ≡ none
    → (ns : List NodeInfo) × (get_nodes m ≡ (ok ns, m))
      × IsSorted newest_first ns
      × Perm ns (stored_nodes m)
unfolding get_nodes
get_nodes_complete m r e = elim (Option-cases m.nodes) [
  | inl p ↦ ground arith
  | inr (d, p) ↦ (
    sort newest_first (values d),
    ground arith,
    sort-IsSorted newest_first (values d) newest_first-IsOrder,
    rw p (sort-perm newest_first (values d)),
  )
]

-- No node id is above the counter.
abbrev IsBelow : ℕ → ℕ × NodeInfo → Type 0
IsBelow n e = e.0 ≤ n

pub record IsNumbered (m : Memory) : Type 0 where
  pub below : Held (All (IsBelow m.next_node_id)) m.nodes

IsBelow-mono : (n k : ℕ) (d : Dict ℕ NodeInfo) → n ≤ k → All (IsBelow n) d → All (IsBelow k) d
IsBelow-mono n k [] h a = tt
IsBelow-mono n k (x ∷ d) h a = (omega arith, IsBelow-mono n k d h a.1)

IsBelow-insert :
    (n k : ℕ) (v : NodeInfo) (d : Dict ℕ NodeInfo)
    → k ≤ n
    → All (IsBelow n) d
    → All (IsBelow n) (insert k v d)
IsBelow-insert n k v d h a = All-insert (IsBelow n) k v d h a

IsBelow-remove : (n k : ℕ) (d : Dict ℕ NodeInfo) → All (IsBelow n) d → All (IsBelow n) (remove k d)
IsBelow-remove n k d a = All-remove (IsBelow n) k d a

IsBelow-lookup :
    (n k : ℕ) (v : NodeInfo) (d : Dict ℕ NodeInfo) → All (IsBelow n) d → lookup k d ≡ some v → k ≤ n
IsBelow-lookup n k v d a h = All-lookup (IsBelow n) k v d a h

IsBelow-fresh : (n : ℕ) (d : Dict ℕ NodeInfo) → All (IsBelow n) d → lookup (n + 1) d ≡ none
IsBelow-fresh n d a = elim (Option-cases (lookup (n + 1) d)) [
  | inl p ↦ p
  | inr (v, p) ↦ absurd (omega (arith, IsBelow-lookup n (n + 1) v d a p))
]

-- A call moves the counter by one at most, and keeps the ids below it while it does not wrap.
exec-IsNumbered :
    (m : Memory) (c : Call)
    → m.next_node_id + 1 < 2 ^ 64
    → IsNumbered m
    → IsNumbered (exec c m).1 × ((exec c m).1.next_node_id ≤ m.next_node_id + 1)
unfolding exec
exec-IsNumbered m (Call.heartbeat id now) w h =
    (record { below = grind (arith, IsBelow-insert, IsBelow-lookup) }, ground arith)
exec-IsNumbered m (Call.register_node hostname pid version now) w h =
    (record { below = grind (arith, IsBelow-insert, IsBelow-mono) }, ground arith)
exec-IsNumbered m _ w h = (record { below = grind (arith, IsBelow-remove) }, ground arith)

run-IsNumbered :
    (cs : List Call) (m : Memory)
    → m.next_node_id + length cs < 2 ^ 64
    → IsNumbered m
    → IsNumbered (run cs m) × ((run cs m).next_node_id ≤ m.next_node_id + length cs)
unfolding run
run-IsNumbered [] m w h = (h, omega arith)
run-IsNumbered (c ∷ cs) m w h =
    let (n, b) = exec-IsNumbered m c (omega arith) h in
    let (n', b') = run-IsNumbered cs (exec c m).1 (omega arith) n in (n', omega arith)

abbrev info : ℕ → String → ℤ → String → ℕ → NodeInfo
info id hostname pid version now = record {
  id = id;
  hostname = hostname;
  pid = pid;
  version = version;
  updated = now;
}

-- The node is stored under an id that was free, and is found there as it was registered.
pub record Registers (m : Memory) (hostname : String) (pid : ℤ) (version : String) (now id : ℕ)
    : Type 0 where
  pub returned : (register_node hostname pid version now m).0 ≡ ok id
  pub free : found m.nodes id ≡ none
  pub stored :
      found (register_node hostname pid version now m).1.nodes id
      ≡ some (info id hostname pid version now)

register_node-Registers :
    (m : Memory) (hostname : String) (pid : ℤ) (version : String) (now : ℕ)
    → m.next_node_id + 1 < 2 ^ 64
    → IsNumbered m
    → IsReady m
    → m.error ≡ none
    → Registers m hostname pid version now (m.next_node_id + 1)
unfolding register_node
register_node-Registers m hostname pid version now w n r e = record {
  returned = ground arith;
  free = grind (arith, IsBelow-fresh);
  stored = grind (arith, lookup-insert);
}

new-IsNumbered : IsNumbered Memory.new_memory_store
unfolding Memory.new_memory_store
new-IsNumbered = record { below = tt }

-- After any history of a new store of fewer than 2^64 - 1 calls, in which `Init` has run and no
-- error is left injected, a node is registered under an id that no other node has, and is then found
-- there as it was registered.
pub register_fresh :
    (cs : List Call) (hostname : String) (pid : ℤ) (version : String) (now : ℕ)
    → length cs + 1 < 2 ^ 64
    → IsReady (run cs Memory.new_memory_store)
    → (run cs Memory.new_memory_store).error ≡ none
    → (id : ℕ) × Registers (run cs Memory.new_memory_store) hostname pid version now id
unfolding Memory.new_memory_store
register_fresh cs hostname pid version now w r e =
    let m = run cs Memory.new_memory_store in
    let (n, b) = run-IsNumbered cs Memory.new_memory_store (omega arith) new-IsNumbered in
    (m.next_node_id + 1, register_node-Registers m hostname pid version now (omega arith) n r e)
