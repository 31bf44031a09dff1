-- ===== src/Store/Memory/Names.antt =====
-- memory.go: what is stored under which key, and the lists of names.
use visus.Prelude.{
  String, ◌≡◌, true, Option, none, some, List, [], ◌∷◌, arith, is_some, Eq, string_eq, nat_eq,
  Distinct, contains, All, IsSorted, string_le, string_le-IsOrder, sort-IsSorted, sort-Distinct,
  contains-sort, inl, inr, Option-cases, sort, ◌∙◌,
}
use visus.Result.{Op, ok}
use visus.Dict.{
  Dict, keys, lookup, insert, remove, insert-Distinct, remove-Distinct, All-insert, All-remove,
  All-lookup, contains-keys,
}
use visus.Store.Memory
use visus.Store.Memory.{
  Memory, get_names, get_collection_names, get_histogram_names, get_scan_names,
}
use visus.Store.Memory.Calls.{Call, exec, run, IsReady, found}

abbrev pub IsNamed {ℓ κ} : {K : Type ℓ} {V : Type κ} → (V → K) → K × V → Type ℓ
IsNamed f e = f e.1 ≡ e.0

-- A map without a key twice, each value under its own name.
pub record IsIndexed {ℓ κ} {K : Type ℓ} {V : Type κ} ⦃e : Eq K⦄ (f : V → K) (d : Dict K V)
    : Type ℓ where
  pub distinct : Distinct (keys d)
  pub named : All (IsNamed f) d

-- The same of a map behind a pointer, if it is not nil.
abbrev pub Held {ℓ κ} : {A : Type ℓ} → (A → Type κ) → Option A → Type κ
Held P none = Unit
Held P (some a) = P a

module _ {ℓ κ} {K : Type ℓ} {V : Type κ} ⦃e : Eq K⦄ (f : V → K) where
  IsIndexed-empty : IsIndexed f []
  IsIndexed-empty = record { distinct = tt; named = tt }

  IsIndexed-insert :
      (k : K) (v : V) (d : Dict K V) → f v ≡ k → IsIndexed f d → IsIndexed f (insert k v d)
  IsIndexed-insert k v d n h = record {
    distinct = insert-Distinct k v d h.distinct;
    named = All-insert (IsNamed f) k v d n h.named;
  }

  IsIndexed-remove : (k : K) (d : Dict K V) → IsIndexed f d → IsIndexed f (remove k d)
  IsIndexed-remove k d h = record {
    distinct = remove-Distinct k d h.distinct;
    named = All-remove (IsNamed f) k d h.named;
  }

  pub IsIndexed-lookup :
      (k : K) (v : V) (d : Dict K V) → IsIndexed f d → lookup k d ≡ some v → f v ≡ k
  IsIndexed-lookup k v d h q = All-lookup (IsNamed f) k v d h.named q

ruleset indexed = (IsIndexed-empty, IsIndexed-insert, IsIndexed-remove)

pub record IsConsistent (m : Memory) : Type 0 where
  pub collections : Held (IsIndexed (λ c. c.name)) m.collections
  pub histograms : Held (IsIndexed (λ h. h.name)) m.histograms
  pub scans : Held (IsIndexed (λ s. s.name)) m.scans
  pub nodes : Held (IsIndexed (λ n. n.id)) m.nodes

new-IsConsistent : IsConsistent Memory.new_memory_store
unfolding Memory.new_memory_store
new-IsConsistent = record { collections = tt; histograms = tt; scans = tt; nodes = tt }

exec-IsConsistent : (m : Memory) (c : Call) → IsConsistent m → IsConsistent (exec c m).1
unfolding exec
exec-IsConsistent m (Call.heartbeat id now) h = record {
  collections = ground arith;
  histograms = ground arith;
  scans = ground arith;
  nodes = grind (arith, indexed, IsIndexed-lookup);
}
exec-IsConsistent m _ h = record {
  collections = grind (arith, indexed);
  histograms = grind (arith, indexed);
  scans = grind (arith, indexed);
  nodes = grind (arith, indexed);
}

-- After any history of a new store no key occurs twice in a map, and every configuration and node
-- is stored under its own name or id.
pub run-IsConsistent : (cs : List Call) → IsConsistent (run cs Memory.new_memory_store)
unfolding run
run-IsConsistent cs = go cs Memory.new_memory_store new-IsConsistent
  where
    go : (cs : List Call) (m : Memory) → IsConsistent m → IsConsistent (run cs m)
    go [] m h = h
    go (c ∷ cs) m h = go cs (exec c m).1 (exec-IsConsistent m c h)

-- A list of names against the map that it was read from.
pub record Lists {ℓ} {A : Type ℓ} (o : Option (Dict String A)) (ns : List String) : Type 0 where
  pub sorted : IsSorted string_le ns
  pub distinct : Distinct ns
  pub complete : (k : String) → contains ns k ≡ is_some (found o k)

Lists-keys {ℓ} :
    {A : Type ℓ} (name : A → String) (d : Dict String A)
    → IsIndexed name d
    → Lists (some d) (sort string_le (keys d))
Lists-keys name d h = record {
  sorted = sort-IsSorted string_le (keys d) string_le-IsOrder;
  distinct = sort-Distinct string_le (keys d) h.distinct;
  complete = λ k. contains-sort string_le (keys d) k ∙ contains-keys k d;
}

-- A call that succeeds with such a list and changes nothing.
abbrev pub Returns {ℓ} :
    {A : Type ℓ} → Op Memory (List String) → Option (Dict String A) → Memory → Type 0
Returns call o m = (ns : List String) × (call m ≡ (ok ns, m)) × Lists o ns

get_names-Returns {ℓ} :
    {A : Type ℓ} (vals : Memory → Option (Dict String A)) (m : Memory) (name : A → String)
    → m.error ≡ none
    → is_some (vals m) ≡ true
    → Held (IsIndexed name) (vals m)
    → Returns (get_names vals) (vals m) m
unfolding get_names
get_names-Returns vals m name e r h = elim (Option-cases (vals m)) [
  | inl p ↦ ground arith
  | inr (d, p) ↦ (sort string_le (keys d), ground arith, rw p (Lists-keys name d (rw p at h)))
]

-- Once `Init` has run and no error is injected, in a consistent store, each of the three calls
-- succeeds and changes nothing, and list of names is
-- sorted, has no name twice, and holds exactly the names under which a configuration is stored.
pub names_complete :
    (m : Memory)
    → IsReady m
    → IsConsistent m
    → m.error ≡ none
    → Returns get_collection_names m.collections m
      × Returns get_histogram_names m.histograms m
      × Returns get_scan_names m.scans m
unfolding get_collection_names get_histogram_names get_scan_names
names_complete m r h e = (
  get_names-Returns (λ m. m.collections) m (λ c. c.name) e r.collections h.collections,
  get_names-Returns (λ m. m.histograms) m (λ c. c.name) e r.histograms h.histograms,
  get_names-Returns (λ m. m.scans) m (λ c. c.name) e r.scans h.scans,
)
