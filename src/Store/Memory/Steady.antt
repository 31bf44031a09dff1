-- ===== src/Store/Memory/Steady.antt =====
-- memory.go as the store of a client that reads configurations.
use visus.Prelude.{arith, Option-cases, inl, inr, string_eq}
use visus.Store.Types.{IsSteady}
use visus.Store.Memory.{Memory, memory_store, get_collection, get_collection_names}
use visus.Store.Memory.Names.{IsConsistent, IsIndexed-lookup}

-- Reading a store changes nothing, and a consistent store gives each collection under its own name.
pub memory-IsSteady : (m : Memory) → IsConsistent m → IsSteady memory_store m
unfolding get_collection get_collection_names
memory-IsSteady m h = record {
  reads = λ n. ground arith;
  lists = ground arith;
  named = λ n c q. elim (Option-cases m.collections) [
    | inl p ↦ ground arith
    | inr (d, p) ↦ IsIndexed-lookup (λ c. c.name) n c d (rw p at h.collections) (ground arith)
  ];
}
