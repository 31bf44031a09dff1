-- ===== src/Collector/Collect/Labels.antt =====
-- collector.go: the labels of a collector and their places in a row.
use visus.Prelude.{
  ℕ, suc, String, ◌≡◌, false, some, List, [], ◌∷◌, ◌<◌, ◌+◌, ◌≤◌, string_eq, nat_eq, ◌==◌, arith,
  Bool-cases, inl, inr, length, length-append,
}
use visus.Dict.{lookup, insert, lookup-insert}
use visus.External.Prometheus.{Prometheus}
use visus.External.Lru.{Lru}
use visus.Collector.Types.{Collector, CacheKey, CacheValue, get_all_labels}
use visus.Collector.Build.{label_positions}

-- The index that a label is given is one of the list.
pub label_positions_range :
    (i n : ℕ) (ls : List String) (m : List (String × ℕ))
    → i + length ls ≤ n
    → ((k : String) (j : ℕ) → lookup k m ≡ some j → j < n)
    → (k : String) (j : ℕ) → lookup k (label_positions i ls m) ≡ some j
    → j < n
unfolding label_positions
label_positions_range i n [] m h r = r
label_positions_range i n (x ∷ ls) m h r =
    label_positions_range (suc i) n ls (insert x i m) (omega arith)
      (λ k j q. ground (arith, lookup-insert x k i m, r k j))

pub all_labels-bounds :
    {p : Prometheus} {l : Lru CacheKey (CacheValue p)} (x : Collector p l)
    → (length x.labels ≤ length (get_all_labels x))
      × ((x.databases == "") ≡ false → 0 < length (get_all_labels x))
unfolding get_all_labels
all_labels-bounds x = elim (Bool-cases (x.databases == "")) [
  | inl q ↦ rw q (omega arith, λ e. cc)
  | inr q ↦ rw q (
    omega (arith, length-append x.labels ("_database" ∷ [])),
    λ e. omega (arith, length-append x.labels ("_database" ∷ [])),
  )
]

pub all_labels-eq :
    {p : Prometheus} {l : Lru CacheKey (CacheValue p)} (x y : Collector p l)
    → x.labels ≡ y.labels
    → x.databases ≡ y.databases
    → get_all_labels x ≡ get_all_labels y
unfolding get_all_labels
all_labels-eq x y e q = ground arith
