-- ===== src/Dict.antt =====
-- Go's `map` and `sync.Map`, as association lists. Go leaves the order of iteration open; here it
-- is the order of the list, so what is proved for every list holds for every order.
use visus.Prelude.{
  ◌≡◌, refl, false, ◌||◌, Option, none, some, List, [], ◌∷◌, arith, Eq, ◌==◌, if◌then◌else◌,
  contains, Distinct, is_some, All, All-map, ==_refl, Bool-cases, inl, inr, subst,
}

abbrev pub Dict {ℓ κ} : Type ℓ → Type κ → Type (ℓ ⊔ κ)
Dict K V = List (K × V)

module _ {ℓ κ} {K : Type ℓ} {V : Type κ} where
  abbrev pub keys : Dict K V → List K
  keys [] = []
  keys ((k, v) ∷ d) = k ∷ keys d

module _ {ℓ κ} {K : Type ℓ} {V : Type κ} ⦃e : Eq K⦄ where
  unfoldable pub lookup : K → Dict K V → Option V
  lookup k [] = none
  lookup k ((j, v) ∷ d) = if j == k then some v else lookup k d

  unfoldable pub insert : K → V → Dict K V → Dict K V
  insert k v [] = (k, v) ∷ []
  insert k v ((j, w) ∷ d) = if j == k then (k, v) ∷ d else (j, w) ∷ insert k v d

  unfoldable pub remove : K → Dict K V → Dict K V
  remove k [] = []
  remove k ((j, v) ∷ d) = let rest = remove k d in if j == k then rest else (j, v) ∷ rest

  pub lookup-insert :
      (k j : K) (v : V) (d : Dict K V)
      → lookup j (insert k v d) ≡ (if k == j then some v else lookup j d)
  unfolding lookup insert
  lookup-insert k j v [] = refl
  lookup-insert k j v ((i, w) ∷ d) =
      ground (arith, e.same_iff k j, e.same_iff i k, e.same_iff i j, lookup-insert k j v d)

  pub lookup-remove :
      (k j : K) (d : Dict K V) → lookup j (remove k d) ≡ (if k == j then none else lookup j d)
  unfolding lookup remove
  lookup-remove k j [] = ground arith
  lookup-remove k j ((i, w) ∷ d) =
      ground (arith, e.same_iff k j, e.same_iff i k, e.same_iff i j, lookup-remove k j d)

  pub contains-keys : (k : K) (d : Dict K V) → contains (keys d) k ≡ is_some (lookup k d)
  unfolding lookup
  contains-keys k [] = refl
  contains-keys k ((j, v) ∷ d) = ground (arith, contains-keys k d)

  contains-keys-insert :
      (k j : K) (v : V) (d : Dict K V)
      → contains (keys (insert k v d)) j ≡ (k == j || contains (keys d) j)
  unfolding insert
  contains-keys-insert k j v [] = refl
  contains-keys-insert k j v ((i, w) ∷ d) =
      ground (arith, e.same_iff k j, e.same_iff i k, e.same_iff i j, contains-keys-insert k j v d)

  contains-keys-remove :
      (k j : K) (d : Dict K V)
      → contains (keys (remove k d)) j ≡ (if k == j then false else contains (keys d) j)
  unfolding remove
  contains-keys-remove k j [] = ground arith
  contains-keys-remove k j ((i, w) ∷ d) =
      ground (arith, e.same_iff k j, e.same_iff i k, e.same_iff i j, contains-keys-remove k j d)

  pub insert-Distinct :
      (k : K) (v : V) (d : Dict K V) → Distinct (keys d) → Distinct (keys (insert k v d))
  unfolding insert
  insert-Distinct k v [] h = (refl, tt)
  insert-Distinct k v ((j, w) ∷ d) h = ground (
    arith,
    e.same_iff j k,
    e.same_iff k j,
    contains-keys-insert k j v d,
    insert-Distinct k v d h.1,
  )

  pub remove-Distinct : (k : K) (d : Dict K V) → Distinct (keys d) → Distinct (keys (remove k d))
  unfolding remove
  remove-Distinct k [] h = tt
  remove-Distinct k ((j, w) ∷ d) h =
      ground (arith, contains-keys-remove k j d, remove-Distinct k d h.1)

  pub lookup-nil : (k : K) → lookup k [] ≡ none
  unfolding lookup
  lookup-nil k = refl

  -- What holds of every entry holds of the one that is found, and survives the two changes.
  pub All-lookup {μ} :
      (P : K × V → Type μ) (k : K) (v : V) (d : Dict K V) → All P d → lookup k d ≡ some v → P (k, v)
  unfolding lookup
  All-lookup P k v [] a h = cc
  All-lookup P k v ((j, w) ∷ d) a h = elim (Bool-cases (j == k)) [
    | inl p ↦
        let q : ◌≡◌ {A = K × V} (j, w) (k, v) = ground (arith, e.same_iff j k) in subst P q a.0
    | inr p ↦ All-lookup P k v d a.1 (rw p at h)
  ]

  pub All-insert {μ} :
      (P : K × V → Type μ) (k : K) (v : V) (d : Dict K V)
      → P (k, v)
      → All P d
      → All P (insert k v d)
  unfolding insert
  All-insert P k v [] h a = (h, tt)
  All-insert P k v ((j, w) ∷ d) h a = elim (Bool-cases (j == k)) [
    | inl p ↦ rw p (h, a.1)
    | inr p ↦ rw p (a.0, All-insert P k v d h a.1)
  ]

  pub All-remove {μ} : (P : K × V → Type μ) (k : K) (d : Dict K V) → All P d → All P (remove k d)
  unfolding remove
  All-remove P k [] a = tt
  All-remove P k ((j, w) ∷ d) a = elim (Bool-cases (j == k)) [
    | inl p ↦ rw p (All-remove P k d a.1)
    | inr p ↦ rw p (a.0, All-remove P k d a.1)
  ]

  -- The entries `l` are in `d` as they are found there.
  abbrev pub Found : Dict K V → Dict K V → Type κ
  Found d l = All (λ x. lookup x.0 d ≡ some x.1) l

  -- Without a key twice, each entry is the one that is found.
  pub Found-self : (d : Dict K V) → Distinct (keys d) → Found d d
  unfolding lookup
  Found-self [] h = tt
  Found-self ((k, v) ∷ d) h = (
    ground (arith, ==_refl k),
    All-map _ _ d (λ x q. ground (arith, q, contains-keys k d, e.same_iff k x.0))
        (Found-self d h.1),
  )

  pub Found-remove :
      (k : K) (d l : Dict K V) → contains (keys l) k ≡ false → Found d l → Found (remove k d) l
  Found-remove k d [] h f = tt
  Found-remove k d ((j, v) ∷ l) h f = (
    ground (arith, lookup-remove k j d, e.same_iff k j, e.same_iff j k),
    Found-remove k d l (ground arith) f.1,
  )

pub ruleset dict_laws = (lookup-insert, lookup-remove, lookup-nil)
