-- ===== src/Store/Sql/Rows.antt =====
-- Rows that belong to an owner, as the tables of metrics and of patterns keep them.
use visus.Prelude.{
  sym, ◌≡◌, refl, String, false, ◌||◌, List, [], ◌∷◌, ◌++◌, map, arith, if◌then◌else◌, string_eq,
  ◌==◌, contains, Distinct, All, All-map, Bool-cases, inl, inr, ==_refl, ◌∙◌,
}
use mathlib.Core.List.{append-nil, append_assoc}
use visus.Result.{Result, ok, chain, chain-eq-ok}
use visus.Dict.{Dict, remove}
use visus.Store.Sql.Statements.{owned_by, taken, insert_row}
use visus.Store.Sql.{read_rows}

module _ {ℓ} {A : Type ℓ} where
  pub owned_by-append :
      (k : String) (s t : Dict String A) → owned_by k (s ++ t) ≡ owned_by k s ++ owned_by k t
  unfolding owned_by
  owned_by-append k [] t = refl
  owned_by-append k ((j, a) ∷ s) t = elim (Bool-cases (j == k)) [
    | inl p ↦ rw (p, owned_by-append k s t) refl
    | inr p ↦ rw (p, owned_by-append k s t) refl
  ]

  pub owned_by-remove :
      (k j : String) (t : Dict String A)
      → owned_by j (remove k t) ≡ (if k == j then [] else owned_by j t)
  unfolding owned_by remove
  owned_by-remove k j [] = ground arith
  owned_by-remove k j ((i, a) ∷ t) = ground (
    arith,
    string_eq.same_iff k j,
    string_eq.same_iff i k,
    string_eq.same_iff i j,
    owned_by-remove k j t,
  )

  module _ (name_of : A → String) where
    -- A row that could be inserted is the last of its owner.
    pub owned_by-insert_row :
        (k j : String) (a : A) (t u : Dict String A)
        → insert_row name_of k a t ≡ ok u
        → owned_by j u ≡ owned_by j t ++ (if k == j then a ∷ [] else [])
    unfolding insert_row owned_by
    owned_by-insert_row k j a t u h = elim (Bool-cases (taken name_of k (name_of a) t)) [
      | inl p ↦ cc
      | inr p ↦
          let z : t ++ ((k, a) ∷ []) ≡ u = cc in rw (sym z, owned_by-append j t ((k, a) ∷ [])) refl
    ]

    pub taken-owned_by :
        (k n : String) (t : Dict String A)
        → taken name_of k n t ≡ contains (map name_of (owned_by k t)) n
    unfolding taken owned_by
    taken-owned_by k n [] = refl
    taken-owned_by k n ((j, a) ∷ t) = elim (Bool-cases (j == k)) [
      | inl p ↦ rw (p, taken-owned_by k n t) refl
      | inr p ↦ rw (p, taken-owned_by k n t) refl
    ]

  pub read_rows-eq-ok : (rs : List (Result A)) (xs : List A) → read_rows rs ≡ ok xs → rs ≡ map ok xs
  unfolding read_rows
  read_rows-eq-ok [] xs h = let z : ◌≡◌ {A = List A} [] xs = cc in rw (sym z) refl
  read_rows-eq-ok (r ∷ rs) xs h =
      let (x, p, q) = chain-eq-ok r (λ x. chain (read_rows rs) (λ ys. ok (x ∷ ys))) h in
      let (ys, p', q') = chain-eq-ok (read_rows rs) (λ ys. ok (x ∷ ys)) q in
      let z : x ∷ ys ≡ xs = cc in
      let tail = read_rows-eq-ok rs ys p' in rw (sym z) (rw (p, tail) refl)

module _ {ℓ} {A : Type ℓ} (name_of : A → String) (k : String) where
  -- The rows `xs` of the owner `k` were added after those of `t`, which gave `u`.
  pub record Added (xs : List A) (t u : Dict String A) : Type ℓ where
    pub owned : (j : String) → owned_by j u ≡ owned_by j t ++ (if k == j then xs else [])
    pub fresh : All (λ x. contains (map name_of (owned_by k t)) (name_of x) ≡ false) xs
    pub distinct : Distinct (map name_of xs)

  pub Added-nil : (t : Dict String A) → Added [] t t
  Added-nil t = record {
    owned = λ j. elim (Bool-cases (k == j)) [
      | inl p ↦ rw (p, append-nil (owned_by j t)) refl
      | inr p ↦ rw (p, append-nil (owned_by j t)) refl
    ];
    fresh = tt;
    distinct = tt;
  }

  contains-snoc :
      (xs : List A) (x : A) (n : String)
      → contains (map name_of (xs ++ (x ∷ []))) n ≡ (contains (map name_of xs) n || name_of x == n)
  contains-snoc [] x n = ground arith
  contains-snoc (y ∷ xs) x n = ground (arith, contains-snoc xs x n)

  insert_row-fresh :
      (x : A) (t u : Dict String A)
      → insert_row name_of k x t ≡ ok u
      → contains (map name_of (owned_by k t)) (name_of x) ≡ false
  unfolding insert_row
  insert_row-fresh x t u h = elim (Bool-cases (taken name_of k (name_of x) t)) [
    | inl p ↦ cc
    | inr p ↦ sym (taken-owned_by name_of k (name_of x) t) ∙ p
  ]

  apart :
      (xs : List A) (x : A)
      → All (λ y. name_of x == name_of y ≡ false) xs
      → contains (map name_of xs) (name_of x) ≡ false
  apart [] x h = refl
  apart (y ∷ xs) x h = ground (
    arith,
    h.0,
    apart xs x h.1,
    string_eq.same_iff (name_of x) (name_of y),
    string_eq.same_iff (name_of y) (name_of x),
  )

  pub Added-cons :
      (x : A) (xs : List A) (t u v : Dict String A)
      → insert_row name_of k x t ≡ ok u
      → Added xs u v
      → Added (x ∷ xs) t v
  Added-cons x xs t u v h r = record {
    owned = λ j. elim (Bool-cases (k == j)) [
      | inl p ↦
          rw (r.owned j, owned_by-insert_row name_of k j x t u h, p)
            (append_assoc (owned_by j t) (x ∷ []) xs)
      | inr p ↦
          rw (r.owned j, owned_by-insert_row name_of k j x t u h, p)
            (append_assoc (owned_by j t) [] [])
    ];
    fresh = (insert_row-fresh x t u h, All-map _ _ xs (λ y e. ground (arith, e, later y)) r.fresh);
    distinct =
        (apart xs x (All-map _ _ xs (λ y e. ground (arith, e, later y)) r.fresh), r.distinct);
  }
    where
      later :
          (y : A)
          → contains (map name_of (owned_by k u)) (name_of y)
            ≡ (contains (map name_of (owned_by k t)) (name_of y) || name_of x == name_of y)
      later y =
          rw (owned_by-insert_row name_of k k x t u h, ==_refl k)
            (contains-snoc (owned_by k t) x (name_of y))

  -- Rows that were added after the owner's were deleted are all that it has.
  pub Added-remove :
      (xs : List A) (t u : Dict String A)
      → Added xs (remove k t) u
      → (j : String) → owned_by j u ≡ (if k == j then xs else owned_by j t)
  Added-remove xs t u h j = elim (Bool-cases (k == j)) [
    | inl p ↦ rw (h.owned j, owned_by-remove k j t, p) refl
    | inr p ↦ rw (h.owned j, owned_by-remove k j t, p) (append-nil (owned_by j t))
  ]
