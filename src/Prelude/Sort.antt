-- ===== src/Prelude/Sort.antt =====
-- Insertion sort by a Boolean order: `slices.Sort` and `slices.SortFunc`.
use mathlib.Core.Path.{◌≡◌, refl, ◌∙◌}
use mathlib.Core.Bool.{Bool, true, false, ◌||◌}
use mathlib.Core.Logic.{inl, inr}
use mathlib.Core.List.{List, [], ◌∷◌, Perm}
use mathlib.Core.List.Perm
use native.Mathlib.Omega.{arith}
use visus.Prelude.Tests.{Eq, ◌==◌, if◌then◌else◌, Bool-cases}
use visus.Prelude.Lists.{All, All-map, contains, Distinct}

-- An order that sorting can rely on.
pub record IsOrder {ℓ} {A : Type ℓ} (le : A → A → Bool) : Type ℓ where
  pub total : (a b : A) → le a b ≡ false → le b a ≡ true
  pub trans : (a b c : A) → le a b ≡ true → le b c ≡ true → le a c ≡ true

module _ {ℓ} {A : Type ℓ} (le : A → A → Bool) where
  unfoldable pub insert_sorted : A → List A → List A
  insert_sorted a [] = a ∷ []
  insert_sorted a (x ∷ xs) = if le a x then a ∷ x ∷ xs else x ∷ insert_sorted a xs

  unfoldable pub sort : List A → List A
  unfolding insert_sorted
  sort [] = []
  sort (x ∷ xs) = insert_sorted x (sort xs)

  -- Each element is below all that follow it.
  abbrev pub IsSorted : List A → Type 0
  IsSorted [] = Unit
  IsSorted (x ∷ xs) = All (λ y. le x y ≡ true) xs × IsSorted xs

  insert_sorted-perm : (a : A) (xs : List A) → Perm (insert_sorted a xs) (a ∷ xs)
  unfolding insert_sorted
  insert_sorted-perm a [] = Perm.refl _
  insert_sorted-perm a (x ∷ xs) = elim (Bool-cases (le a x)) [
    | inl p ↦ rw p (Perm.refl _)
    | inr p ↦ rw p (Perm.trans (Perm.cons x (insert_sorted-perm a xs)) (Perm.swap a x xs))
  ]

  pub sort-perm : (xs : List A) → Perm (sort xs) xs
  unfolding sort
  sort-perm [] = Perm.refl _
  sort-perm (x ∷ xs) = Perm.trans (insert_sorted-perm x (sort xs)) (Perm.cons x (sort-perm xs))

  All-insert_sorted {κ} :
      (P : A → Type κ) (a : A) (xs : List A) → P a → All P xs → All P (insert_sorted a xs)
  unfolding insert_sorted
  All-insert_sorted P a [] h hs = (h, tt)
  All-insert_sorted P a (x ∷ xs) h hs = elim (Bool-cases (le a x)) [
    | inl p ↦ rw p (h, hs)
    | inr p ↦ rw p (hs.0, All-insert_sorted P a xs h hs.1)
  ]

  pub All-sort {κ} : (P : A → Type κ) (xs : List A) → All P xs → All P (sort xs)
  unfolding sort
  All-sort P [] h = tt
  All-sort P (x ∷ xs) h = All-insert_sorted P x (sort xs) h.0 (All-sort P xs h.1)

  insert_sorted-IsSorted :
      (a : A) (xs : List A) → IsOrder le → IsSorted xs → IsSorted (insert_sorted a xs)
  unfolding insert_sorted
  insert_sorted-IsSorted a [] o s = (tt, tt)
  insert_sorted-IsSorted a (x ∷ xs) o s = elim (Bool-cases (le a x)) [
    | inl p ↦ rw p ((p, All-map _ _ xs (λ y q. o.trans a x y p q) s.0), s)
    | inr p ↦ rw p (
      All-insert_sorted (λ y. le x y ≡ true) a xs (o.total a x p) s.0,
      insert_sorted-IsSorted a xs o s.1,
    )
  ]

  pub sort-IsSorted : (xs : List A) → IsOrder le → IsSorted (sort xs)
  unfolding sort
  sort-IsSorted [] o = tt
  sort-IsSorted (x ∷ xs) o = insert_sorted-IsSorted x (sort xs) o (sort-IsSorted xs o)

module _ {ℓ} {A : Type ℓ} ⦃e : Eq A⦄ (le : A → A → Bool) where
  contains-insert_sorted :
      (a : A) (xs : List A) (b : A) → contains (insert_sorted le a xs) b ≡ (a == b || contains xs b)
  unfolding insert_sorted
  contains-insert_sorted a [] b = refl
  contains-insert_sorted a (x ∷ xs) b = ground (arith, contains-insert_sorted a xs b)

  pub contains-sort : (xs : List A) (b : A) → contains (sort le xs) b ≡ contains xs b
  unfolding sort
  contains-sort [] b = refl
  contains-sort (x ∷ xs) b =
      ground (arith, contains-insert_sorted x (sort le xs) b, contains-sort xs b)

  insert_sorted-Distinct :
      (a : A) (xs : List A) → contains xs a ≡ false → Distinct xs → Distinct (insert_sorted le a xs)
  unfolding insert_sorted
  insert_sorted-Distinct a [] n d = (refl, tt)
  insert_sorted-Distinct a (x ∷ xs) n d = ground (
    arith,
    insert_sorted-Distinct a xs,
    contains-insert_sorted a xs x,
    e.same_iff x a,
    e.same_iff a x,
  )

  pub sort-Distinct : (xs : List A) → Distinct xs → Distinct (sort le xs)
  unfolding sort
  sort-Distinct [] d = tt
  sort-Distinct (x ∷ xs) d =
      insert_sorted-Distinct x (sort le xs) (contains-sort xs x ∙ d.0) (sort-Distinct xs d.1)
