-- ===== src/Command/Rounds.antt =====
-- The loop of the test commands of internal/cmd/collection/admin.go and internal/cmd/scan/admin.go, and
-- what they print of the registry.
use Prim.Native.String.{◌++◌ as str_append}
use visus.Prelude.{
  ℕ, zero, suc, ◌+◌, ◌≡◌, ◌≢◌, String, Bool, true, false, ◌||◌, List, [], ◌∷◌, Option, none, some,
  ℤ, pos, negsuc, ◌==◌, nat_eq, if◌then◌else◌, leb, arith, ltb, starts, Bool-cases, inl, inr,
}
use visus.Result.{Op, ok, pure, continue-ne-ok, ◌>>◌}

-- `i <= count || count == 0`.
abbrev pub again : ℤ → ℕ → Bool
again (pos n) i = leb i n || n == 0
again (negsuc n) i = false

module _ {S : Type 0} (count : ℤ) (round : ℕ → Op S (Unit {0})) where
  -- From round `i` on; `none` says that there are more rounds than fuel.
  unfoldable pub rounds : ℕ → ℕ → Op S (Option (Unit {0}))
  rounds zero i = if again count i then pure none else pure (some tt)
  rounds (suc fuel) i =
      let rest = rounds fuel (suc i) in if again count i then (do round i; rest) else pure (some tt)

-- `prometheus.DefaultGatherer`, and families with their names and their text.
pub record Gatherer (World : Type 0) : Type 1 where
  pub Family : Type 0
  pub gather : Op World (List Family)
  pub name : Family → String
  pub text : Family → String

-- The families whose names start with a prefix.
unfoldable pub shown : {F : Type 0} → (F → String) → (F → String) → String → List F → List String
shown name text prefix [] = []
shown name text prefix (mf ∷ mfs) =
    let rest = shown name text prefix mfs in
    if starts prefix (name mf) then text mf ∷ rest else rest

-- `"\n---- %s %s -----\n"`.
abbrev pub heading : String → String → String
heading time name =
    str_append "\n---- " (str_append time (str_append " " (str_append name " -----\n")))

module _ {S : Type 0} (round : ℕ → Op S (Unit {0})) where
  -- A test command that is to run some rounds has no more of them than that.
  pub rounds-ne-none :
      (n fuel i : ℕ) (s : S)
      → ltb n (fuel + i) ≡ true
      → ltb 0 n ≡ true
      → (rounds (pos n) round fuel i s).0 ≢ ok none
  unfolding rounds
  rounds-ne-none n zero i s h p q = elim (Bool-cases (again (pos n) i)) [
    | inl a ↦ ground arith
    | inr a ↦ ground arith
  ]
  rounds-ne-none n (suc fuel) i s h p q = elim (Bool-cases (again (pos n) i)) [
    | inl a ↦
        continue-ne-ok (round i s).0 (λ u. rounds (pos n) round fuel (suc i)) (round i s).1 none
          (λ u s. rounds-ne-none n fuel (suc i) s (ground arith) p) (rw a at q)
    | inr a ↦ ground arith
  ]

  -- One that is to run for ever comes to an end only by an error.
  pub rounds-ne-some : (fuel i : ℕ) (s : S) → (rounds (pos 0) round fuel i s).0 ≢ ok (some tt)
  unfolding rounds
  rounds-ne-some zero i s q = ground arith
  rounds-ne-some (suc fuel) i s q = elim (Bool-cases (again (pos 0) i)) [
    | inl a ↦
        continue-ne-ok (round i s).0 (λ u. rounds (pos 0) round fuel (suc i)) (round i s).1
          (some tt) (λ u s. rounds-ne-some fuel (suc i) s) (rw a at q)
    | inr a ↦ ground arith
  ]
