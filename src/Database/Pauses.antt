-- ===== src/Database/Pauses.antt =====
-- factory.go: the pauses between the attempts to open a pool.
use visus.Prelude.{
  ℕ, zero, suc, ◌+◌, ◌*◌, ◌≤◌, ◌≡◌, refl, sym, ap, ◌∙◌, String, List, [], ◌∷◌, ◌++◌, Option, none,
  some, ltb, All, arith, Bool-cases, inl, inr, length, length-append,
}
use mathlib.Core.List.{append-nil, append_assoc}
use visus.Result.{Result, ok, err, panic, raise, pure, continue}
use visus.Database.Factory.{
  Pgxpool, Settings, Opening, next_pause, tried, round, connect, connect_and_ping, pgx_pool,
}

-- A multiple of five seconds, up to a minute.
abbrev pub IsPause : ℕ → Type 0
IsPause t = (k : ℕ) × (t ≡ 5 * k) × (1 ≤ k) × (k ≤ 12)

next_pause-IsPause : (t : ℕ) → IsPause t → IsPause (next_pause t)
next_pause-IsPause t (k, e, l, u) = elim (Bool-cases (ltb t 60)) [
  | inl q ↦ let z : suc k ≤ 12 = ground arith in rw q (suc k, omega arith, omega arith, z)
  | inr q ↦ rw q (k, e, l, u)
]

module _ (p : Pgxpool) where
  -- What a part of the loop adds to the pauses, of which there are at most so many.
  abbrev pub Adds : ℕ → Opening p → Opening p → Type 0
  Adds n s s' =
      (added : List ℕ) × (s'.pauses ≡ s.pauses ++ added) × All IsPause added × (length added ≤ n)

  Adds-nil : (n : ℕ) (s : Opening p) (w : p.World) → Adds n s (record s { world = w })
  Adds-nil n s w = ([], sym (append-nil s.pauses), tt, omega arith)

  All-append : (xs ys : List ℕ) → All IsPause xs → All IsPause ys → All IsPause (xs ++ ys)
  All-append [] ys h k = k
  All-append (x ∷ xs) ys h k = (h.0, All-append xs ys h.1 k)

  Adds-trans : (m n : ℕ) (s s1 s2 : Opening p) → Adds m s s1 → Adds n s1 s2 → Adds (m + n) s s2
  Adds-trans m n s s1 s2 (xs, e, a, l) (ys, f, b, k) = (
    xs ++ ys,
    f ∙ ap (λ zs. zs ++ ys) e ∙ append_assoc s.pauses xs ys,
    All-append xs ys a b,
    omega (arith, length-append xs ys),
  )

  raised-pauses :
      (e : Option String) (s : Opening p)
      → (continue (raise e tt) (λ (u : Unit {0}). pure {A = Option p.Handle} none) s).1.pauses
        ≡ s.pauses
  raised-pauses none s = refl
  raised-pauses (some x) s = refl

  tried-Adds :
      (t : ℕ) (s : Opening p) (r : Result p.Handle × p.World)
      → IsPause t
      → Adds 1 s (tried p t s r).1
  tried-Adds t s (ok h, w) i = Adds-nil 1 s w
  tried-Adds t s (err e, w) i = (t ∷ [], raised-pauses (p.sleep t w).0 _, (i, tt), omega arith)
  tried-Adds t s (panic, w) i = Adds-nil 1 s w

  abbrev goes_on :
      Settings → ℕ → ℕ → Result (Option p.Handle) → Opening p → Result (Option p.Handle) × Opening p
  goes_on c fuel t r s =
      continue r (λ h. elim h [ some h ↦ pure (some h) | none ↦ connect p c fuel (next_pause t) ]) s

  goes_on-Adds :
      (c : Settings) (fuel t : ℕ) (r : Result (Option p.Handle)) (s s1 : Opening p)
      → Adds 1 s s1
      → Adds fuel s1 (connect p c fuel (next_pause t) s1).1
      → Adds (suc fuel) s (goes_on c fuel t r s1).1
  goes_on-Adds c fuel t (ok none) s s1 h k =
      let (xs, e, a, l) = Adds-trans 1 fuel s s1 (connect p c fuel (next_pause t) s1).1 h k in
      (xs, e, a, omega arith)
  goes_on-Adds c fuel t (ok (some x)) s s1 (xs, e, a, l) k = (xs, e, a, omega arith)
  goes_on-Adds c fuel t (err x) s s1 (xs, e, a, l) k = (xs, e, a, omega arith)
  goes_on-Adds c fuel t panic s s1 (xs, e, a, l) k = (xs, e, a, omega arith)

  connect-Adds :
      (c : Settings) (fuel t : ℕ) (s : Opening p) → IsPause t → Adds fuel s (connect p c fuel t s).1
  unfolding connect
  connect-Adds c zero t s i = Adds-nil 0 s s.world
  connect-Adds c (suc fuel) t s i =
      goes_on-Adds c fuel t (round p c t s).0 s (round p c t s).1
        (tried-Adds t s (connect_and_ping p c s.world) i)
        (connect-Adds c fuel (next_pause t) (round p c t s).1 (next_pause-IsPause t i))

  -- However often the loop of `pgxPool` has tried to open a pool, and whatever came of it, each pause was
  -- announced as a multiple of five seconds, from five to sixty, and there was at most one for each
  -- attempt.
  pub pgx_pool-Adds :
      (c : Settings) (fuel : ℕ) (s : Opening p) → Adds fuel s (pgx_pool p c fuel s).1
  unfolding pgx_pool
  pgx_pool-Adds c fuel s = connect-Adds c fuel 5 s (1, refl, omega arith, omega arith)
