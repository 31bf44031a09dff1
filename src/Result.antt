-- ===== src/Result.antt =====
-- What a Go call comes to: a value, an `error`, or a panic (a nil pointer is dereferenced); and
-- calls that change a state. What was written before an error stays written.
use visus.Prelude.{◌≡◌, ◌≢◌, refl, ap, String, Option, none, some}

pub data Result {ℓ} (A : Type ℓ) : Type ℓ where
  ok : A → Result A
  err : String → Result A
  panic : Result A

abbrev pub Op {ℓ κ} : Type ℓ → Type κ → Type (ℓ ⊔ κ)
Op S A = S → Result A × S

-- A pointer is an `Option`; reading through `nil` panics.
abbrev pub deref {ℓ} : {A : Type ℓ} → Option A → Result A
deref none = panic
deref (some a) = ok a

-- An error that is not nil.
abbrev pub raise {ℓ} : {A : Type ℓ} → Option String → A → Result A
raise none a = ok a
raise (some e) a = err e

-- `x, _ := f()` for a pointer result, which is nil beside an error.
abbrev pub or_nil {ℓ} : {A : Type ℓ} → Result (Option A) → Result (Option A)
or_nil (ok a) = ok a
or_nil (err e) = ok none
or_nil panic = panic

-- A call whose error the caller only looks at: `none` stands for it. A panic goes on.
abbrev pub attempted {ℓ} : {A : Type ℓ} → Result A → Result (Option A)
attempted (ok a) = ok (some a)
attempted (err e) = ok none
attempted panic = panic

-- `if err != nil { return nil, err }` after a call.
abbrev pub chain {ℓ κ} : {A : Type ℓ} {B : Type κ} → Result A → (A → Result B) → Result B
chain (ok a) f = f a
chain (err e) f = err e
chain panic f = panic

pub chain-eq-ok {ℓ κ} :
    {A : Type ℓ} {B : Type κ} (r : Result A) (f : A → Result B) {b : B}
    → chain r f ≡ ok b
    → (a : A) × (r ≡ ok a) × (f a ≡ ok b)
chain-eq-ok (ok a) f h = (a, refl, h)
chain-eq-ok (err e) f h = cc
chain-eq-ok panic f h = cc

module _ {ℓ κ} {S : Type ℓ} {A : Type κ} where
  abbrev pub pure : A → Op S A
  pure a s = (ok a, s)

  abbrev pub lift : Result A → Op S A
  lift r s = (r, s)

  abbrev pub gets : (S → A) → Op S A
  gets f s = (ok (f s), s)

  abbrev pub attempt : Op S A → Op S (Option A)
  attempt m s = let (r, s') = m s in (attempted r, s')

module _ {ℓ} {S : Type ℓ} where
  abbrev pub modify : (S → S) → Op S (Unit {0})
  modify f s = (ok tt, f s)

module _ {ℓ κ μ} {S : Type ℓ} {A : Type κ} {B : Type μ} where
  abbrev pub continue : Result A → (A → Op S B) → Op S B
  continue (ok a) f s = f a s
  continue (err e) f s = (err e, s)
  continue panic f s = (panic, s)

  -- What holds of the state before the rest of a block, and after it, holds whether or not it runs.
  pub continue_inv {ν} :
      (P : S → Type ν) (r : Result A) (f : A → Op S B) (s : S)
      → P s
      → ((a : A) → P (f a s).1)
      → P (continue r f s).1
  continue_inv P (ok a) f s h k = k a
  continue_inv P (err e) f s h k = h
  continue_inv P panic f s h k = h

  -- A result that the rest of a block never gives is none of the block.
  pub continue-ne-ok :
      (r : Result A) (f : A → Op S B) (s : S) (b : B)
      → ((a : A) (s : S) → (f a s).0 ≢ ok b)
      → (continue r f s).0 ≢ ok b
  continue-ne-ok (ok a) f s b h q = h a s q
  continue-ne-ok (err e) f s b h q = cc
  continue-ne-ok panic f s b h q = cc

  infixl 5 ◌>>=◌
  abbrev pub ◌>>=◌ : Op S A → (A → Op S B) → Op S B
  ◌>>=◌ m f s = let (r, s') = m s in continue r f s'

  -- A block that succeeds runs its first call with success, and goes on from there.
  pub >>=-eq-ok :
      (m : Op S A) (f : A → Op S B) (s : S) {b : B}
      → ((m >>= f) s).0 ≡ ok b
      → (a : A) × ((m s).0 ≡ ok a) × ((m >>= f) s ≡ f a (m s).1)
  >>=-eq-ok m f s h = go (m s).0 refl h
    where
      go :
          {b : B} (r : Result A)
          → (m s).0 ≡ r
          → (continue r f (m s).1).0 ≡ ok b
          → (a : A) × ((m s).0 ≡ ok a) × ((m >>= f) s ≡ f a (m s).1)
      go (ok a) e q = (a, e, ap (λ r. continue r f (m s).1) e)
      go (err x) e q = cc
      go panic e q = cc

module _ {ℓ κ} {S : Type ℓ} {B : Type κ} where
  infixl 5 ◌>>◌
  abbrev pub ◌>>◌ : Op S (Unit {0}) → Op S B → Op S B
  m >> k = m >>= λ _. k
