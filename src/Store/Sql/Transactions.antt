-- ===== src/Store/Sql/Transactions.antt =====
-- A transaction whose body takes what it sees from one state to a related one either leaves the
-- tables alone, or takes them to a related state.
use visus.Prelude.{◌≡◌, refl, ◌∙◌, ap, ◌⊎◌, inl, inr, subst}
use visus.Result.{Result, Op, ok, err, panic, pure, ◌>>◌, continue, >>=-eq-ok, continue_inv}
use visus.External.Sql.{Moment, Connection, IsTransactional}
use visus.Store.Sql.Statements.{Tables}
use visus.Store.Sql.{in_transaction, rolled_back}

module _ (d : Connection Tables) (laws : IsTransactional d) where
  pub record Follows (body : Op d.Conn (Unit {0})) (R : Tables → Tables → Type 0) : Type 0 where
    pub keeps : (c : d.Conn) → d.tables (body c).1 ≡ d.tables c
    pub relates : (c : d.Conn) → (body c).0 ≡ ok tt → R (d.opened c) (d.opened (body c).1)

  pub exec_in-Follows :
      (f : Moment → Tables → Result Tables)
      → Follows (d.exec_in f) (λ t u. (m : Moment) × (f m t ≡ ok u))
  exec_in-Follows f = record { keeps = laws.exec_in_keeps f; relates = laws.exec_in_done f }

  pub pure-Follows : Follows (pure tt) (λ t u. t ≡ u)
  pure-Follows = record { keeps = λ c. refl; relates = λ c h. refl }

  pub then-Follows :
      (a b : Op d.Conn (Unit {0})) (R S : Tables → Tables → Type 0)
      → Follows a R
      → Follows b S
      → Follows (a >> b) (λ t v. (u : Tables) × R t u × S u v)
  then-Follows a b R S h k = record {
    keeps = λ c.
        continue_inv (λ c'. d.tables c' ≡ d.tables c) (a c).0 (λ _. b) (a c).1 (h.keeps c)
          (λ x. k.keeps (a c).1 ∙ h.keeps c);
    relates = λ c e.
        let (x, p, q) = >>=-eq-ok a (λ _. b) c e in
        let done : (b (a c).1).0 ≡ ok tt = cc in
        let end : (a >> b) c ≡ b (a c).1 = q in
        rw end (d.opened (a c).1, h.relates c p, k.relates (a c).1 done);
  }

  pub weaken :
      {R S : Tables → Tables → Type 0} (body : Op d.Conn (Unit {0}))
      → ((t u : Tables) → R t u → S t u)
      → Follows body R
      → Follows body S
  weaken body f h = record { keeps = h.keeps; relates = λ c e. f _ _ (h.relates c e) }

  pub record IsAtomic (m : Op d.Conn (Unit {0})) (R : Tables → Tables → Type 0) : Type 0 where
    pub either : (c : d.Conn) → (d.tables (m c).1 ≡ d.tables c) ⊎ R (d.tables c) (d.tables (m c).1)
    pub done : (c : d.Conn) → (m c).0 ≡ ok tt → R (d.tables c) (d.tables (m c).1)

  pub IsAtomic-weaken :
      {R S : Tables → Tables → Type 0} (m : Op d.Conn (Unit {0}))
      → ((t u : Tables) → R t u → S t u)
      → IsAtomic m R
      → IsAtomic m S
  IsAtomic-weaken m f h = record {
    either = λ c. elim (h.either c) [ inl p ↦ inl p | inr p ↦ inr (f _ _ p) ];
    done = λ c e. f _ _ (h.done c e);
  }

  module _ (body : Op d.Conn (Unit {0})) (R : Tables → Tables → Type 0) (h : Follows body R) where
    -- The statements and the commit, at a connection where the transaction has begun.
    committed :
        (c c1 : d.Conn)
        → d.tables c1 ≡ d.tables c
        → d.opened c1 ≡ d.tables c
        → (d.tables ((body >> d.commit) c1).1 ≡ d.tables c)
          ⊎ R (d.tables c) (d.tables ((body >> d.commit) c1).1)
    committed c c1 p q = go (body c1).0 refl
      where
        go :
            (r : Result (Unit {0}))
            → (body c1).0 ≡ r
            → (d.tables (continue r (λ _. d.commit) (body c1).1).1 ≡ d.tables c)
              ⊎ R (d.tables c) (d.tables (continue r (λ _. d.commit) (body c1).1).1)
        go (ok a) e = elim (laws.commit_either (body c1).1) [
          | inl z ↦ inl (z ∙ h.keeps c1 ∙ p)
          | inr z ↦ inr (rw z (subst (λ t. R t (d.opened (body c1).1)) q (h.relates c1 e)))
        ]
        go (err x) e = inl (h.keeps c1 ∙ p)
        go panic e = inl (h.keeps c1 ∙ p)

    -- A call of the store in a transaction takes effect as a whole or not at all, also where it
    -- reports an error; where it reports none, it took effect.
    pub in_transaction-IsAtomic : IsAtomic (in_transaction d body) R
    unfolding in_transaction
    in_transaction-IsAtomic = record {
      either = λ c. begun c (d.begin c).0 refl;
      done = λ c e.
          let (x, p, q) = >>=-eq-ok d.begin (λ _ c. rolled_back d ((body >> d.commit) c)) c e in
          let c1 = (d.begin c).1 in
          let end : in_transaction d body c ≡ rolled_back d ((body >> d.commit) c1) = q in
          let all : ((body >> d.commit) c1).0 ≡ ok tt = cc in
          let (y, p', q') = >>=-eq-ok body (λ _. d.commit) c1 all in
          let last : (body >> d.commit) c1 ≡ d.commit (body c1).1 = q' in
          let commits : (d.commit (body c1).1).0 ≡ ok tt = cc in
          let ends : d.tables (in_transaction d body c).1 ≡ d.opened (body c1).1 =
            ap (λ z. d.tables z.1) end
            ∙ laws.rollback_keeps _
            ∙ ap (λ z. d.tables z.1) last
            ∙ laws.commit_done _ commits in
          rw ends (subst (λ t. R t (d.opened (body c1).1)) (laws.begin_sees c p) (h.relates c1 p'));
    }
      where
        begun :
            (c : d.Conn) (r : Result (Unit {0}))
            → (d.begin c).0 ≡ r
            → (d.tables (continue r (λ _ c. rolled_back d ((body >> d.commit) c)) (d.begin c).1).1
                ≡ d.tables c)
              ⊎ R (d.tables c) (
                  d.tables
                    (continue r (λ _ c. rolled_back d ((body >> d.commit) c)) (d.begin c).1).1)
        begun c (ok a) e =
            rw (laws.rollback_keeps ((body >> d.commit) (d.begin c).1).1)
              (committed c (d.begin c).1 (laws.begin_keeps c) (laws.begin_sees c e))
        begun c (err x) e = inl (laws.begin_keeps c)
        begun c panic e = inl (laws.begin_keeps c)
