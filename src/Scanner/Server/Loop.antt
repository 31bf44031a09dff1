-- ===== src/Scanner/Server/Loop.antt =====
-- server.go: the loop of a refresh over all names.
use visus.Prelude.{
  ◌≡◌, refl, ap, sym, ◌∙◌, subst, inl, inr, String, Bool, true, false, ◌&&◌, ◌||◌, List, [], ◌∷◌,
  string_eq, ◌==◌, if◌then◌else◌, arith, Bool-cases, contains,
}
use visus.Result.{Result, ok, err, panic, continue}
use visus.Dict.{lookup}
use visus.Scanner.Server.{Parts, Server, consider, consider_all}
use visus.Scanner.Server.Names.{
  IsSteadyForScans, wanted, SettledName, reached, SettledIn, Considers, consider-Considers,
}

module _ (t : Parts) where
  -- What the loop over the names does.
  pub record ConsidersAll (names keep : List String) (s : Server t)
      (r : Result (List String) × Server t) : Type 0 where
    pub store : r.1.store ≡ s.store
    pub others :
        (k : String) → contains names k ≡ false → lookup k r.1.scanners ≡ lookup k s.scanners
    pub kept :
        (out : List String) (k : String)
        → r.0 ≡ ok out
        → contains out k ≡ (contains keep k || (contains names k && wanted t s.store k))
    pub settled :
        (out : List String) (k : String)
        → r.0 ≡ ok out
        → (contains names k && wanted t s.store k) ≡ true
        → SettledIn t names s k r.1

  SettledName-same :
      (st : t.S) (n : String) (w : t.prometheus.World) (s s' : Server t)
      → IsSteadyForScans t.store st
      → lookup n s'.scanners ≡ lookup n s.scanners
      → SettledName t st n w s
      → SettledName t st n w s'
  SettledName-same st n w s s' h p (scan, e, inl (r, q, u)) =
      let z : lookup scan.name s'.scanners ≡ lookup scan.name s.scanners =
        subst (λ n. lookup n s'.scanners ≡ lookup n s.scanners) (sym (h.named n scan e)) p in
      (scan, e, inl (r, z ∙ q, u))
  SettledName-same st n w s s' h p (scan, e, inr f) = (scan, e, inr f)

  pub SettledIn-same :
      (names : List String) (s0 : Server t) (k : String) (s s' : Server t)
      → IsSteadyForScans t.store s0.store
      → lookup k s'.scanners ≡ lookup k s.scanners
      → SettledIn t names s0 k s
      → SettledIn t names s0 k s'
  SettledIn-same names s0 k s s' h p (before, after, e, z) =
      (before, after, e, SettledName-same s0.store k (reached t before s0).world s s' h p z)

  -- A place further on in the list.
  later :
      (n : String) (names : List String) (s : Server t) (k : String) (last : Server t)
      → (consider t n s).1.store ≡ s.store
      → SettledIn t names (consider t n s).1 k last
      → SettledIn t (n ∷ names) s k last
  later n names s k last q (before, after, e, z) = (
    n ∷ before,
    after,
    ap (λ ns. n ∷ ns) e,
    subst (λ st. SettledName t st k (reached t before (consider t n s).1).world last) q z,
  )

  contains-kept :
      (b : Bool) (n : String) (keep : List String) (k : String)
      → contains (if b then n ∷ keep else keep) k ≡ (b && n == k || contains keep k)
  contains-kept true n keep k = refl
  contains-kept false n keep k = refl

  chained :
      (n : String) (names keep : List String) (s s1 : Server t) (r : Result Bool)
      → IsSteadyForScans t.store s.store
      → (consider t n s).1 ≡ s1
      → Considers t n s (r, s1)
      → ((keep : List String) → ConsidersAll names keep s1 (consider_all t names keep s1))
      → ConsidersAll
          (n ∷ names)
          keep
          s
          (continue r (λ kept. consider_all t names (if kept then n ∷ keep else keep)) s1)
  chained n names keep s s1 (ok b) h same_s c all =
      let ih = all (if b then n ∷ keep else keep) in
      let last = (consider_all t names (if b then n ∷ keep else keep) s1).1 in
      let was = c.kept b refl in
      let at = λ (k : String). ap (λ st. wanted t st k) c.store in
      record {
        store = ih.store ∙ c.store;
        others = λ k p. ih.others k (ground arith) ∙ c.others k (ground arith);
        kept = λ out k e. elim (Bool-cases (n == k)) [
          | inl p ↦
              let of_k = was ∙ ap (wanted t s.store) ((string_eq.same_iff n k).0 p) in
              ground (arith, ih.kept out k e, at k, of_k, contains-kept b n keep k)
          | inr p ↦ ground (arith, ih.kept out k e, at k, contains-kept b n keep k)
        ];
        settled = λ out k e p. elim (Bool-cases (contains names k && wanted t s.store k)) [
          | inl q ↦ later n names s k last (ap (λ w. w.store) same_s ∙ c.store) (
              subst (λ w. SettledIn t names w k last) (sym same_s)
                (ih.settled out k e (rw (at k) q)))
          | inr q ↦
              let absent : contains names k ≡ false = ground arith in
              let here : n == k ≡ true = ground arith in
              let same = (string_eq.same_iff n k).0 here in
              let wants : wanted t s.store k ≡ true = ground arith in
              let kept : ◌≡◌ {A = Result Bool} (ok b) (ok true) =
                ap ok (was ∙ ap (wanted t s.store) same ∙ wants) in
              (
                [],
                names,
                ap (λ n. n ∷ names) same,
                SettledName-same s.store k s.world s1 last h (ih.others k absent)
                    (subst (λ n. SettledName t s.store n s.world s1) same (c.settled kept)),
              )
        ];
      }
  chained n names keep s s1 (err x) h same_s c all = record {
    store = c.store;
    others = λ k p. c.others k (ground arith);
    kept = λ out k e. cc;
    settled = λ out k e. cc;
  }
  chained n names keep s s1 panic h same_s c all = record {
    store = c.store;
    others = λ k p. c.others k (ground arith);
    kept = λ out k e. cc;
    settled = λ out k e. cc;
  }

  pub consider_all-ConsidersAll :
      (names keep : List String) (s : Server t)
      → IsSteadyForScans t.store s.store
      → ConsidersAll names keep s (consider_all t names keep s)
  unfolding consider_all
  consider_all-ConsidersAll [] keep s h = record {
    store = refl;
    others = λ k p. refl;
    kept = λ out k e. let z : keep ≡ out = cc in rw (sym z) (ground arith);
    settled = λ out k e p. cc;
  }
  consider_all-ConsidersAll (n ∷ names) keep s h =
      let c = consider-Considers t n s h in
      chained n names keep s (consider t n s).1 (consider t n s).0 h refl c (λ keep.
        consider_all-ConsidersAll names keep (consider t n s).1
          (subst (IsSteadyForScans t.store) (sym c.store) h))
