-- ===== src/Store/Sql/Scans.antt =====
-- The writes of scan.go: a scan is put or deleted as a whole.
use visus.Prelude.{
  ◌≡◌, refl, ◌∙◌, ap, sym, subst, String, List, [], ◌∷◌, map, string_eq, nat_eq, ◌==◌, Distinct,
  Bool-cases, inl, inr,
}
use visus.Result.{Result, ok, err, panic}
use visus.Dict.{Dict, lookup, insert, remove, lookup-insert, lookup-remove}
use visus.External.Sql.{Moment, Connection, IsTransactional}
use visus.Store.Types.{Pattern, Scan, Pattern}
use visus.Store.Sql.Statements.{
  Tables, owned_by, insert_row, scan_row, scan_row, delete_patterns, delete_scan_row, upsert_scan,
  with_patterns, with_patterns, insert_pattern, insert_pattern,
}
use visus.Store.Sql
use visus.Store.Sql.{insert_patterns, insert_patterns, read_histogram}
use visus.Store.Sql.Rows.{Added, Added-nil, Added-cons, owned_by-remove, Added-remove}
use visus.Store.Sql.Transactions.{
  weaken, Follows, exec_in-Follows, pure-Follows, then-Follows, IsAtomic, in_transaction-IsAtomic,
}
use visus.Store.Sql.View.{Write, join_collection, read_node}
use visus.Store.Sql.Effects.{SameView-eq, Does}

-- Only rows of `xs` were added to the table of patterns.
abbrev AddedPatterns : String → List Pattern → Tables → Tables → Type 0
AddedPatterns name xs t u =
    (u ≡ record t { patterns = u.patterns }) × Added (λ a. a.name) name xs t.patterns u.patterns

with_patterns-eq-ok :
    (t u : Tables) (r : Result (Dict String Pattern))
    → with_patterns t r ≡ ok u
    → (d : Dict String Pattern) × (r ≡ ok d) × (record t { patterns = d } ≡ u)
with_patterns-eq-ok t u (ok d) h = (d, refl, let z : record t { patterns = d } ≡ u = cc in z)
with_patterns-eq-ok t u (err e) h = cc
with_patterns-eq-ok t u panic h = cc

AddedPatterns-cons :
    (name : String) (a : Pattern) (xs : List Pattern) (m : Moment) (t u v : Tables)
    → insert_pattern name a m t ≡ ok u
    → AddedPatterns name xs u v
    → AddedPatterns name (a ∷ xs) t v
AddedPatterns-cons name a xs m t u v h k =
    let (d, p, q) = with_patterns-eq-ok t u (insert_row (λ x. x.name) name a t.patterns) h in
    let k' = subst (λ w. AddedPatterns name xs w v) (sym q) k in
    (k'.0, Added-cons (λ x. x.name) name a xs t.patterns d v.patterns p k'.1)

delete_scan-Does :
    (name : String) (m : Moment) (t : Tables)
    → Does
        (Write.delete_scan name)
        t
        (record t { patterns = remove name t.patterns; scans = remove name t.scans })
delete_scan-Does name m t = (
  m,
  SameView-eq _ _ (record {
    scans = λ k. elim (Bool-cases (name == k)) [
      | inl p ↦ rw (lookup-remove name k t.scans, p) refl
      | inr p ↦ rw (lookup-remove name k t.scans, owned_by-remove name k t.patterns, p) refl
    ];
    histograms = λ k. refl;
    collections = λ k. refl;
    nodes = λ k. refl;
  }),
)

put_scan-Does :
    (c : Scan) (m : Moment) (t u v : Tables)
    → record t { patterns = remove c.name t.patterns; scans = insert c.name (scan_row c m) t.scans }
      ≡ u
    → AddedPatterns c.name c.patterns u v
    → Does (Write.put_scan c) t v
put_scan-Does c m t u v e (only, added) =
    let same : v
        ≡ record t { patterns = v.patterns; scans = insert c.name (scan_row c m) t.scans } =
      only ∙ ap {A = Tables} {B = Tables} (λ w. record w { patterns = v.patterns }) (sym e) in
    let from =
      subst (λ d. Added (λ a. a.name) c.name c.patterns d v.patterns) (ap (λ w. w.patterns) (sym e))
        added in
    let rows = Added-remove (λ a. a.name) c.name c.patterns t.patterns v.patterns from in
    (
      m,
      SameView-eq _ _ (record {
        scans = λ k. elim (Bool-cases (c.name == k)) [
          | inl p ↦
              let q : k ≡ c.name = sym ((string_eq.same_iff c.name k).0 p) in
              rw
                (
                  ap (λ w. w.scans) same,
                  lookup-insert c.name k (scan_row c m) t.scans,
                  rows k,
                  p,
                  q,
                )
                refl
          | inr p ↦
              rw (ap (λ w. w.scans) same, lookup-insert c.name k (scan_row c m) t.scans, rows k, p)
                refl
        ];
        histograms = λ k. ap (λ w. read_histogram k (lookup k w.histograms)) same;
        collections =
            λ k. ap (λ w. join_collection k (lookup k w.collections) (owned_by k w.metrics)) same;
        nodes = λ k. ap (λ w. read_node k (lookup k w.nodes)) same;
      }),
    )

module _ (d : Connection Tables) (laws : IsTransactional d) where
  insert_patterns-Follows :
      (name : String) (xs : List Pattern)
      → Follows d laws (insert_patterns d name xs) (AddedPatterns name xs)
  unfolding insert_patterns
  insert_patterns-Follows name [] =
      weaken d laws _
        (λ t u e. subst (AddedPatterns name [] t) e (refl, Added-nil (λ a. a.name) name t.patterns))
        (pure-Follows d laws)
  insert_patterns-Follows name (a ∷ xs) =
      weaken d laws _ (λ t v (u, (m, p), q). AddedPatterns-cons name a xs m t u v p q)
        (then-Follows d laws _ _ _ _ (exec_in-Follows d laws (insert_pattern name a))
          (insert_patterns-Follows name xs))

  -- A scan that is put has no two patterns of one name.
  pub put_scan-IsAtomic :
      (c : Scan)
      → IsAtomic d laws
          (Sql.put_scan d c)
          (λ t u. Does (Write.put_scan c) t u × Distinct (map (λ a. a.name) c.patterns))
  unfolding Sql.put_scan
  put_scan-IsAtomic c = in_transaction-IsAtomic d laws _ _ (
      weaken d laws _
        (λ t v (u1, (m1, p1), (u2, (m2, p2), q)).
          let z1 : record t { patterns = remove c.name t.patterns } ≡ u1 = cc in
          let z2 : record u1 { scans = insert c.name (scan_row c m2) u1.scans } ≡ u2 = cc in
          let e =
            ap {A = Tables} {B = Tables}
              (λ w. record w { scans = insert c.name (scan_row c m2) w.scans }) z1 in
          (put_scan-Does c m2 t u2 v (e ∙ z2) q, q.1.distinct))
        (then-Follows d laws _ _ _ _ (exec_in-Follows d laws (delete_patterns c.name)) (
          then-Follows d laws _ _ _ _ (exec_in-Follows d laws (upsert_scan c))
            (insert_patterns-Follows c.name c.patterns))))

  pub delete_scan-IsAtomic :
      (name : String) → IsAtomic d laws (Sql.delete_scan d name) (Does (Write.delete_scan name))
  unfolding Sql.delete_scan
  delete_scan-IsAtomic name = in_transaction-IsAtomic d laws _ _ (
      weaken d laws _
        (λ t v (u, (m1, p1), (m2, p2)).
          let z1 : record t { patterns = remove name t.patterns } ≡ u = cc in
          let z2 : record u { scans = remove name u.scans } ≡ v = cc in
          let e = ap {A = Tables} {B = Tables} (λ w. record w { scans = remove name w.scans }) z1 in
          subst (λ w. Does (Write.delete_scan name) t w) (e ∙ z2) (delete_scan-Does name m2 t))
        (then-Follows d laws _ _ _ _ (exec_in-Follows d laws (delete_patterns name))
          (exec_in-Follows d laws (delete_scan_row name))))
