-- ===== src/Command/Collection/Valid.antt =====
-- collection/yaml.go: which collections are accepted.
use visus.Prelude.{
  String, ◌≡◌, refl, subst, Bool, true, false, ◌||◌, List, [], ◌∷◌, ◌==◌, string_eq, contains,
  to_lower, All, Distinct, Bool-cases, inl, inr, arith,
}
use visus.Result.{ok, chain-eq-ok}
use visus.Store.Types.{Metric, Collection, cluster, node, counter, gauge}
use visus.External.Yaml.{Yaml}
use visus.Command.Collection.{
  Config, read_metrics, check_labels, read_scope, from_config, built, checked, unmarshal,
}

abbrev pub known : String → Bool
known k = k == gauge || k == counter

-- A collection that the commands accept.
pub record IsValid (c : Collection) : Type 0 where
  pub named : (c.name == "") ≡ false
  pub queried : (c.query == "") ≡ false
  pub kinds : All (λ m. known m.kind ≡ true) c.metrics
  pub labels : Distinct c.labels
  pub scope : (c.scope == node || c.scope == cluster) ≡ true

read_metrics-known :
    (ds : _) (ms : List Metric) → read_metrics ds ≡ ok ms → All (λ m. known m.kind ≡ true) ms
unfolding read_metrics
read_metrics-known [] ms h = let e : [] ≡ ms = cc in subst (All (λ m. known m.kind ≡ true)) e tt
read_metrics-known (d ∷ ds) ms h = elim (Bool-cases (known (to_lower d.kind))) [
  | inl k ↦
      let m : Metric = record { name = d.name; kind = to_lower d.kind; help = d.help } in
      let (rest, e, q) = chain-eq-ok (read_metrics ds) (λ metrics. ok (m ∷ metrics)) (rw k at h) in
      let z : m ∷ rest ≡ ms = cc in
      subst (All (λ m. known m.kind ≡ true)) z (k, read_metrics-known ds rest e)
  | inr k ↦ ground arith
]

unseen :
    (l : String) (ls seen : List String)
    → All (λ x. contains (l ∷ seen) x ≡ false) ls
    → (contains ls l ≡ false) × All (λ x. contains seen x ≡ false) ls
unseen l [] seen h = (refl, tt)
unseen l (x ∷ xs) seen h =
    ground (arith, unseen l xs seen h.1, string_eq.same_iff x l, string_eq.same_iff l x)

check_labels-Distinct :
    (seen ls : List String)
    → check_labels seen ls ≡ ok tt
    → Distinct ls × All (λ x. contains seen x ≡ false) ls
unfolding check_labels
check_labels-Distinct seen [] h = (tt, tt)
check_labels-Distinct seen (l ∷ ls) h = elim (Bool-cases (contains seen l)) [
  | inl e ↦ ground arith
  | inr e ↦
      let (d, a) = check_labels-Distinct (l ∷ seen) ls (rw e at h) in
      let (n, b) = unseen l ls seen a in ((n, d), (e, b))
]

read_scope-known : (s t : String) → read_scope s ≡ ok t → (t == node || t == cluster) ≡ true
unfolding read_scope
read_scope-known s t h = elim (Bool-cases (to_lower s == "node")) [
  | inl e ↦
      let z : node ≡ t = ground arith in subst (λ t. (t == node || t == cluster) ≡ true) z refl
  | inr e ↦ elim (Bool-cases (to_lower s == "cluster")) [
    | inl f ↦
        let z : cluster ≡ t = ground arith in subst (λ t. (t == node || t == cluster) ≡ true) z refl
    | inr f ↦ ground arith
  ]
]

checked-ok :
    (d : Config) (a c : Collection)
    → checked d a ≡ ok c
    → (a ≡ c) × ((d.query == "") ≡ false) × ((d.name == "") ≡ false)
checked-ok d a c h = elim (Bool-cases (d.query == "")) [
  | inl q ↦ ground arith
  | inr q ↦ elim (Bool-cases (d.name == "")) [
    | inl n ↦ ground arith
    | inr n ↦ (cc (rw (q, n) at h), q, n)
  ]
]

-- What passes is valid.
from_config-IsValid : (d : Config) (c : Collection) → from_config d ≡ ok c → IsValid c
unfolding from_config
from_config-IsValid d c h =
    let (ms, m, h1) = chain-eq-ok (read_metrics d.metrics) _ h in
    let (u, l, h2) = chain-eq-ok (check_labels [] d.labels) _ h1 in
    let (s, e, h3) = chain-eq-ok (read_scope d.scope) _ h2 in
    let (z, q, n) = checked-ok d (built d ms s) c h3 in
    subst IsValid z (record {
      named = n;
      queried = q;
      kinds = read_metrics-known d.metrics ms m;
      labels = (check_labels-Distinct [] d.labels l).0;
      scope = read_scope-known d.scope s e;
    })

-- Whatever the yaml and its defaults are, a collection that `unmarshal` returns has a name and a
-- query, its metrics are counters and gauges, no label occurs twice, and its scope is the cluster or
-- the node.
pub unmarshal-IsValid :
    (y : Yaml Config) (b : y.Bytes) (c : Collection) → unmarshal y b ≡ ok c → IsValid c
unfolding unmarshal
unmarshal-IsValid y b c h =
    let (d, _, h1) = chain-eq-ok (y.unmarshal b) _ h in
    let (d', _, h2) = chain-eq-ok (y.set_defaults d) from_config h1 in from_config-IsValid d' c h2
