-- ===== src/Command/Collection/RoundTrip.antt =====
-- collection/yaml.go: what is written is read back.
use visus.Prelude.{
  ℕ, String, ◌≡◌, refl, sym, ap, ◌∙◌, true, false, ◌||◌, ◌<◌, ◌*◌, ◌/◌, ◌^◌, List, [], ◌∷◌, pos,
  ◌==◌, string_eq, contains, if◌then◌else◌, to_lower, All, Distinct, Bool-cases, inl, inr, arith,
  wrap_64, quot, ◌*ℤ◌,
}
use visus.Result.{ok}
use visus.Store.Types.{Metric, Collection, Interval, cluster, node, counter, gauge}
use visus.External.Yaml.{Yaml, RoundTrips}
use visus.Command.Collection.{
  Config, metric_defs, read_metrics, check_labels, read_scope, to_config, from_config, marshal,
  unmarshal,
}
use visus.Command.Collection.Valid.{IsValid, known}

lower-known : (k : String) → known k ≡ true → to_lower k ≡ k
unfolding to_lower
lower-known k h = elim (Bool-cases (k == gauge)) [
  | inl e ↦ rw ((string_eq.same_iff k gauge).0 e) refl
  | inr e ↦ rw ((string_eq.same_iff k counter).0 (rw e at h)) refl
]

read_metrics-defs :
    (ms : List Metric) → All (λ m. known m.kind ≡ true) ms → read_metrics (metric_defs ms) ≡ ok ms
unfolding read_metrics
read_metrics-defs [] h = refl
read_metrics-defs (m ∷ ms) h = rw (lower-known m.kind h.0, h.0, read_metrics-defs ms h.1) refl

fresh : (l : String) (ls : List String) → contains ls l ≡ false → All (λ x. (l == x) ≡ false) ls
fresh l [] h = tt
fresh l (x ∷ xs) h =
    (ground (arith, string_eq.same_iff x l, string_eq.same_iff l x), fresh l xs (ground arith))

both :
    (l : String) (seen ls : List String)
    → All (λ x. (l == x) ≡ false) ls
    → All (λ x. contains seen x ≡ false) ls
    → All (λ x. contains (l ∷ seen) x ≡ false) ls
both l seen [] g h = tt
both l seen (x ∷ xs) g h = (ground arith, both l seen xs g.1 h.1)

check_labels-ok :
    (seen ls : List String)
    → Distinct ls
    → All (λ x. contains seen x ≡ false) ls
    → check_labels seen ls ≡ ok tt
unfolding check_labels
check_labels-ok seen [] d h = refl
check_labels-ok seen (l ∷ ls) d h =
    rw (h.0) (check_labels-ok (l ∷ seen) ls d.1 (both l seen ls (fresh l ls d.0) h.1))

read_scope_lem : (s : String) → (s == node || s == cluster) ≡ true → read_scope s ≡ ok s
unfolding read_scope to_lower
read_scope_lem s h = elim (Bool-cases (s == node)) [
  | inl e ↦ rw ((string_eq.same_iff s node).0 e) refl
  | inr e ↦ rw ((string_eq.same_iff s cluster).0 (rw e at h)) refl
]

-- The default of the scope, as the documentation of `defaults.Set` has it.
abbrev pub SetsScope : Yaml Config → Type 0
SetsScope y =
    (d : Config)
    → y.set_defaults d ≡ ok (record d { scope = if d.scope == "" then "node" else d.scope })

wrap_64-small : (n : ℕ) → n < 2 ^ 63 → wrap_64 (pos n) ≡ pos n
wrap_64-small n h = ground arith

seconds-kept :
    (n : ℕ)
    → n * 1_000_000 < 2 ^ 63
    → wrap_64 (quot (pos (n * 1_000_000)) 1_000_000 *ℤ pos 1_000_000) ≡ pos (n * 1_000_000)
seconds-kept n h =
    let e : n * 1_000_000 / 1_000_000 ≡ n = omega arith in rw e (wrap_64-small (n * 1_000_000) h)

scope-named : (s : String) → (s == node || s == cluster) ≡ true → (s == "") ≡ false
scope-named s h = elim (Bool-cases (s == node)) [
  | inl e ↦ rw ((string_eq.same_iff s node).0 e) refl
  | inr e ↦ rw ((string_eq.same_iff s cluster).0 (rw e at h)) refl
]

abbrev every : ℕ → Interval
every seconds = record {
  microseconds = pos (seconds * 1_000_000);
  days = pos 0;
  months = pos 0;
  valid = true;
}

every-kept :
    (i : Interval) (n : ℕ)
    → n * 1_000_000 < 2 ^ 63
    → i ≡ every n
    → record {
      microseconds = wrap_64 (quot i.microseconds 1_000_000 *ℤ pos 1_000_000);
      days = pos 0;
      months = pos 0;
      valid = true;
    }
      ≡ i
every-kept i n h e =
    ap (λ m. record { microseconds = m; days = pos 0; months = pos 0; valid = true })
      (ap (λ (i : Interval). wrap_64 (quot i.microseconds 1_000_000 *ℤ pos 1_000_000)) e
        ∙ seconds-kept n h)
    ∙ sym e

None-seen : (ls : List String) → All (λ x. contains [] x ≡ false) ls
None-seen [] = tt
None-seen (x ∷ xs) = (refl, None-seen xs)

from_config-to_config :
    (c : Collection) (seconds : ℕ)
    → IsValid c
    → c.frequency ≡ every seconds
    → seconds * 1_000_000 < 2 ^ 63
    → from_config (to_config c)
      ≡ ok (record c { last_modified = record { time = 0; valid = false } })
unfolding from_config to_config
from_config-to_config c seconds v f small =
    rw
      (
        read_metrics-defs c.metrics v.kinds,
        check_labels-ok [] c.labels v.labels (None-seen c.labels),
        read_scope_lem c.scope v.scope,
        v.queried,
        v.named,
      )
      (ap (λ i. ok (record c { frequency = i; last_modified = record { time = 0; valid = false } }))
        (every-kept c.frequency seconds small f))

kept-scope :
    (c : Collection)
    → (c.scope == node || c.scope == cluster) ≡ true
    → record (to_config c) {
      scope = if (to_config c).scope == "" then "node" else (to_config c).scope;
    }
      ≡ to_config c
unfolding to_config
kept-scope c h = rw (scope-named c.scope h) refl

-- A valid collection that runs every so many whole seconds, and whose yaml is read back as it was
-- written, is accepted again as it was, but for the time of its last change, which is not written.
pub unmarshal-marshal :
    (y : Yaml Config) (c : Collection) (b : y.Bytes) (seconds : ℕ)
    → RoundTrips y
    → SetsScope y
    → IsValid c
    → c.frequency ≡ every seconds
    → seconds * 1_000_000 < 2 ^ 63
    → marshal y c ≡ ok b
    → unmarshal y b ≡ ok (record c { last_modified = record { time = 0; valid = false } })
unfolding marshal unmarshal
unmarshal-marshal y c b seconds trip sets v f small h =
    rw (trip (to_config c) b h, sets (to_config c))
      (ap from_config (kept-scope c v.scope) ∙ from_config-to_config c seconds v f small)
