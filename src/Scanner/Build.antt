-- ===== src/Scanner/Build.antt =====
-- internal/scanner/scanner.go: `FromConfig` and `addCounter`. Compiling a regular expression is a
-- parameter; a scanner is taken before it is started, so its tail is nil.
use Prim.Native.String.{◌++◌ as str_append}
use visus.Prelude.{
  String, ◌≡◌, refl, true, ◌||◌, List, [], ◌∷◌, ◌==◌, string_eq, if◌then◌else◌, is_some, contains,
  ◌⊎◌, subst, arith, Bool-cases, inl, inr,
}
use visus.Result.{Result, Op, ok, err, raise, lift, pure, modify, ◌>>=◌, ◌>>◌, >>=-eq-ok}
use visus.Dict.{Dict, lookup, insert, lookup-insert, lookup-nil}
use visus.Store.Types.{Pattern, Scan, crdb_v2, crdb_v2_auth}
use visus.External.Prometheus.{Prometheus}
use visus.Scanner.Crdb.{Metric}
use visus.Scanner.Crdb

pub data Parser : Type 0 where
  crdb_v2_parser crdb_v2_auth_parser : Parser

pub record Counted (p : Prometheus) : Type 0 where
  pub counter : p.CounterVec
  pub metric : Metric

pub record Scanner (p : Prometheus) : Type 0 where
  pub metrics : Dict String (Counted p)
  pub target : Scan
  pub parser : Parser

-- A scanner that is being built, and the registry.
pub record Building (p : Prometheus) : Type 0 where
  pub metrics : Dict String (Counted p)
  pub world : p.World

module _ (p : Prometheus) (compile : String → Result Crdb.Regexp) where
  abbrev pub Run : Type 0 → Type 0
  Run A = Op (Building p) A

  abbrev on_world : {A : Type 0} → (p.World → A × p.World) → Run A
  on_world call s = let (a, w) = call s.world in (ok a, record s { world = w })

  unfoldable pub add_counter : String → Pattern → List String → Run (Unit {0})
  add_counter target pattern labels = do
    vec ←
        on_world
          (p.new_counter_vec (str_append (str_append target "_") pattern.name) pattern.help labels)
    _ ← on_world (p.unregister_counter vec)
    failure ← on_world (p.register_counter vec)
    lift (raise failure tt)
    regex ← lift (compile pattern.regex)
    exclude ← lift (compile pattern.exclude)
    modify (λ s. record s {
      metrics =
          insert pattern.name
            (record { counter = vec; metric = record { exclude = exclude; regex = regex } })
            s.metrics;
    })

  unfoldable pub add_counters : String → List Pattern → List String → Run (Unit {0})
  add_counters target [] labels = pure tt
  add_counters target (pattern ∷ patterns) labels = do
    add_counter target pattern labels
    add_counters target patterns labels

  abbrev pub auth_labels : List String
  auth_labels = "user" ∷ "identity" ∷ "method" ∷ "transport" ∷ "event" ∷ []

  abbrev pub crdb_labels : List String
  crdb_labels = "level" ∷ "source" ∷ []

  -- The scanner, once its counters are there.
  abbrev pub finish : Parser → Scan → Run (Unit {0}) → Run (Scanner p)
  finish parser scan counters = do
    counters
    λ s. (ok (record { metrics = s.metrics; target = scan; parser = parser }), s)

  unfoldable pub from_config : Scan → Run (Scanner p)
  unfolding add_counters
  from_config scan =
      if scan.format == crdb_v2_auth
      then finish crdb_v2_auth_parser scan (add_counters scan.name scan.patterns auth_labels)
      else if scan.format == crdb_v2
      then finish crdb_v2_parser scan (add_counters scan.name scan.patterns crdb_labels)
      else lift (err "format not supported")

  abbrev pub names_of : List Pattern → List String
  names_of [] = []
  names_of (x ∷ xs) = x.name ∷ names_of xs

  add_counter-names :
      (target : String) (x : Pattern) (labels : List String) (s : Building p) (k : String)
      → (add_counter target x labels s).0 ≡ ok tt
      → is_some (lookup k (add_counter target x labels s).1.metrics)
        ≡ (x.name == k || is_some (lookup k s.metrics))
  unfolding add_counter
  add_counter-names target x labels s k h = grind (arith, lookup-insert)

  add_counters-names :
      (target : String) (xs : List Pattern) (labels : List String) (s : Building p) (k : String)
      → (add_counters target xs labels s).0 ≡ ok tt
      → is_some (lookup k (add_counters target xs labels s).1.metrics)
        ≡ (contains (names_of xs) k || is_some (lookup k s.metrics))
  unfolding add_counters
  add_counters-names target [] labels s k h = refl
  add_counters-names target (x ∷ xs) labels s k h =
      let (_, e, q) =
        >>=-eq-ok (add_counter target x labels) (λ _. add_counters target xs labels) s h in
      let s1 = (add_counter target x labels s).1 in
      rw q (
        ground
          (arith, add_counters-names target xs labels s1 k, add_counter-names target x labels s k))

  -- What `FromConfig` makes of a scan.
  pub record Scans (scan : Scan) (sc : Scanner p) : Type 0 where
    pub target : sc.target ≡ scan
    pub format :
        ((scan.format == crdb_v2_auth) ≡ true) × (sc.parser ≡ crdb_v2_auth_parser)
        ⊎ ((scan.format == crdb_v2) ≡ true) × (sc.parser ≡ crdb_v2_parser)
    pub names : (k : String) → is_some (lookup k sc.metrics) ≡ contains (names_of scan.patterns) k

  finish-names :
      (parser : Parser) (scan : Scan) (labels : List String) (w : p.World) (sc : Scanner p)
      → (finish parser scan
          (add_counters scan.name scan.patterns labels)
          (record { metrics = []; world = w })).0
        ≡ ok sc
      → (sc.target ≡ scan)
        × (sc.parser ≡ parser)
        × ((k : String) → is_some (lookup k sc.metrics) ≡ contains (names_of scan.patterns) k)
  finish-names parser scan labels w sc h =
      let s0 : Building p = record { metrics = []; world = w } in
      let (_, e, q) =
        >>=-eq-ok (add_counters scan.name scan.patterns labels)
          (λ _ s. (ok (record { metrics = s.metrics; target = scan; parser = parser }), s)) s0 h in
      let z : record {
        metrics = (add_counters scan.name scan.patterns labels s0).1.metrics;
        target = scan;
        parser = parser;
      }
          ≡ sc =
        cc in
      subst
        (λ (sc : Scanner p).
          (sc.target ≡ scan)
          × (sc.parser ≡ parser)
          × ((k : String) → is_some (lookup k sc.metrics) ≡ contains (names_of scan.patterns) k))
        z
        (
          refl,
          refl,
          λ k. ground (
            arith,
            add_counters-names scan.name scan.patterns labels s0 k,
            lookup-nil {V = Counted p} k,
          ),
        )

  -- If `FromConfig` succeeds, the format of the scan is one of the two known ones, the scanner has the
  -- parser for it and the scan itself, and it has a counter for exactly the names of the patterns.
  pub scanner_from_config-Scans :
      (scan : Scan) (w : p.World) (sc : Scanner p)
      → (from_config scan (record { metrics = []; world = w })).0 ≡ ok sc
      → Scans scan sc
  unfolding from_config
  scanner_from_config-Scans scan w sc h = elim (Bool-cases (scan.format == crdb_v2_auth)) [
    | inl a ↦
        let (t, q, n) = finish-names crdb_v2_auth_parser scan auth_labels w sc (rw a at h) in
        record { target = t; format = inl (a, q); names = n }
    | inr a ↦ elim (Bool-cases (scan.format == crdb_v2)) [
      | inl b ↦
          let (t, q, n) = finish-names crdb_v2_parser scan crdb_labels w sc (rw (a, b) at h) in
          record { target = t; format = inr (b, q); names = n }
      | inr b ↦ ground arith
    ]
  ]
