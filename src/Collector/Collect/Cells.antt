-- ===== src/Collector/Collect/Cells.antt =====
-- collector.go: reading a value of a row does not panic.
use visus.Prelude.{
  ℕ, zero, suc, String, ◌≡◌, refl, ap, ◌∙◌, false, Option, none, some, List, [], ◌∷◌, ◌<◌,
  string_eq, nat_eq, ◌==◌, arith, Bool-cases, Option-cases, inl, inr, length,
}
use visus.Result.{Result, ok, err, panic}
use visus.Dict.{lookup}
use visus.External.Prometheus.{Prometheus}
use visus.External.Lru.{Lru}
use visus.External.Database.{Database}
use visus.Collector.Types.{Collector, Metric, Vec, counter_vec, gauge_vec, CacheKey, CacheValue}
use visus.Collector.Values.{
  Value, float, int, numeric, text, null, other, Session, Series, number, delta, counter_add,
  set_at, set_last, start_labels, blanks,
}
use visus.Collector.Collect.{count, set, measure, fill}
use visus.Collector.Collect.Vectors.{VectorLaws, width}
use visus.Collector.Collect.Running.{IsRunning, Safe, continue-Safe, moved}

module _ (p : Prometheus) (l : Lru CacheKey (CacheValue p)) (d : Database (Value p))
    (laws : VectorLaws p) (c : Collector p l) where
  delta-negative :
      (v : Option (CacheValue p)) (x : p.Float)
      → laws.negative x ≡ false
      → laws.negative (delta p l d v x) ≡ false
  unfolding delta
  delta-negative none x h = h
  delta-negative (some v) x h = elim (Bool-cases (p.gt v.value x)) [
    | inl q ↦ rw q h
    | inr q ↦ rw q (laws.sub-negative x v.value q)
  ]

  counter_add-Safe :
      (vec : p.CounterVec) (name : String) (final labels : List String) (x : p.Float)
      (s : Session p l d)
      → length labels ≡ laws.counter_width vec
      → laws.negative x ≡ false
      → IsRunning p l d laws c s
      → Safe p l d laws c (λ _. Unit {0}) (counter_add p l d vec name final labels x s)
  unfolding counter_add
  counter_add-Safe vec name final labels x s z h r =
      elim (Option-cases s.collector.counters_cache) [
        | inl q ↦ ground (arith, r.cached)
        | inr (cache, q) ↦
            let k : CacheKey = record { family = name; labels = labels } in
            rw
              (
                q,
                laws.counter_add-ok vec labels (delta p l d (l.get k cache).0 x) s.world z
                    (delta-negative (l.get k cache).0 x h),
              )
              (
                tt,
                record {
                  cached = refl;
                  label_map = r.label_map;
                  metrics = r.metrics;
                  labels = r.labels;
                  databases = r.databases;
                },
              )
      ]

  set_at-ok :
      (i : ℕ) (v : String) (ls : List String)
      → i < length ls
      → (ks : List String) × (set_at i v ls ≡ ok ks) × (length ks ≡ length ls)
  unfolding set_at
  set_at-ok i v [] h = absurd (omega arith)
  set_at-ok zero v (x ∷ xs) h = (v ∷ xs, refl, refl)
  set_at-ok (suc i) v (x ∷ xs) h =
      let (ys, e, q) = set_at-ok i v xs (omega arith) in (x ∷ ys, rw e, omega (arith, q))

  pub fill-ok :
      (i : ℕ) (v : Value p) (ls : List String)
      → i < length ls
      → (ks : List String) × (fill p l d i v ls ≡ ok ks) × (length ks ≡ length ls)
  unfolding fill
  fill-ok i (text t) ls h = set_at-ok i t ls h
  fill-ok i (float _) ls h = (ls, refl, refl)
  fill-ok i (int _) ls h = (ls, refl, refl)
  fill-ok i (numeric _) ls h = (ls, refl, refl)
  fill-ok i null ls h = (ls, refl, refl)
  fill-ok i other ls h = (ls, refl, refl)

  -- A value for a counter is not a negative number.
  abbrev pub CellFits : String → Value p → Type 0
  CellFits f v =
      (m : Metric p) (vec : p.CounterVec) (x : p.Float)
      → lookup f c.metrics ≡ some m
      → m.vec ≡ counter_vec vec
      → number p l d v ≡ some x
      → laws.negative x ≡ false

  -- A row has no more values than columns, and no negative number for a counter.
  abbrev pub RowFits : List String → List (Value p) → Type 0
  RowFits fs [] = Unit
  RowFits [] (v ∷ vs) = ⊥
  RowFits (f ∷ fs) (v ∷ vs) = CellFits f v × RowFits fs vs

  abbrev pub Fits : List String → Result (List (Value p)) → Type 0
  Fits fs (ok vs) = RowFits fs vs
  Fits fs (err e) = Unit
  Fits fs panic = ⊥

  count-Safe :
      (vec : p.CounterVec) (name : String) (final labels : List String) (o : Option p.Float)
      (s : Session p l d)
      → length labels ≡ laws.counter_width vec
      → ((x : p.Float) → o ≡ some x → laws.negative x ≡ false)
      → IsRunning p l d laws c s
      → Safe p l d laws c (λ _. Unit {0}) (count p l d vec name final labels o s)
  unfolding count
  count-Safe vec name final labels none s z h r = (tt, r)
  count-Safe vec name final labels (some x) s z h r =
      counter_add-Safe vec name final labels x s z (h x refl) r

  set-Safe :
      (vec : p.GaugeVec) (labels : List String) (o : Option p.Float) (s : Session p l d)
      → length labels ≡ laws.gauge_width vec
      → IsRunning p l d laws c s
      → Safe p l d laws c (λ _. Unit {0}) (set p l d vec labels o s)
  unfolding set
  set-Safe vec labels none s z r = (tt, r)
  set-Safe vec labels (some x) s z r = rw (laws.gauge_set-ok vec labels x s.world z) (
    tt,
    moved p l d laws c s (record s { world = (p.gauge_set vec labels x s.world).1 }) refl refl r,
  )

  pub measure-Safe :
      (f : String) (m : Metric p) (v : Value p) (final labels : List String) (curr : Series)
      (s : Session p l d)
      → lookup f c.metrics ≡ some m
      → length labels ≡ width laws m.vec
      → CellFits f v
      → IsRunning p l d laws c s
      → Safe p l d laws c (λ _. Unit {0}) (measure p l d f m v final labels curr s)
  unfolding measure
  measure-Safe f m v final labels curr s found z fits r = go m.vec refl
    where
      go :
          (x : Vec p)
          → m.vec ≡ x
          → Safe p l d laws c (λ _. Unit {0}) (measure p l d f m v final labels curr s)
      go (counter_vec vec) e =
          let a = count p l d vec m.name final labels (number p l d v) s in
          rw e (
            continue-Safe p l d laws c (λ _. Unit {0}) (λ _. Unit {0}) a.0 _ a.1
              (count-Safe vec m.name final labels (number p l d v) s (z ∙ ap (width laws) e)
                (λ x q. fits m vec x found e q) r)
              (λ _ _ r. (tt, r)))
      go (gauge_vec vec) e =
          let a = set p l d vec labels (number p l d v) s in
          rw e (
            continue-Safe p l d laws c (λ _. Unit {0}) (λ _. Unit {0}) a.0 _ a.1
              (set-Safe vec labels (number p l d v) s (z ∙ ap (width laws) e) r) (λ _ _ r. (tt, r)))

  set_last-ok :
      (v x : String) (ls : List String)
      → (ks : List String) × (set_last v (x ∷ ls) ≡ ok ks) × (length ks ≡ length (x ∷ ls))
  unfolding set_last
  set_last-ok v x [] = (v ∷ [], refl, refl)
  set_last-ok v x (y ∷ ls) = let (ks, e, q) = set_last-ok v y ls in (x ∷ ks, rw e, omega (arith, q))

  length-blanks : (ls : List String) → length (blanks ls) ≡ length ls
  length-blanks [] = refl
  length-blanks (x ∷ ls) = omega (arith, length-blanks ls)

  pub start_labels-ok :
      (db : String) (ls : List String)
      → ((db == "") ≡ false → 0 < length ls)
      → (ks : List String) × (start_labels db ls ≡ ok ks) × (length ks ≡ length ls)
  unfolding start_labels
  start_labels-ok db [] h = elim (Bool-cases (db == "")) [
    | inl q ↦ ([], rw q, refl)
    | inr q ↦ absurd (omega (arith, h q))
  ]
  start_labels-ok db (x ∷ ls) h = elim (Bool-cases (db == "")) [
    | inl q ↦ (blanks (x ∷ ls), rw q, length-blanks (x ∷ ls))
    | inr q ↦
        let (ks, e, z) = set_last-ok db "" (blanks ls) in
        (ks, rw (q, e), omega (arith, z, length-blanks ls))
  ]
