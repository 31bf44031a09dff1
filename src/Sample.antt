-- ===== src/Sample.antt =====
-- Small stand-ins for the libraries that visus calls, with which examples run. They show that the
-- hypotheses about those libraries can be met.
use visus.Prelude.{
  ℤ, ℕ, suc, ◌-◌, String, ◌≡◌, ◌≢◌, ◌⊎◌, refl, true, false, none, some, List, [], ◌∷◌, arith, pos,
  negsuc, ltb, length, ◌&&◌, Bool, ◌↔◌, same_list, same_list_iff, contains, string_eq, nat_eq,
  if◌then◌else◌, ◌==◌,
}
use visus.Result.{ok}
use visus.External.Prometheus.{Prometheus}
use visus.External.Scheduler.{Scheduler, SchedulerLaws}
use visus.External.Lru.{Lru}
use visus.Collector.Collect.Vectors.{VectorLaws}
use visus.Collector.Collect.Gauges.{GaugeLaws}
use visus.Collector.Types.{Collector, CacheKey, CacheValue}

-- A vector has a name and a number of labels. A world is the list of registered names, with the
-- series that the gauges have; no values are kept.
abbrev same_vec : String × ℕ → String × ℕ → Bool
same_vec v u = v.0 == u.0 && v.1 == u.1

abbrev pub Gauges : Type 0
Gauges = String × ℕ → List String → Bool

abbrev mark : Bool → String × ℕ → List String → Gauges → Gauges
mark b v ls g u ks = if same_vec u v && same_list ks ls then b else g u ks

abbrev pub sample_prometheus : Prometheus
sample_prometheus = record {
  World = List String × Gauges;
  CounterVec = String × ℕ;
  GaugeVec = String × ℕ;
  Float = ℕ;
  float_of_int = λ i. elim i [ pos n ↦ n | negsuc n ↦ 0 ];
  sub = λ a b. a - b;
  gt = λ a b. ltb b a;
  new_counter_vec = λ name help labels w. ((name, length labels), w);
  new_gauge_vec = λ name help labels w. ((name, length labels), w);
  register_counter = λ v w. (none, (v.0 ∷ w.0, w.1));
  register_gauge = λ v w. (none, (v.0 ∷ w.0, w.1));
  unregister_counter = λ v w. (contains w.0 v.0, w);
  unregister_gauge = λ v w. (contains w.0 v.0, w);
  counter_add = λ v labels x w. (ok tt, w);
  gauge_set = λ v labels x w. (ok tt, (w.0, mark true v labels w.1));
  delete_counter_labels = λ v labels w. w;
  delete_gauge_labels = λ v labels w. (w.0, mark false v labels w.1);
}

same_vec_iff : (v u : String × ℕ) → (same_vec v u ≡ true) ↔ (v ≡ u)
same_vec_iff v u = ground (arith, string_eq.same_iff v.0 u.0, nat_eq.same_iff v.1 u.1)

abbrev pub sample_vectors : VectorLaws sample_prometheus
sample_vectors = record {
  negative = λ x. false;
  sub-negative = λ a b h. refl;
  counter_width = λ v. v.1;
  gauge_width = λ v. v.1;
  new_counter = λ n h ls w. refl;
  new_gauge = λ n h ls w. refl;
  counter_add-ok = λ v ls x w h k. refl;
  gauge_set-ok = λ v ls x w h. refl;
}

pub sample_gauges : GaugeLaws sample_prometheus
sample_gauges = record {
  has = λ v ls w. w.1 v ls;
  delete_self = λ v ls w. ground (arith, same_vec_iff v v, same_list_iff ls ls);
  delete_gone = λ v u ls ks w h. ground arith;
  delete_other = λ v u ls ks w h. ground (arith, same_vec_iff v u, same_list_iff ls ks);
}

-- A cache that forgets everything.
abbrev pub sample_lru : Lru CacheKey (CacheValue sample_prometheus)
sample_lru = record {
  Cache = Unit {0};
  new = λ n. tt;
  get = λ k c. (none, c);
  add = λ k v c. ([], c);
}

abbrev Sampled : Type 0
Sampled = Collector sample_prometheus sample_lru

abbrev stop : ℕ → List ℕ → List ℕ
stop j [] = []
stop j (i ∷ is) = if i == j then stop j is else i ∷ stop j is

-- Jobs are numbered; the state has the next number and the active jobs.
-- Intervals are positive.
abbrev is_positive : ℤ → Bool
is_positive (pos n) = ltb 0 n
is_positive (negsuc n) = false

abbrev pub sample_scheduler : Scheduler Sampled
sample_scheduler = record {
  State = ℕ × List ℕ;
  Job = ℕ;
  every = λ n t st. if is_positive n then (some st.0, (suc st.0, st.0 ∷ st.1)) else (none, st);
  remove_by_reference = λ j st. (st.0, stop j st.1);
  active = λ j st. contains st.1 j;
}

stop_self : (j : ℕ) (is : List ℕ) → contains (stop j is) j ≡ false
stop_self j [] = refl
stop_self j (i ∷ is) = ground (arith, stop_self j is)

stop_other : (i j : ℕ) (is : List ℕ) → i ≢ j → contains (stop j is) i ≡ contains is i
stop_other i j [] h = refl
stop_other i j (k ∷ is) h = ground (arith, stop_other i j is h)

started : (i j : ℕ) (is : List ℕ) → contains (j ∷ is) i ≡ true → (i ≡ j) ⊎ (contains is i ≡ true)
started i j is h = ground arith

pub sample_scheduler-laws : SchedulerLaws sample_scheduler
sample_scheduler-laws = record {
  every-some = λ n t st j i e a. ground arith;
  every-active = λ n t st j e. ground arith;
  every-none = λ n t st i e. ground arith;
  remove_self = λ j st. stop_self j st.1;
  remove_other = λ i j st h. stop_other i j st.1 h;
}
