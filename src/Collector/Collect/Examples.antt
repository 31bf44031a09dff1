-- ===== src/Collector/Collect/Examples.antt =====
-- collector.go: a collection over the sample libraries.
use visus.Prelude.{ℕ, ◌+◌, ◌≡◌, ◌≢◌, refl, true, false, none, [], ◌∷◌, pos, subst, All, string_eq}
use visus.Result.{ok, panic}
use visus.Dict.{lookup, insert}
use visus.External.Database.{Database, Rows}
use visus.Sample.{sample_prometheus, sample_lru, sample_vectors, sample_gauges}
use visus.Store.Memory.Sample.{requests}
use visus.Collector.Sample.{requests_collector, builds_requests}
use visus.Collector.Values.{counter_add, join, Value, text, int, float, Session, Series}
use visus.Collector.Collect.{collect, column, clear_obsolete_gauges}
use visus.Collector.Collect.Cells.{Fits}
use visus.Collector.Collect.Gauges.{Clears, clear_obsolete_gauges-Clears}
use visus.Collector.Collect.Sound.{IsSound, IsNamed}
use visus.Collector.Collect.Safety.{collect-ne-panic}

abbrev answer : Rows (Value sample_prometheus)
answer = record {
  fields = "app" ∷ "count" ∷ "load" ∷ [];
  rows = ok (text "a" ∷ int (pos 3) ∷ float 5 ∷ []) ∷ [];
  failure = none;
}

abbrev nothing : Rows (Value sample_prometheus)
nothing = record { fields = []; rows = []; failure = none }

-- A connection that counts its commits.
abbrev sample_database : Database (Value sample_prometheus)
sample_database = record {
  Conn = ℕ;
  query = λ q n. (ok nothing, n);
  begin = λ n. (ok tt, n);
  exec = λ q a n. (ok tt, n);
  query_with = λ q k n. (ok answer, n);
  commit = λ n. (ok tt, n + 1);
  rollback = λ n. n;
}

abbrev last_time : Series
last_time = ("load", ("a", "a" ∷ []) ∷ ("b", "b" ∷ []) ∷ []) ∷ []

abbrev session : Session sample_prometheus sample_lru sample_database
session = record {
  collector = record requests_collector { gauge_labels = last_time };
  world = ([], λ _ _. true);
  conn = 0;
}

abbrev this_time : Series
this_time = ("load", ("a", "a" ∷ []) ∷ []) ∷ []

clear_obsolete_gauges-Clears_example :
    Clears sample_database sample_gauges this_time session
      (clear_obsolete_gauges sample_prometheus sample_lru sample_database this_time session)
clear_obsolete_gauges-Clears_example =
    clear_obsolete_gauges-Clears sample_database sample_gauges this_time session

sound : IsSound sample_prometheus sample_lru sample_database sample_vectors requests_collector
sound = record {
  begin = λ x e. cc;
  exec = λ q a x e. cc;
  commit = λ x e. cc;
  query = λ q x e. cc;
  named = λ q x rows e. subst (λ r. All IsNamed r.rows) (let y : nothing ≡ rows = cc in y) tt;
  query_with = λ q k x e. cc;
  fits = λ q k x rows e.
      subst
        (λ r.
          All
            (Fits sample_prometheus sample_lru sample_database sample_vectors requests_collector
              r.fields)
            r.rows)
        (let y : answer ≡ rows = cc in y)
        (((λ _ _ _ _ _ _. refl), ((λ _ _ _ _ _ _. refl), ((λ _ _ _ _ _ _. refl), tt))), tt);
}

collect-ne-panic_example :
    (collect sample_prometheus sample_lru sample_database true session).0 ≢ panic
collect-ne-panic_example =
    collect-ne-panic sample_database sample_vectors requests requests_collector ([], λ _ _. true)
      ([], λ _ _. true) none last_time 0 true (builds_requests _) sound

-- The collection commits, keeps the series of `a` and drops that of `b`.
collects :
    let r = collect sample_prometheus sample_lru sample_database true session in
    (r.0 ≡ ok tt)
    × (r.1.conn ≡ 1)
    × (r.1.world.1 ("requests_load", 1) ("b" ∷ []) ≡ false)
    × (r.1.world.1 ("requests_load", 1) ("a" ∷ []) ≡ true)
unfolding collect column lookup counter_add insert join
collects = (refl, refl, refl, refl)
