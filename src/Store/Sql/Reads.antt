-- ===== src/Store/Sql/Reads.antt =====
-- What the reading methods of the store return, against the view of the tables.
use visus.Prelude.{
  ◌≡◌, refl, ap, sym, subst, ◌∙◌, String, List, ◌++◌, map, Perm, Option, none, some, string_eq,
  Distinct, ==_refl,
}
use mathlib.Core.List.{append-nil}
use visus.Result.{ok, pure, lift, >>=-eq-ok}
use visus.Dict.{lookup}
use visus.External.Sql.{Moment, Fetched, Connection, IsTransactional}
use visus.Store.Types.{Collection, Metric, Histogram}
use visus.Store.Sql.Statements.{Tables, CollectionRow, owned_by, timestamp}
use visus.Store.Sql.{
  read_rows, add_metrics, collection_of, get_metrics, get_collection, put_collection, put_histogram,
  get_histogram, read_histogram,
}
use visus.Store.Sql.Rows.{read_rows-eq-ok}
use visus.Store.Sql.View.{view, join_collection, Write, exec, replaced}
use visus.Store.Sql.Atomic.{exec-done}
use visus.Store.Sql.Collections.{put_collection-IsAtomic}

module _ (d : Connection Tables) (laws : IsTransactional d) where
  -- No read of the metrics of `name` breaks off: `rows.Err()` is nil.
  abbrev pub Whole : String → Type 0
  Whole name =
      (c : d.Conn) (r : Fetched Metric)
      → (d.query (λ m t. owned_by name t.metrics) c).0 ≡ ok r
      → r.failure ≡ none

  get_metrics-eq-ok :
      (name : String) (c : d.Conn) (xs : List Metric)
      → Whole name
      → (get_metrics d name c).0 ≡ ok xs
      → Perm xs (owned_by name (d.tables c).metrics)
  unfolding get_metrics
  get_metrics-eq-ok name c xs w h =
      let (r, p, q) =
        >>=-eq-ok (d.query (λ m t. owned_by name t.metrics)) (λ r. lift (read_rows r.rows)) c h in
      let rows : read_rows r.rows ≡ ok xs = cc in
      let (m, rest, perm, whole) =
        laws.query_finds (λ m t. owned_by name t.metrics) c r xs p
          (read_rows-eq-ok r.rows xs rows) in
      subst (λ ys. Perm ys (owned_by name (d.tables c).metrics)) (append-nil xs)
        (subst (λ z. Perm (xs ++ z) (owned_by name (d.tables c).metrics)) (whole (w c r p)) perm)

  -- A collection that is read is the one that the tables show, with its metrics in any order.
  abbrev pub Shows : Option Collection → Option Collection → Type 0
  Shows none none = Unit
  Shows none (some y) = ⊥
  Shows (some x) none = ⊥
  Shows (some x) (some y) = (record x { metrics = y.metrics } ≡ y) × Perm x.metrics y.metrics

  add_metrics-eq-ok :
      (name : String) (found : Option CollectionRow) (c : d.Conn) (o : Option Collection)
      → Whole name
      → (add_metrics d name found c).0 ≡ ok o
      → Shows o (join_collection name found (owned_by name (d.tables c).metrics))
  add_metrics-eq-ok name none c o w h =
      let z : ◌≡◌ {A = Option Collection} none o = cc in subst (λ o. Shows o none) z tt
  add_metrics-eq-ok name (some row) c o w h =
      let (xs, p, q) =
        >>=-eq-ok (get_metrics d name) (λ ms. pure (some (collection_of name row ms))) c h in
      let z : some (collection_of name row xs) ≡ o = cc in
      subst (λ o. Shows o (some (collection_of name row (owned_by name (d.tables c).metrics)))) z
        (refl, get_metrics-eq-ok name c xs w p)

  -- A read of a collection that reports no error and does not break off returns what the tables
  -- show: none, or the collection with its metrics in some order.
  pub get_collection-Shows :
      (name : String) (c : d.Conn) (o : Option Collection)
      → Whole name
      → (get_collection d name c).0 ≡ ok o
      → Shows o ((view (d.tables c)).collections name)
  unfolding get_collection
  get_collection-Shows name c o w h =
      let (found, p, q) =
        >>=-eq-ok (d.query_row (λ m t. lookup name t.collections)) (add_metrics d name) c h in
      let (m, seen) = laws.row_finds (λ m t. lookup name t.collections) c found p in
      let c1 = (d.query_row (λ m t. lookup name t.collections) c).1 in
      let rest : (add_metrics d name found c1).0 ≡ ok o = cc in
      let out = add_metrics-eq-ok name found c1 o w rest in
      let kept = laws.row_keeps (λ m t. lookup name t.collections) c in
      subst
        (λ t.
          Shows o
            (join_collection name (lookup name (d.tables c).collections) (owned_by name t.metrics)))
        kept
        (subst (λ f. Shows o (join_collection name f (owned_by name (d.tables c1).metrics))) seen
          out)

  -- A collection that was put without an error, and is then read without an error and to the end,
  -- comes back as it was put, but for the time of its last change and the order of its metrics; and
  -- no two of these have one name. The connection keeps the documented laws of transactions.
  pub get_collection-put_collection :
      (x : Collection) (c : d.Conn) (o : Option Collection)
      → Whole x.name
      → (put_collection d x c).0 ≡ ok tt
      → (get_collection d x.name (put_collection d x c).1).0 ≡ ok o
      → (m : Moment) × Shows o (some (record x { last_modified = timestamp m }))
        × Distinct (map (λ a. a.name) x.metrics)
  get_collection-put_collection x c o w h k =
      let ((m, seen), names) = (put_collection-IsAtomic d laws x).done c h in
      let shows = get_collection-Shows x.name (put_collection d x c).1 o w k in
      let at_name : (view (d.tables (put_collection d x c).1)).collections x.name
          ≡ some (record x { last_modified = timestamp m }) =
        ap (λ v. v.collections x.name) seen ∙ rw (==_refl x.name) refl in
      (m, subst (Shows o) at_name shows, names)

  -- A histogram that was put without an error, and is then read without one, comes back with the
  -- name, the pattern and the numbers that were put; but it is enabled, and last modified, as the one
  -- of that name that was there, and enabled if there was none. The connection keeps the documented
  -- laws of transactions.
  pub get_histogram-put_histogram :
      (h : Histogram) (c : d.Conn) (o : Option Histogram)
      → (put_histogram d h c).0 ≡ ok tt
      → (get_histogram d h.name (put_histogram d h c).1).0 ≡ ok o
      → (m : Moment) × (o ≡ some (replaced h m ((view (d.tables c)).histograms h.name)))
  unfolding exec get_histogram
  get_histogram-put_histogram h c o p k =
      let c1 = (put_histogram d h c).1 in
      let (m, seen) = exec-done d laws (Write.put_histogram h) c p in
      let (found, q, r) =
        >>=-eq-ok (d.query_row (λ m t. lookup h.name t.histograms))
          (λ f. pure (read_histogram h.name f)) c1 k in
      let (m', is) = laws.row_finds (λ m t. lookup h.name t.histograms) c1 found q in
      let out : ◌≡◌ {A = Option Histogram} (read_histogram h.name found) o = cc in
      (
        m,
        sym out
            ∙ ap (read_histogram h.name) is
            ∙ ap (λ v. v.histograms h.name) seen
            ∙ rw (==_refl h.name) refl,
      )
