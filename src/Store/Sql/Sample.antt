-- ===== src/Store/Sql/Sample.antt =====
-- A connection that keeps its tables in memory and fails at the calls that it is told.
use visus.Prelude.{
  ℕ, ◌+◌, ◌≡◌, refl, ◌⊎◌, inl, inr, Bool, true, false, List, [], ◌∷◌, ◌++◌, map, Perm, none, ◌∙◌,
  sym, ap,
}
use mathlib.Core.List.Perm
use mathlib.Core.List.{append-nil}
use visus.Result.{Result, Op, ok, err, panic}
use visus.External.Sql.{Moment, Fetched, Connection, IsTransactional}
use visus.Store.Sql.Statements.{Tables}

pub record SampleConn : Type 0 where
  pub committed : Tables
  pub pending : Tables
  pub clock : ℕ
  pub faults : List Bool

abbrev pub moment : SampleConn → Moment
moment c = record { now = c.clock; row_id = c.clock + 1_000 }

module _ {A : Type 0} where
  abbrev faulty : List Bool → Op SampleConn A → Op SampleConn A
  faulty [] m c = m c
  faulty (false ∷ fs) m c = m (record c { faults = fs })
  faulty (true ∷ fs) m c = (err "connection lost", record c { faults = fs })

  abbrev call : Op SampleConn A → Op SampleConn A
  call m c = faulty c.faults m c

  -- A call that does not look at the faults either runs or is lost.
  call_lem {κ} :
      (P : Result A × SampleConn → Type κ) (m : Op SampleConn A) (c : SampleConn)
      → ((fs : List Bool) → P (err "connection lost", record c { faults = fs }))
      → ((fs : List Bool) → P (m (record c { faults = fs })))
      → P (call m c)
  call_lem P m c h k = go c.faults (k c.faults)
    where
      go : (fs : List Bool) → P (m c) → P (faulty fs m c)
      go [] p = p
      go (false ∷ fs) p = k fs
      go (true ∷ fs) p = h fs

abbrev opens_with : SampleConn → Result Tables → Result (Unit {0}) × SampleConn
opens_with c (ok t) = (ok tt, record c { pending = t; clock = c.clock + 1 })
opens_with c (err e) = (err e, c)
opens_with c panic = (panic, c)

abbrev commits_with : {A : Type 0} → SampleConn → Result (Tables × A) → Result A × SampleConn
commits_with c (ok (t, a)) = (ok a, record c { committed = t; clock = c.clock + 1 })
commits_with c (err e) = (err e, c)
commits_with c panic = (panic, c)

abbrev unit_row : Result Tables → Result (Tables × Unit {0})
unit_row (ok t) = ok (t, tt)
unit_row (err e) = err e
unit_row panic = panic

abbrev pub sample : Connection Tables
sample = record {
  Conn = SampleConn;
  tables = λ c. c.committed;
  opened = λ c. c.pending;
  begin = call (λ c. (ok tt, record c { pending = c.committed }));
  exec_in = λ f. call (λ c. opens_with c (f (moment c) c.pending));
  commit = call (λ c. (ok tt, record c { committed = c.pending }));
  rollback = λ c. c;
  exec = λ f. call (λ c. commits_with c (unit_row (f (moment c) c.committed)));
  query = λ f.
      call (λ c. (ok (record { rows = map ok (f (moment c) c.committed); failure = none }), c));
  query_ordered = λ f.
      call (λ c. (ok (record { rows = map ok (f (moment c) c.committed); failure = none }), c));
  query_row = λ f. call (λ c. (ok (f (moment c) c.committed), c));
  exec_row = λ f. call (λ c. commits_with c (f (moment c) c.committed));
}

map_ok-injective : {A : Type 0} (xs ys : List A) → map ok xs ≡ map ok ys → xs ≡ ys
map_ok-injective [] [] h = refl
map_ok-injective [] (y ∷ ys) h = cc
map_ok-injective (x ∷ xs) [] h = cc
map_ok-injective (x ∷ xs) (y ∷ ys) h =
    let z : x ≡ y = cc in
    let rest : map ok xs ≡ map ok ys = cc in rw (z, map_ok-injective xs ys rest) refl

opens_with_lem :
    (c : SampleConn) (r : Result Tables)
    → ((opens_with c r).1.committed ≡ c.committed)
      × ((opens_with c r).0 ≡ ok tt → r ≡ ok (opens_with c r).1.pending)
opens_with_lem c (ok t) = (refl, λ e. refl)
opens_with_lem c (err x) = (refl, λ e. cc)
opens_with_lem c panic = (refl, λ e. cc)

commits_with_done :
    {A : Type 0} (c : SampleConn) (r : Result (Tables × A)) (a : A)
    → (commits_with c r).0 ≡ ok a
    → r ≡ ok ((commits_with c r).1.committed, a)
commits_with_done c (ok (t, b)) a e = let z : b ≡ a = cc in rw z refl
commits_with_done c (err x) a e = cc
commits_with_done c panic a e = cc

commits_with_either :
    {A : Type 0} (c : SampleConn) (r : Result (Tables × A))
    → ((commits_with c r).1.committed ≡ c.committed)
      ⊎ ((a : A) × (r ≡ ok ((commits_with c r).1.committed, a)))
commits_with_either c (ok (t, a)) = inr (a, refl)
commits_with_either c (err x) = inl refl
commits_with_either c panic = inl refl

unit_row-eq-ok : (r : Result Tables) (t : Tables) → unit_row r ≡ ok (t, tt) → r ≡ ok t
unit_row-eq-ok (ok u) t h =
    let z : ◌≡◌ {A = Tables × Unit {0}} (u, tt) (t, tt) = cc in ap (λ w. ok w.0) z
unit_row-eq-ok (err x) t h = cc
unit_row-eq-ok panic t h = cc

read_back :
    {A : Type 0} (ys xs : List A) (r : Fetched A)
    → ◌≡◌ {A = Result (Fetched A)} (ok (record { rows = map ok ys; failure = none })) (ok r)
    → r.rows ≡ map ok xs
    → xs ≡ ys
read_back {A} ys xs r e q =
    let z : ◌≡◌ {A = Fetched A} (record { rows = map ok ys; failure = none }) r = cc in
    map_ok-injective xs ys (sym q ∙ sym (ap (λ w. w.rows) z))

pub sample-IsTransactional : IsTransactional sample
sample-IsTransactional = record {
  begin_keeps = λ c. call_lem (λ z. z.1.committed ≡ c.committed) _ c (λ fs. refl) (λ fs. refl);
  begin_sees =
      λ c. call_lem (λ z. z.0 ≡ ok tt → z.1.pending ≡ c.committed) _ c (λ fs e. cc) (λ fs e. refl);
  exec_in_keeps = λ f c.
      call_lem (λ z. z.1.committed ≡ c.committed) _ c (λ fs. refl)
        (λ fs. (opens_with_lem _ (f (moment c) c.pending)).0);
  exec_in_done = λ f c.
      call_lem (λ z. z.0 ≡ ok tt → (m : Moment) × (f m c.pending ≡ ok z.1.pending)) _ c (λ fs e. cc)
        (λ fs e. (moment c, (opens_with_lem _ (f (moment c) c.pending)).1 e));
  commit_either = λ c.
      call_lem (λ z. (z.1.committed ≡ c.committed) ⊎ (z.1.committed ≡ c.pending)) _ c
        (λ fs. inl refl) (λ fs. inr refl);
  commit_done =
      λ c. call_lem (λ z. z.0 ≡ ok tt → z.1.committed ≡ c.pending) _ c (λ fs e. cc) (λ fs e. refl);
  rollback_keeps = λ c. refl;
  exec_either = λ f c.
      call_lem
        (λ z. (z.1.committed ≡ c.committed) ⊎ ((m : Moment) × (f m c.committed ≡ ok z.1.committed)))
        _ c (λ fs. inl refl)
        (λ fs.
          elim (commits_with_either (record c { faults = fs })
            (unit_row (f (moment c) c.committed))) [
              | inl p ↦ inl p
              | inr (a, p) ↦ inr (moment c, unit_row-eq-ok (f (moment c) c.committed) _ p)
            ]);
  exec_done = λ f c.
      call_lem (λ z. z.0 ≡ ok tt → (m : Moment) × (f m c.committed ≡ ok z.1.committed)) _ c
        (λ fs e. cc)
        (λ fs e. (
          moment c,
          unit_row-eq-ok (f (moment c) c.committed) _
              (commits_with_done _ (unit_row (f (moment c) c.committed)) tt e),
        ));
  exec_row_either = λ {A} f c.
      call_lem
        (λ z.
          (z.1.committed ≡ c.committed)
          ⊎ ((m : Moment) × (a : A) × (f m c.committed ≡ ok (z.1.committed, a))))
        _ c (λ fs. inl refl)
        (λ fs. elim (commits_with_either (record c { faults = fs }) (f (moment c) c.committed)) [
          | inl p ↦ inl p
          | inr (a, p) ↦ inr (moment c, a, p)
        ]);
  exec_row_done = λ f c a.
      call_lem (λ z. z.0 ≡ ok a → (m : Moment) × (f m c.committed ≡ ok (z.1.committed, a))) _ c
        (λ fs e. cc) (λ fs e. (moment c, commits_with_done _ (f (moment c) c.committed) a e));
  query_keeps = λ f c. call_lem (λ z. z.1.committed ≡ c.committed) _ c (λ fs. refl) (λ fs. refl);
  query_finds = λ {A} f c r xs.
      call_lem
        (λ z.
          z.0 ≡ ok r
          → r.rows ≡ map ok xs
          → (m : Moment) × (rest : List A) × Perm (xs ++ rest) (f m c.committed)
            × (r.failure ≡ none → rest ≡ []))
        _ c (λ fs e. cc)
        (λ fs e q. (
          moment c,
          [],
          let z : xs ≡ f (moment c) c.committed = read_back (f (moment c) c.committed) xs r e q in
              rw (append-nil xs, z) (Perm.refl _),
          λ _. refl,
        ));
  ordered_keeps = λ f c. call_lem (λ z. z.1.committed ≡ c.committed) _ c (λ fs. refl) (λ fs. refl);
  ordered_finds = λ f c r xs.
      call_lem
        (λ z.
          z.0 ≡ ok r
          → r.rows ≡ map ok xs
          → r.failure ≡ none
          → (m : Moment) × (xs ≡ f m c.committed))
        _ c (λ fs e. cc) (λ fs e q w. (moment c, read_back (f (moment c) c.committed) xs r e q));
  row_keeps = λ f c. call_lem (λ z. z.1.committed ≡ c.committed) _ c (λ fs. refl) (λ fs. refl);
  row_finds = λ f c a.
      call_lem (λ z. z.0 ≡ ok a → (m : Moment) × (a ≡ f m c.committed)) _ c (λ fs e. cc)
        (λ fs e. (moment c, let z : a ≡ f (moment c) c.committed = cc in z));
}

-- The rows of this connection never break off.
pub sample-whole :
    {A : Type 0} (f : Moment → Tables → List A) (c : SampleConn) (r : Fetched A)
    → (sample.query f c).0 ≡ ok r
    → r.failure ≡ none
sample-whole {A} f c r =
    call_lem (λ z. z.0 ≡ ok r → r.failure ≡ none) _ c (λ fs e. cc)
      (λ fs e.
        let z : ◌≡◌ {A = Fetched A}
            (record { rows = map ok (f (moment c) c.committed); failure = none }) r =
          cc in
        sym (ap (λ w. w.failure) z))

abbrev pub empty_tables : Tables
empty_tables = record {
  collections = [];
  metrics = [];
  histograms = [];
  scans = [];
  patterns = [];
  nodes = [];
}

-- A connection at time 50 that has these calls lost.
abbrev pub connect : List Bool → SampleConn
connect fs = record { committed = empty_tables; pending = empty_tables; clock = 50; faults = fs }
