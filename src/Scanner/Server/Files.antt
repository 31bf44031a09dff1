-- ===== src/Scanner/Server/Files.antt =====
-- server.go: the files that are followed, against the table of scanners.
use visus.Prelude.{
  ◌≡◌, ◌≢◌, refl, ap, sym, ◌∙◌, subst, ◌⊎◌, inl, inr, String, Bool, true, false, Option, none, some,
  List, [], ◌∷◌, string_eq, ◌==◌, if◌then◌else◌, contains, Distinct, ==_refl, arith, Bool-cases,
}
use visus.Result.{Result, ok, err, panic, continue_inv}
use visus.Dict.{
  Dict, keys, lookup, insert, lookup-insert, lookup-remove, insert-Distinct, remove-Distinct, Found,
  Found-self, Found-remove,
}
use visus.Store.Types.{Scan}
use visus.External.Tail.{TailingLaws}
use visus.Scanner.Build.{Scanner}
use visus.Scanner.Server.{
  Parts, Running, Server, close, stopped, stop_existing, add, start, drop, update, consider,
  consider_all, cleanup, cleanup_loop, refresh_names, refresh, count,
}
use visus.Scanner.Server.Update.{rest, rest_lem, building, entered, from_entry, update_lem}
use visus.Scanner.Server.Names.{
  IsSteadyForScans, looked, considered, consider_lem, enter-state, consider-Considers,
}
use visus.Scanner.Server.Refresh.{swept, refresh_names_lem}

-- `Foreign` are the tails that others follow.
module _ (t : Parts) (laws : TailingLaws t.tailing) (Foreign : t.tailing.Tail → Type 0) where
  -- A scanner of the table has the tail.
  abbrev pub Held : t.tailing.Tail → Dict String (Running t) → Type 0
  Held i d = (k : String) × (r : Running t) × (lookup k d ≡ some r) × (r.tail ≡ some i)

  -- Every file that is followed belongs to a scanner of the table, or is followed for others; and no
  -- name is twice in the table.
  pub record IsQuiet (s : Server t) : Type 0 where
    pub followed :
        (i : t.tailing.Tail) → laws.following i s.files ≡ true → Foreign i ⊎ Held i s.scanners
    pub distinct : Distinct (keys s.scanners)

  still-following :
      (o : Option t.tailing.Tail) (i : t.tailing.Tail) (f : t.tailing.Files)
      → laws.following i (close t o f) ≡ true
      → (o ≢ some i) × (laws.following i f ≡ true)
  still-following none i f h = ((λ q. cc), h)
  still-following (some j) i f h =
      let f' = (t.tailing.stop j f).1 in
      let h' : laws.following i f' ≡ true = sym (laws.cleanup_keeps i j f') ∙ h in
      let ne : i ≢ j = λ q. cc (laws.stop_self j f) in
      ((λ q. ne (sym (let z : j ≡ i = cc in z))), sym (laws.stop_other i j f ne) ∙ h')

  -- What is followed is foreign, or held in the table under another name than the given one.
  record IsLoose (name : String) (s : Server t) : Type 0 where
    followed :
        (i : t.tailing.Tail)
        → laws.following i s.files ≡ true
        → Foreign i
          ⊎ ((k : String) × (r : Running t) × (lookup k s.scanners ≡ some r)
              × (r.tail ≡ some i)
              × ((name == k) ≡ false))
    distinct : Distinct (keys s.scanners)

  IsLoose-IsQuiet : (name : String) (s : Server t) → IsLoose name s → IsQuiet s
  IsLoose-IsQuiet name s h = record {
    followed =
        λ i a. elim (h.followed i a) [ inl f ↦ inl f | inr (k, r, e, q, _) ↦ inr (k, r, e, q) ];
    distinct = h.distinct;
  }

  -- Another name than the one whose tail was closed.
  other_name :
      (name k : String) (r x : Running t) (i : t.tailing.Tail) (d : Dict String (Running t))
      → lookup name d ≡ some r
      → r.tail ≢ some i
      → lookup k d ≡ some x
      → x.tail ≡ some i
      → (name == k) ≡ false
  other_name name k r x i d p ne e q = elim (Bool-cases (name == k)) [
    | inl z ↦
        let at : lookup name d ≡ some x =
          ap (λ k. lookup k d) ((string_eq.same_iff name k).0 z) ∙ e in
        let same : r ≡ x = cc in absurd (ne (ap (λ (w : Running t). w.tail) same ∙ q))
    | inr z ↦ z
  ]

  -- The entry under the name is stopped.
  stop_existing-IsLoose :
      (name : String) (o : Option (Running t)) (s : Server t)
      → lookup name s.scanners ≡ o
      → IsQuiet s
      → IsLoose name (stop_existing t name o s)
  stop_existing-IsLoose name none s p h = record {
    followed = λ i a. elim (h.followed i a) [
      | inl f ↦ inl f
      | inr (k, r, e, q) ↦ inr (k, r, e, q, ground (arith, string_eq.same_iff name k))
    ];
    distinct = h.distinct;
  }
  stop_existing-IsLoose name (some r) s p h = record {
    followed = λ i a.
        let (ne, b) = still-following r.tail i s.files a in
        elim (h.followed i b) [
          | inl f ↦ inl f
          | inr (k, x, e, q) ↦
              let z = other_name name k r x i s.scanners p ne e q in
              inr (k, x, rw (lookup-insert name k (stopped t r) s.scanners, z) e, q, z)
        ];
    distinct = insert-Distinct name (stopped t r) s.scanners h.distinct;
  }

  -- The new scanner, which follows nothing yet, takes the place under the name.
  entered-IsQuiet :
      (scan : Scan) (s : Server t) (r : Result (Scanner t.prometheus))
      → IsLoose scan.name s
      → IsQuiet (entered t scan s r).1
  unfolding start add
  entered-IsQuiet scan s (ok sc) h =
      let new : Running t = record { scanner = sc; tail = none; pending = false } in
      let found : lookup scan.name (insert scan.name new s.scanners) ≡ some new =
        lookup-insert scan.name scan.name new s.scanners ∙ rw (==_refl scan.name) refl in
      let on : Running t = record new { pending = true } in
      let d = insert scan.name new s.scanners in
      rw found (record {
        followed = λ i a. elim (h.followed i a) [
          | inl f ↦ inl f
          | inr (k, r, e, q, ne) ↦
              let z : lookup k (insert scan.name on d) ≡ some r =
                rw
                  (lookup-insert scan.name k on d, ne, lookup-insert scan.name k new s.scanners, ne)
                  e in
              inr (k, r, z, q)
        ];
        distinct =
            insert-Distinct scan.name on d (insert-Distinct scan.name new s.scanners h.distinct);
      })
  entered-IsQuiet scan s (err x) h = record {
    followed = (IsLoose-IsQuiet scan.name s h).followed;
    distinct = h.distinct;
  }
  entered-IsQuiet scan s panic h = record {
    followed = (IsLoose-IsQuiet scan.name s h).followed;
    distinct = h.distinct;
  }

  rest-IsQuiet : (scan : Scan) (s : Server t) → IsLoose scan.name s → IsQuiet (rest t scan s).1
  rest-IsQuiet scan s h =
      rw (rest_lem t scan s _ refl) (entered-IsQuiet scan s (building t scan s).0 h)

  from_entry-IsQuiet :
      (scan : Scan) (s : Server t) (o : Option (Running t)) (b : Bool)
      → lookup scan.name s.scanners ≡ o
      → IsQuiet s
      → IsQuiet (from_entry t scan s o b).1
  from_entry-IsQuiet scan s o true p h = h
  from_entry-IsQuiet scan s o false p h =
      rest-IsQuiet scan (stop_existing t scan.name o s) (stop_existing-IsLoose scan.name o s p h)

  update-IsQuiet : (scan : Scan) (s : Server t) → IsQuiet s → IsQuiet (update t scan.name scan s).1
  update-IsQuiet scan s h =
      rw (update_lem t scan s _ _ refl refl)
        (from_entry-IsQuiet scan s (lookup scan.name s.scanners) _ refl h)

  looked-IsQuiet :
      (scan : Scan) (b : Bool) (s : Server t) → IsQuiet s → IsQuiet (looked t scan.name scan b s).1
  looked-IsQuiet scan true s h =
      let (r, s') = update t scan.name scan s in
      subst IsQuiet (sym (enter-state t r s')) (update-IsQuiet scan s h)
  looked-IsQuiet scan false s h = h

  considered-IsQuiet :
      (n : String) (s : Server t) (r : Result (Option Scan))
      → IsSteadyForScans t.store s.store
      → (t.store.get_scan n s.store).0 ≡ r
      → IsQuiet s
      → IsQuiet (considered t n r s).1
  considered-IsQuiet n s (ok (some scan)) steady e h =
      subst (λ n. IsQuiet (looked t n scan scan.enabled s).1) (steady.named n scan e)
        (looked-IsQuiet scan scan.enabled s h)
  considered-IsQuiet n s (ok none) steady e h = h
  considered-IsQuiet n s (err x) steady e h = h
  considered-IsQuiet n s panic steady e h = h

  consider_all-IsQuiet :
      (ns keep : List String) (s : Server t)
      → IsSteadyForScans t.store s.store
      → IsQuiet s
      → IsQuiet (consider_all t ns keep s).1
  unfolding consider_all
  consider_all-IsQuiet [] keep s steady h = h
  consider_all-IsQuiet (n ∷ ns) keep s steady h =
      let s1 = (consider t n s).1 in
      let steady1 : IsSteadyForScans t.store s1.store =
        subst (IsSteadyForScans t.store) (sym (consider-Considers t n s steady).store) steady in
      let h1 : IsQuiet s1 =
        rw (consider_lem t n s _ steady refl) (considered-IsQuiet n s _ steady refl h) in
      continue_inv IsQuiet (consider t n s).0
        (λ kept. consider_all t ns (if kept then n ∷ keep else keep)) s1 h1
        (λ kept. consider_all-IsQuiet ns (if kept then n ∷ keep else keep) s1 steady1 h1)

  -- An entry is closed and deleted.
  IsQuiet-drop :
      (name : String) (r : Running t) (s : Server t)
      → lookup name s.scanners ≡ some r
      → IsQuiet s
      → IsQuiet (drop t name r s)
  IsQuiet-drop name r s p h = record {
    followed = λ i a.
        let (ne, b) = still-following r.tail i s.files a in
        elim (h.followed i b) [
          | inl f ↦ inl f
          | inr (k, x, e, q) ↦
              let z = other_name name k r x i s.scanners p ne e q in
              inr (k, x, rw (lookup-remove name k s.scanners, z) e, q)
        ];
    distinct = remove-Distinct name s.scanners h.distinct;
  }

  cleanup_loop-IsQuiet :
      (keep : List String) (l : Dict String (Running t)) (s : Server t)
      → Distinct (keys l)
      → Found s.scanners l
      → IsQuiet s
      → IsQuiet (cleanup_loop t keep l s)
  unfolding cleanup_loop
  cleanup_loop-IsQuiet keep [] s d f h = h
  cleanup_loop-IsQuiet keep ((n, r) ∷ l) s d f h = elim (Bool-cases (contains keep n)) [
    | inl p ↦ rw (cleanup_loop, p) (cleanup_loop-IsQuiet keep l s d.1 f.1 h)
    | inr p ↦
        rw (cleanup_loop, p)
          (cleanup_loop-IsQuiet keep l (drop t n r s) d.1 (Found-remove n s.scanners l d.0 f.1)
            (IsQuiet-drop n r s f.0 h))
  ]

  IsQuiet-ext :
      (s s' : Server t) → s'.files ≡ s.files → s'.scanners ≡ s.scanners → IsQuiet s → IsQuiet s'
  IsQuiet-ext s s' p q h = record {
    followed = λ i a. rw q (h.followed i (rw p at a));
    distinct = rw q h.distinct;
  }

  count-IsQuiet : (r : Result (Unit {0})) (s : Server t) → IsQuiet s → IsQuiet (count t r s)
  count-IsQuiet (ok u) s h = IsQuiet-ext s _ refl refl h
  count-IsQuiet (err e) s h = IsQuiet-ext s _ refl refl h
  count-IsQuiet panic s h = h

  swept-IsQuiet : (r : Result (List String)) (s : Server t) → IsQuiet s → IsQuiet (swept t r s).1
  unfolding cleanup
  swept-IsQuiet r s h =
      continue_inv IsQuiet r (λ keep s. (ok tt, cleanup t keep s)) s h
        (λ keep.
          cleanup_loop-IsQuiet keep s.scanners s h.distinct (Found-self s.scanners h.distinct) h)

  -- Whatever comes of a refresh, over a steady store and a tail library that keeps its documented laws:
  -- if every file that is followed belongs to a scanner of the table or is foreign, and no name is
  -- twice in the table, then so it is after the refresh.
  pub refresh-IsQuiet :
      (s : Server t) → IsSteadyForScans t.store s.store → IsQuiet s → IsQuiet (refresh t s).1
  unfolding refresh refresh_names
  refresh-IsQuiet s steady h = go (t.store.get_scan_names s.store).0 refl
    where
      go :
          (r : Result (List String))
          → (t.store.get_scan_names s.store).0 ≡ r
          → IsQuiet (count t (refresh_names t s).0 (refresh_names t s).1)
      go (ok ns) e = rw (refresh_names_lem t s ns steady e) (
          count-IsQuiet (swept t (consider_all t ns [] s).0 (consider_all t ns [] s).1).0
            (swept t (consider_all t ns [] s).0 (consider_all t ns [] s).1).1
            (swept-IsQuiet (consider_all t ns [] s).0 (consider_all t ns [] s).1
              (consider_all-IsQuiet ns [] s steady h)))
      go (err x) e = rw (refresh_names, e) (IsQuiet-ext s _ refl refl h)
      go panic e = rw (refresh_names, e) (IsQuiet-ext s _ refl refl h)
