-- ===== src/Scanner/Server/Update.antt =====
-- server.go: what the look at one name does to the table of scanners.
use visus.Prelude.{
  ◌≡◌, refl, ◌∙◌, ◌⊎◌, inl, inr, String, Bool, true, false, Option, none, some, [], string_eq, ◌==◌,
  arith, ==_refl,
}
use visus.Result.{Result, ok, err, panic, modify, attempt, ◌>>=◌}
use visus.Dict.{lookup, lookup-insert}
use visus.Store.Types.{Scan}
use visus.Scanner.Build.{Scanner, Building, from_config, scanner_from_config-Scans}
use visus.Scanner.Server.{
  Parts, Running, Server, add, build_scanner, start, started, up_to_date, update, stop_existing,
  stopped,
}

module _ (t : Parts) where
  -- The table has a scanner for the scan that is not older; or it could not be built over the registry
  -- `w`.
  abbrev pub Settled : Scan → t.prometheus.World → Server t → Type 0
  Settled scan w s =
      ((r : Running t) × (lookup scan.name s.scanners ≡ some r)
        × (up_to_date t (some r) scan ≡ true))
      ⊎ ((e : String) × ((from_config t.prometheus t.compile scan
              (record { metrics = []; world = w })).0
            ≡ err e))

  -- What the look at a scan leaves alone.
  pub record Steps (scan : Scan) (s s' : Server t) : Type 0 where
    pub others : (k : String) → scan.name == k ≡ false → lookup k s'.scanners ≡ lookup k s.scanners
    pub store : s'.store ≡ s.store

  abbrev pub rest : Scan → Server t → Result (Unit {0}) × Server t
  rest scan s =
      (attempt (build_scanner t scan.name scan) >>= λ built. modify (started t scan.name built)) s

  abbrev pub building : Scan → Server t → Result (Scanner t.prometheus) × Building t.prometheus
  building scan s =
      from_config t.prometheus t.compile scan (record { metrics = []; world = s.world })

  abbrev pub after : Scan → Server t → Server t
  after scan s = record s { world = (building scan s).1.world }

  -- By whether the scanner could be built.
  abbrev pub entered :
      Scan → Server t → Result (Scanner t.prometheus) → Result (Unit {0}) × Server t
  entered scan s (ok sc) = (ok tt, start t scan.name (add t scan.name sc (after scan s)))
  entered scan s (err e) = (ok tt, after scan s)
  entered scan s panic = (panic, after scan s)

  pub rest_lem :
      (scan : Scan) (s : Server t) (r : Result (Scanner t.prometheus))
      → (building scan s).0 ≡ r
      → rest scan s ≡ entered scan s r
  unfolding build_scanner
  rest_lem scan s (ok sc) e = rw e refl
  rest_lem scan s (err x) e = rw e refl
  rest_lem scan s panic e = rw e refl

  entered-Steps :
      (scan : Scan) (s : Server t) (r : Result (Scanner t.prometheus))
      → Steps scan s (entered scan s r).1
  unfolding start add
  entered-Steps scan s (ok sc) = record {
    others = λ k p. grind (arith, lookup-insert);
    store = refl;
  }
  entered-Steps scan s (err x) = record { others = λ k p. refl; store = refl }
  entered-Steps scan s panic = record { others = λ k p. refl; store = refl }

  entered-Settled :
      (scan : Scan) (s : Server t) (r : Result (Scanner t.prometheus))
      → (building scan s).0 ≡ r
      → (entered scan s r).0 ≡ ok tt
      → Settled scan s.world (entered scan s r).1
  unfolding start add
  entered-Settled scan s (ok sc) e h =
      let target = (scanner_from_config-Scans t.prometheus t.compile scan s.world sc e).target in
      inl (
        record { scanner = sc; tail = none; pending = true },
        grind (arith, lookup-insert, ==_refl scan.name),
        rw target (ground arith),
      )
  entered-Settled scan s (err x) e h = inr (x, e)
  entered-Settled scan s panic e h = cc

  rest-Steps : (scan : Scan) (s : Server t) → Steps scan s (rest scan s).1
  rest-Steps scan s = rw (rest_lem scan s _ refl) (entered-Steps scan s (building scan s).0)

  rest-Settled :
      (scan : Scan) (s : Server t) → (rest scan s).0 ≡ ok tt → Settled scan s.world (rest scan s).1
  rest-Settled scan s h =
      let e = rest_lem scan s _ refl in
      rw e (entered-Settled scan s (building scan s).0 refl (rw e at h))

  abbrev pub from_entry : Scan → Server t → Option (Running t) → Bool → Result (Unit {0}) × Server t
  from_entry scan s o true = (ok tt, s)
  from_entry scan s o false = rest scan (stop_existing t scan.name o s)

  pub update_lem :
      (scan : Scan) (s : Server t) (o : Option (Running t)) (b : Bool)
      → lookup scan.name s.scanners ≡ o
      → up_to_date t o scan ≡ b
      → update t scan.name scan s ≡ from_entry scan s o b
  unfolding update
  update_lem scan s o true p q = rw (p, q) refl
  update_lem scan s o false p q = rw (p, q) refl

  from_entry-Steps :
      (scan : Scan) (s : Server t) (o : Option (Running t)) (b : Bool)
      → Steps scan s (from_entry scan s o b).1
  from_entry-Steps scan s o true = record { others = λ k q. refl; store = refl }
  from_entry-Steps scan s none false = rest-Steps scan s
  from_entry-Steps scan s (some r) false =
      let step = rest-Steps scan (stop_existing t scan.name (some r) s) in
      record {
        others = λ k q.
            step.others k q ∙ rw (lookup-insert scan.name k (stopped t r) s.scanners, q) refl;
        store = step.store;
      }

  from_entry-Settled :
      (scan : Scan) (s : Server t) (o : Option (Running t)) (b : Bool)
      → lookup scan.name s.scanners ≡ o
      → up_to_date t o scan ≡ b
      → (from_entry scan s o b).0 ≡ ok tt
      → Settled scan s.world (from_entry scan s o b).1
  from_entry-Settled scan s none true p q h = cc
  from_entry-Settled scan s (some r) true p q h = inl (r, p, q)
  from_entry-Settled scan s none false p q h = rest-Settled scan s h
  from_entry-Settled scan s (some r) false p q h =
      rest-Settled scan (stop_existing t scan.name (some r) s) h

  -- The look at a scan that is enabled, under its own name.
  pub update-Steps : (scan : Scan) (s : Server t) → Steps scan s (update t scan.name scan s).1
  update-Steps scan s =
      rw (update_lem scan s _ _ refl refl) (from_entry-Steps scan s (lookup scan.name s.scanners) _)

  pub update-Settled :
      (scan : Scan) (s : Server t)
      → (update t scan.name scan s).0 ≡ ok tt
      → Settled scan s.world (update t scan.name scan s).1
  update-Settled scan s h =
      let e = update_lem scan s _ _ refl refl in
      rw e (from_entry-Settled scan s (lookup scan.name s.scanners) _ refl refl (rw e at h))
