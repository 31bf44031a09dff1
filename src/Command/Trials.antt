-- ===== src/Command/Trials.antt =====
-- The test commands of internal/cmd/collection/admin.go and internal/cmd/scan/admin.go come to an end.
use visus.Prelude.{ℕ, ◌+◌, ◌≡◌, ◌≢◌, refl, String, true, Option, none, some, ltb, pos}
use visus.Result.{Result, ok, err, panic, raise, continue, continue-ne-ok}
use visus.Store.Types.{Collection, Scan}
use visus.Command.Rounds.{rounds, rounds-ne-none}
use visus.Command.Collection.Test
use visus.Command.Scan.Test as ScanTest

module _ (t : Test.Parts) (n fuel : ℕ) (some_rounds : ltb 0 n ≡ true)
    (enough : ltb n (fuel + 1) ≡ true) where
  collection-tried :
      (name : String) (found : Option Collection) (s : Test.Trial t)
      → (Test.tried t name (pos n) fuel found s).0 ≢ ok none
  unfolding Test.run
  collection-tried name none s q = cc
  collection-tried name (some coll) s q =
      continue-ne-ok (Test.build t coll s).0 (Test.run t name coll (pos n) fuel)
        (Test.build t coll s).1 none
        (λ collector s.
          rounds-ne-none (Test.round t name coll) n fuel 1
            (record {
              session = record { collector = collector; world = s.world; conn = s.conn };
              out = s.out;
            })
            enough some_rounds)
        q

  -- The test command of collections comes to an end if it is to run some number of rounds, and there is
  -- that much fuel.
  pub collection_test-ne-none :
      (provided connected : Result (Unit {0})) (name : String) (s : Test.Trial t)
      → (Test.test_cmd t provided connected name (pos n) fuel s).0 ≢ ok none
  unfolding Test.test_cmd
  collection_test-ne-none provided connected name s = continue-ne-ok provided _ s none (λ u s.
      continue-ne-ok connected _ s none (λ u s.
        continue-ne-ok (Test.fetched t name s).0 (Test.tried t name (pos n) fuel)
          (Test.fetched t name s).1 none (λ found s. collection-tried name found s)))

module _ (t : ScanTest.Parts) (n fuel : ℕ) (some_rounds : ltb 0 n ≡ true)
    (enough : ltb n (fuel + 1) ≡ true) where
  raise-ne-none : (e : Option String) (u : Unit {0}) → raise e (some u) ≢ ok none
  raise-ne-none none u q = cc
  raise-ne-none (some x) u q = cc

  then-stopped :
      (r : Result (Option (Unit {0}))) (s : ScanTest.Trial t)
      → r ≢ ok none
      → (continue r (λ ended s. (ScanTest.stopped t ended, s)) s).0 ≢ ok none
  then-stopped (ok none) s h q = h refl
  then-stopped (ok (some u)) s h q = raise-ne-none t.stop u q
  then-stopped (err e) s h q = cc
  then-stopped panic s h q = cc

  scan-tried :
      (name : String) (found : Option Scan) (s : ScanTest.Trial t)
      → (ScanTest.tried t name (pos n) fuel found s).0 ≢ ok none
  scan-tried name none s q = cc
  scan-tried name (some scan) s q =
      continue-ne-ok (ScanTest.build t scan s).0
        (λ scanner s.
          let (r, s') = rounds (pos n) (ScanTest.round t scan scanner) fuel 1 s in
          continue r (λ ended s. (ScanTest.stopped t ended, s)) s')
        (ScanTest.build t scan s).1 none
        (λ scanner s.
          let (r, s') = rounds (pos n) (ScanTest.round t scan scanner) fuel 1 s in
          then-stopped r s'
            (rounds-ne-none (ScanTest.round t scan scanner) n fuel 1 s enough some_rounds))
        q

  pub scan_test-ne-none :
      (provided : Result (Unit {0})) (name : String) (s : ScanTest.Trial t)
      → (ScanTest.test_cmd t provided name (pos n) fuel s).0 ≢ ok none
  unfolding ScanTest.test_cmd
  scan_test-ne-none provided name s = continue-ne-ok provided _ s none (λ u s.
      continue-ne-ok (ScanTest.fetched t name s).0 (ScanTest.tried t name (pos n) fuel)
        (ScanTest.fetched t name s).1 none (λ found s. scan-tried name found s))
