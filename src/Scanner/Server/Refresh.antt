-- ===== src/Scanner/Server/Refresh.antt =====
-- server.go: what a refresh makes of the table of scanners.
use visus.Prelude.{
  ◌≡◌, refl, ap, sym, ◌∙◌, inl, inr, String, Bool, true, false, not, ◌&&◌, none, List, [], ◌∷◌,
  string_eq, ◌==◌, if◌then◌else◌, arith, Bool-cases, contains,
}
use visus.Result.{Result, ok, err, panic, continue}
use visus.Dict.{Dict, keys, lookup, lookup-remove, contains-keys}
use visus.Scanner.Server.{
  Parts, Running, Server, consider_all, cleanup, cleanup_loop, refresh_names, refresh, count, drop,
}
use visus.Scanner.Server.Names.{IsSteadyForScans, wanted, SettledIn}
use visus.Scanner.Server.Loop.{SettledIn-same, ConsidersAll, consider_all-ConsidersAll}

module _ (t : Parts) where
  cleanup_loop-lookup :
      (keep : List String) (l : Dict String (Running t)) (s : Server t) (k : String)
      → lookup k (cleanup_loop t keep l s).scanners
        ≡ (if not (contains keep k) && contains (keys l) k then none else lookup k s.scanners)
  unfolding cleanup_loop
  cleanup_loop-lookup keep [] s k = ground arith
  cleanup_loop-lookup keep ((n, r) ∷ l) s k = elim (Bool-cases (contains keep n)) [
    | inl p ↦
        rw (cleanup_loop, p)
          (elim (Bool-cases (n == k)) [
            | inl q ↦
                let kept = ap (contains keep) (sym ((string_eq.same_iff n k).0 q)) ∙ p in
                ground (arith, cleanup_loop-lookup keep l s k, kept)
            | inr q ↦ ground (arith, cleanup_loop-lookup keep l s k)
          ])
    | inr p ↦
        rw (cleanup_loop, p)
          (elim (Bool-cases (n == k)) [
            | inl q ↦
                let gone = ap (contains keep) (sym ((string_eq.same_iff n k).0 q)) ∙ p in
                ground (
                  arith,
                  cleanup_loop-lookup keep l (drop t n r s) k,
                  gone,
                  lookup-remove n k s.scanners,
                )
            | inr q ↦
                ground
                  (arith, cleanup_loop-lookup keep l (drop t n r s) k, lookup-remove n k s.scanners)
          ])
  ]

  -- The table keeps what the loop kept, and nothing else.
  cleanup-lookup :
      (keep : List String) (s : Server t) (k : String)
      → lookup k (cleanup t keep s).scanners
        ≡ (if contains keep k then lookup k s.scanners else none)
  unfolding cleanup
  cleanup-lookup keep s k =
      ground (arith, cleanup_loop-lookup keep s.scanners s k, contains-keys k s.scanners)

  abbrev pub swept : Result (List String) → Server t → Result (Unit {0}) × Server t
  swept r s = continue r (λ keep s. (ok tt, cleanup t keep s)) s

  pub refresh_names_lem :
      (s : Server t) (ns : List String)
      → IsSteadyForScans t.store s.store
      → (t.store.get_scan_names s.store).0 ≡ ok ns
      → refresh_names t s ≡ swept (consider_all t ns [] s).0 (consider_all t ns [] s).1
  unfolding refresh_names
  refresh_names_lem s ns h e = rw (e, h.lists) refl

  -- What a refresh does to a name, by whether the store lists it with an enabled scan.
  abbrev pub Outcome : Bool → List String → Server t → String → Server t → Type 0
  Outcome true ns s0 k s = SettledIn t ns s0 k s
  Outcome false ns s0 k s = lookup k s.scanners ≡ none

  -- A refresh that succeeds, over a steady store that lists some names, leaves exactly the listed names
  -- of enabled scans in the table: each has a scanner whose configuration is not older than the stored
  -- one, unless it could not be built with the registry as this refresh had left it when it came to
  -- the name; and there is none for any other name.
  pub refresh-Outcome :
      (s : Server t) (ns : List String) (k : String)
      → IsSteadyForScans t.store s.store
      → (t.store.get_scan_names s.store).0 ≡ ok ns
      → (refresh t s).0 ≡ ok tt
      → Outcome (contains ns k && wanted t s.store k) ns s k (refresh t s).1
  unfolding refresh
  refresh-Outcome s ns k h e r =
      let all = refresh_names_lem s ns h e in
      let done : (swept (consider_all t ns [] s).0 (consider_all t ns [] s).1).0 ≡ ok tt =
        sym (ap (λ z. z.0) all) ∙ r in
      rw all (go (consider_all t ns [] s).0 refl done (contains ns k && wanted t s.store k) refl)
    where
      loop : ConsidersAll t ns [] s (consider_all t ns [] s)
      loop = consider_all-ConsidersAll t ns [] s h

      go :
          (r : Result (List String))
          → (consider_all t ns [] s).0 ≡ r
          → (swept r (consider_all t ns [] s).1).0 ≡ ok tt
          → (b : Bool) → (contains ns k && wanted t s.store k) ≡ b
          → Outcome b ns s k (
              count t (swept r (consider_all t ns [] s).1).0 (swept r (consider_all t ns [] s).1).1)
      go (ok keep) p d true q =
          let kept : contains keep k ≡ true = loop.kept keep k p ∙ q in
          SettledIn-same t ns s k (consider_all t ns [] s).1
            (count t (ok tt) (cleanup t keep (consider_all t ns [] s).1)) h
            (rw (cleanup-lookup keep (consider_all t ns [] s).1 k, kept) refl)
            (loop.settled keep k p q)
      go (ok keep) p d false q =
          let gone : contains keep k ≡ false = loop.kept keep k p ∙ q in
          rw (cleanup-lookup keep (consider_all t ns [] s).1 k, gone) refl
      go (err x) p d b q = cc
      go panic p d b q = cc
