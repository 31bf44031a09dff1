-- ===== src/Scanner/Server/Names.antt =====
-- server.go: what the loop of a refresh does at one name.
use visus.Prelude.{
  ◌≡◌, refl, ap, sym, ◌∙◌, subst, inl, inr, String, Bool, true, false, Option, none, some, List, [],
  ◌∷◌, ◌++◌, string_eq, ◌==◌, Bool-cases,
}
use visus.Result.{Result, ok, err, panic, pure, continue}
use visus.Dict.{lookup}
use visus.Store.Types.{Store, Scan}
use visus.Scanner.Server.{Parts, Server, update, consider}
use visus.Scanner.Server.Update.{Settled, update-Steps, update-Settled}

-- At this state of the store reading the scans changes nothing, and gives each under its own name.
pub record IsSteadyForScans {S : Type 0} (store : Store S) (st : S) : Type 0 where
  pub reads : (n : String) → (store.get_scan n st).1 ≡ st
  pub lists : (store.get_scan_names st).1 ≡ st
  pub named : (n : String) (scan : Scan) → (store.get_scan n st).0 ≡ ok (some scan) → scan.name ≡ n

abbrev pub is_enabled : Result (Option Scan) → Bool
is_enabled (ok (some scan)) = scan.enabled
is_enabled (ok none) = false
is_enabled (err e) = false
is_enabled panic = false

module _ (t : Parts) where
  -- The store has an enabled scan under the name.
  abbrev pub wanted : t.S → String → Bool
  wanted st n = is_enabled (t.store.get_scan n st).0

  abbrev pub SettledName : t.S → String → t.prometheus.World → Server t → Type 0
  SettledName st n w s =
      (scan : Scan) × ((t.store.get_scan n st).0 ≡ ok (some scan)) × Settled t scan w s

  -- The server once the loop has been through these names.
  abbrev pub reached : List String → Server t → Server t
  reached [] s = s
  reached (n ∷ ns) s = reached ns (consider t n s).1

  -- The name is settled with the registry as it was when the loop came to it.
  abbrev pub SettledIn : List String → Server t → String → Server t → Type 0
  SettledIn names s0 k s =
      (before : List String) × (after : List String) × (names ≡ before ++ (k ∷ after))
      × SettledName s0.store k (reached before s0).world s

  -- What the look at the name `n` does.
  pub record Considers (n : String) (s : Server t) (r : Result Bool × Server t) : Type 0 where
    pub others : (k : String) → n == k ≡ false → lookup k r.1.scanners ≡ lookup k s.scanners
    pub store : r.1.store ≡ s.store
    pub kept : (b : Bool) → r.0 ≡ ok b → b ≡ wanted s.store n
    pub settled : r.0 ≡ ok true → SettledName s.store n s.world r.1

  abbrev pub enter : Result (Unit {0}) → Server t → Result Bool × Server t
  enter r s = continue r (λ _. pure true) s

  pub enter-state : (r : Result (Unit {0})) (s : Server t) → (enter r s).1 ≡ s
  enter-state (ok u) s = refl
  enter-state (err e) s = refl
  enter-state panic s = refl

  enter-eq-ok :
      (r : Result (Unit {0})) (s : Server t) (b : Bool)
      → (enter r s).0 ≡ ok b
      → (r ≡ ok tt) × (b ≡ true)
  enter-eq-ok (ok u) s b h = (refl, let z : b ≡ true = cc in z)
  enter-eq-ok (err e) s b h = cc
  enter-eq-ok panic s b h = cc

  abbrev pub looked : String → Scan → Bool → Server t → Result Bool × Server t
  looked n scan true s = let (r, s') = update t n scan s in enter r s'
  looked n scan false s = (ok false, s)

  abbrev pub considered : String → Result (Option Scan) → Server t → Result Bool × Server t
  considered n (ok (some scan)) s = looked n scan scan.enabled s
  considered n (ok none) s = (panic, s)
  considered n (err e) s = (ok false, s)
  considered n panic s = (panic, s)

  pub consider_lem :
      (n : String) (s : Server t) (r : Result (Option Scan))
      → IsSteadyForScans t.store s.store
      → (t.store.get_scan n s.store).0 ≡ r
      → consider t n s ≡ considered n r s
  unfolding consider
  consider_lem n s (ok (some scan)) h e = elim (Bool-cases scan.enabled) [
    | inl p ↦ rw (e, h.reads n, p) refl
    | inr p ↦ rw (e, h.reads n, p) refl
  ]
  consider_lem n s (ok none) h e = rw (e, h.reads n) refl
  consider_lem n s (err x) h e = rw (e, h.reads n) refl
  consider_lem n s panic h e = rw (e, h.reads n) refl

  unchanged-Considers :
      (n : String) (s : Server t) (r : Result Bool)
      → (r ≡ ok true → ⊥)
      → ((b : Bool) → r ≡ ok b → b ≡ wanted s.store n)
      → Considers n s (r, s)
  unchanged-Considers n s r h k = record {
    others = λ k p. refl;
    store = refl;
    kept = k;
    settled = λ e. absurd (h e);
  }

  looked-Considers :
      (scan : Scan) (b : Bool) (s : Server t)
      → (t.store.get_scan scan.name s.store).0 ≡ ok (some scan)
      → scan.enabled ≡ b
      → Considers scan.name s (looked scan.name scan b s)
  looked-Considers scan true s e p =
      let (r, s') = update t scan.name scan s in
      let same = enter-state r s' in
      let step = update-Steps t scan s in
      record {
        others = λ k q. ap (λ w. lookup k w.scanners) same ∙ step.others k q;
        store = ap (λ w. w.store) same ∙ step.store;
        kept = λ b q. rw (e, p) ((enter-eq-ok r s' b q).1);
        settled = λ q. (
          scan,
          e,
          subst (Settled t scan s.world) (sym same)
              (update-Settled t scan s (enter-eq-ok r s' true q).0),
        );
      }
  looked-Considers scan false s e p =
      unchanged-Considers scan.name s (ok false) (λ q. cc)
        (λ b q. rw (e, p) (let z : b ≡ false = cc in z))

  considered-Considers :
      (n : String) (s : Server t) (r : Result (Option Scan))
      → IsSteadyForScans t.store s.store
      → (t.store.get_scan n s.store).0 ≡ r
      → Considers n s (considered n r s)
  considered-Considers n s (ok (some scan)) h e =
      let q = h.named n scan e in
      subst (λ n. Considers n s (looked n scan scan.enabled s)) q
        (looked-Considers scan scan.enabled s
          (subst (λ n. (t.store.get_scan n s.store).0 ≡ ok (some scan)) (sym q) e) refl)
  considered-Considers n s (ok none) h e = unchanged-Considers n s panic (λ q. cc) (λ b q. cc)
  considered-Considers n s (err x) h e =
      unchanged-Considers n s (ok false) (λ q. cc) (λ b q. rw e (let z : b ≡ false = cc in z))
  considered-Considers n s panic h e = unchanged-Considers n s panic (λ q. cc) (λ b q. cc)

  pub consider-Considers :
      (n : String) (s : Server t)
      → IsSteadyForScans t.store s.store
      → Considers n s (consider t n s)
  consider-Considers n s h = rw (consider_lem n s _ h refl) (considered-Considers n s _ h refl)
