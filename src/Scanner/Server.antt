-- ===== src/Scanner/Server.antt =====
-- internal/scanner/server.go, and `scan` and `Stop` of internal/scanner/scanner.go: the table of
-- scanners, its refresh from the store, and the goroutine of a scanner that opens its file. The
-- methods run one after the other.
pub mod Update
pub mod Names
pub mod Loop
pub mod Refresh
pub mod Files
mod Examples
use visus.Prelude.{
  ℕ, suc, String, Bool, true, false, not, Option, none, some, List, [], ◌∷◌, string_eq,
  if◌then◌else◌, ltb, contains, map,
}
use visus.Result.{Result, Op, ok, err, panic, deref, pure, lift, gets, modify, attempt, ◌>>=◌, ◌>>◌}
use visus.Dict.{Dict, lookup, insert, remove}
use visus.Store.Types.{Store, Scan}
use visus.External.Prometheus.{Prometheus}
use visus.External.Tail.{Tailing, Config}
use visus.Scanner.Crdb.{Regexp}
use visus.Scanner.Build.{Scanner, from_config}

pub record Parts : Type 1 where
  pub S : Type 0
  pub store : Store S
  pub prometheus : Prometheus
  pub compile : String → Result Regexp
  pub tailing : Tailing
  -- The fields of the server's own configuration.
  pub from_beginning : Bool
  pub inotify : Bool

-- A scanner with its tail, which is nil while no file is open. `pending`: it was started, and the
-- goroutine that calls `scan` has not run yet.
pub record Running (t : Parts) : Type 0 where
  pub scanner : Scanner t.prometheus
  pub tail : Option t.tailing.Tail
  pub pending : Bool

-- `retired` are the scanners that the table no longer has, which their goroutines still do.
pub record Server (t : Parts) : Type 0 where
  pub store : t.S
  pub world : t.prometheus.World
  pub files : t.tailing.Files
  pub scanners : Dict String (Running t)
  pub retired : List (Running t)
  pub refresh_errors : ℕ
  pub refresh_counts : ℕ

module _ (t : Parts) where
  abbrev pub Run {ℓ} : Type ℓ → Type ℓ
  Run A = Op (Server t) A

  abbrev pub on_store {ℓ} : {A : Type ℓ} → Op t.S A → Run A
  on_store call s = let (r, st) = call s.store in (r, record s { store = st })

  abbrev pub config : Config
  config = record { follow = true; from_beginning = t.from_beginning; poll = not t.inotify }

  -- `Stop`: the error of the tail is what it returns, and its callers only log it.
  abbrev pub close : Option t.tailing.Tail → t.tailing.Files → t.tailing.Files
  close none f = f
  close (some tail) f = let (e, f') = t.tailing.stop tail f in t.tailing.cleanup tail f'

  abbrev pub stopped : Running t → Running t
  stopped r = record r { tail = none }

  -- The scanner behind a name of the table is stopped, and stays there.
  abbrev pub stop_existing : String → Option (Running t) → Server t → Server t
  stop_existing name none s = s
  stop_existing name (some r) s = record s {
    files = close r.tail s.files;
    scanners = insert name (stopped r) s.scanners;
  }

  abbrev pub retire : Option (Running t) → List (Running t) → List (Running t)
  retire none rs = rs
  retire (some r) rs = r ∷ rs

  -- `add`: what the table had under the name is left to its goroutines.
  unfoldable pub add : String → Scanner t.prometheus → Server t → Server t
  add name sc s = record s {
    retired = retire (lookup name s.scanners) s.retired;
    scanners = insert name (record { scanner = sc; tail = none; pending = false }) s.scanners;
  }

  abbrev pub build : Scan → Run (Scanner t.prometheus)
  build scan s =
      let (r, b) =
        from_config t.prometheus t.compile scan (record { metrics = []; world = s.world }) in
      (r, record s { world = b.world })

  unfoldable pub build_scanner : String → Scan → Run (Unit {0})
  unfolding add
  build_scanner name scan = do sc ← build scan; modify (add name sc)

  -- `Start` has two goroutines begin, and returns nil.
  abbrev pub begun : Option (Running t) → String → Dict String (Running t) → Dict String (Running t)
  begun none name d = d
  begun (some r) name d = insert name (record r { pending = true }) d

  unfoldable pub start : String → Server t → Server t
  start name s = record s { scanners = begun (lookup name s.scanners) name s.scanners }

  -- `found && !existing.GetLastModified().Before(scan.LastModified.Time)`
  abbrev pub up_to_date : Option (Running t) → Scan → Bool
  up_to_date none scan = false
  up_to_date (some r) scan = not (ltb r.scanner.target.last_modified.time scan.last_modified.time)

  abbrev pub started : String → Option (Unit {0}) → Server t → Server t
  started name none s = s
  started name (some u) s = start name s

  -- A scan that is enabled, from the look at the table on. An error of the building is only logged.
  unfoldable pub update : String → Scan → Run (Unit {0})
  unfolding build_scanner
  update name scan = do
    existing ← gets (λ s. lookup name s.scanners)
    if up_to_date existing scan then pure tt else do
      modify (stop_existing name existing)
      built ← attempt (build_scanner scan.name scan)
      modify (started scan.name built)

  -- The body of the loop over the names: whether the name is kept.
  unfoldable pub consider : String → Run Bool
  unfolding update
  consider name = do
    result ← attempt (on_store (t.store.get_scan name))
    elim result [
      | none ↦ pure false
      | some found ↦ do
        scan ← lift (deref found)
        if not scan.enabled then pure false else do update name scan; pure true
    ]

  unfoldable pub consider_all : List String → List String → Run (List String)
  consider_all [] keep = pure keep
  consider_all (name ∷ names) keep = do
    kept ← consider name
    consider_all names (if kept then name ∷ keep else keep)

  abbrev pub drop : String → Running t → Server t → Server t
  drop name r s = record s {
    files = close r.tail s.files;
    retired = stopped r ∷ s.retired;
    scanners = remove name s.scanners;
  }

  -- `cleanup`, over the entries that the table had at its start.
  unfoldable pub cleanup_loop : List String → Dict String (Running t) → Server t → Server t
  cleanup_loop keep [] s = s
  cleanup_loop keep ((name, r) ∷ rest) s =
      cleanup_loop keep rest (if contains keep name then s else drop name r s)

  unfoldable pub cleanup : List String → Server t → Server t
  unfolding cleanup_loop
  cleanup keep s = cleanup_loop keep s.scanners s

  unfoldable pub refresh_names : Run (Unit {0})
  unfolding cleanup
  refresh_names = do
    names ← on_store t.store.get_scan_names
    keep ← consider_all names []
    modify (cleanup keep)

  abbrev pub count : Result (Unit {0}) → Server t → Server t
  count (ok u) s = record s { refresh_counts = suc s.refresh_counts }
  count (err e) s = record s { refresh_errors = suc s.refresh_errors }
  count panic s = s

  -- `Refresh`, with the counters of refreshes and of errors.
  unfoldable pub refresh : Run (Unit {0})
  unfolding refresh_names
  refresh s = let (r, s') = refresh_names s in (r, count r s')

  -- `scan`, which the goroutine of a scanner calls: the file is opened, unless one is.
  abbrev pub opened_with :
      Running t → Result t.tailing.Tail × t.tailing.Files → Running t × t.tailing.Files
  opened_with r (ok tail, f) = (record r { tail = some tail; pending = false }, f)
  opened_with r (err e, f) = (record r { tail = none; pending = false }, f)
  opened_with r (panic, f) = (record r { pending = false }, f)

  abbrev pub scan_with :
      Option t.tailing.Tail → Running t → t.tailing.Files → Running t × t.tailing.Files
  scan_with none r f = opened_with r (t.tailing.tail_file r.scanner.target.path config f)
  scan_with (some tail) r f = (record r { pending = false }, f)

  unfoldable pub scan : Running t → t.tailing.Files → Running t × t.tailing.Files
  scan r f = scan_with r.tail r f
