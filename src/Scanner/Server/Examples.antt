-- ===== src/Scanner/Server/Examples.antt =====
-- server.go: a refresh over the store in memory.
use visus.Prelude.{
  ℕ, suc, String, List, ◌≢◌, ◌⊎◌, ◌==◌, nat_eq, if◌then◌else◌, ◌≡◌, refl, true, false, ◌&&◌, none,
  some, [], ◌∷◌, contains, string_eq, sort, string_le, arith, Option-cases, inl, inr,
}
use visus.Result.{ok}
use visus.Dict.{lookup, insert, remove}
use visus.Store.Types.{Scan}
use visus.Store.Memory.{Memory, memory_store, get_scan, get_scan_names, get_names}
use visus.Store.Memory.Names.{IsConsistent, IsIndexed-lookup}
use visus.Store.Memory.Sample.{auth_log, filled, filled-IsConsistent}
use visus.Sample.{sample_prometheus}
use visus.External.Tail.{Tailing, TailingLaws}
use visus.Scanner.Build.{from_config, add_counters, crdb_v2_parser}
use visus.Scanner.Server.{
  Parts, Server, Running, refresh, refresh_names, cleanup, cleanup_loop, consider_all, consider,
  update, build_scanner, add, start, scan,
}
use visus.Scanner.Server.Files.{IsQuiet, refresh-IsQuiet}
use visus.Scanner.Server.Names.{IsSteadyForScans, wanted}
use visus.Scanner.Server.Refresh.{Outcome, refresh-Outcome}

abbrev without : ℕ → List ℕ → List ℕ
without t [] = []
without t (u ∷ ts) = let rest = without t ts in if t == u then rest else u ∷ rest

-- Tails are numbered as they are opened; the files are the next number and the tails that follow.
abbrev tailing : Tailing
tailing = record {
  Files = ℕ × List ℕ;
  Tail = ℕ;
  tail_file = λ path config f. (ok f.0, (suc f.0, f.0 ∷ f.1));
  stop = λ tail f. (none, (f.0, without tail f.1));
  cleanup = λ tail f. f;
}

without_self : (t : ℕ) (ts : List ℕ) → contains (without t ts) t ≡ false
without_self t [] = refl
without_self t (u ∷ ts) =
    ground (arith, without_self t ts, nat_eq.same_iff t u, nat_eq.same_iff u t)

without_other : (i t : ℕ) (ts : List ℕ) → i ≢ t → contains (without t ts) i ≡ contains ts i
without_other i t [] h = refl
without_other i t (u ∷ ts) h =
    ground (arith, without_other i t ts h, nat_eq.same_iff t u, nat_eq.same_iff u i)

abbrev tailing_laws : TailingLaws tailing
tailing_laws = record {
  following = λ i f. contains f.1 i;
  stop_self = λ t f. without_self t f.1;
  stop_other = λ i t f h. without_other i t f.1 h;
  cleanup_keeps = λ i t f. refl;
}

abbrev parts : Parts
parts = record {
  S = Memory;
  store = memory_store;
  prometheus = sample_prometheus;
  compile = λ s. ok (record { source = s; matches = λ line. true });
  tailing = tailing;
  from_beginning = false;
  inotify = false;
}

memory-IsSteadyForScans : (m : Memory) → IsConsistent m → IsSteadyForScans memory_store m
unfolding get_scan get_scan_names get_names
memory-IsSteadyForScans m h = record {
  reads = λ n. ground arith;
  lists = ground arith;
  named = λ n c q. elim (Option-cases m.scans) [
    | inl p ↦ ground arith
    | inr (d, p) ↦ IsIndexed-lookup (λ c. c.name) n c d (rw p at h.scans) (ground arith)
  ];
}

abbrev scanner_of : ℕ → Scan → Running parts
scanner_of n s = record {
  scanner = record { metrics = []; target = s; parser = crdb_v2_parser };
  tail = some n;
  pending = false;
}

-- An older scanner for the log, and one for a log that the store does not have any more.
abbrev before : Server parts
before = record {
  store = filled;
  world = ([], λ _ _. true);
  files = (3, 2 ∷ 1 ∷ []);
  scanners =
      ("auth", scanner_of 1 (record auth_log { last_modified = record { time = 1; valid = true } }))
      ∷ ("gone", scanner_of 2 (record auth_log { name = "gone" }))
      ∷ [];
  retired = [];
  refresh_errors = 0;
  refresh_counts = 0;
}

listed : (memory_store.get_scan_names filled).0 ≡ ok ("auth" ∷ [])
unfolding get_scan_names get_names sort string_le
listed = refl

refreshed : (refresh parts before).0 ≡ ok tt
unfolding refresh refresh_names cleanup cleanup_loop consider_all consider update build_scanner add
    start from_config add_counters lookup insert remove get_scan get_scan_names get_names sort
    string_le
refreshed = refl

refresh-Outcome_example :
    Outcome parts
      (contains {A = String} ("auth" ∷ []) "auth" && wanted parts filled "auth")
      ("auth" ∷ [])
      before
      "auth"
      (refresh parts before).1
refresh-Outcome_example =
    refresh-Outcome parts before ("auth" ∷ []) "auth"
      (memory-IsSteadyForScans filled filled-IsConsistent) listed refreshed

-- Nobody else follows a file.
abbrev Nobody : ℕ → Type 0
Nobody i = ⊥

followed_tails : (i : ℕ) → contains (2 ∷ 1 ∷ []) i ≡ true → (i ≡ 1) ⊎ (i ≡ 2)
followed_tails i h = ground (arith, nat_eq.same_iff 1 i, nat_eq.same_iff 2 i)

before-IsQuiet : IsQuiet parts tailing_laws Nobody before
unfolding lookup
before-IsQuiet = record {
  followed = λ i a. elim (followed_tails i a) [
    | inl z ↦ inr ("auth", _, refl, rw z refl)
    | inr z ↦ inr ("gone", _, refl, rw z refl)
  ];
  distinct = (refl, (refl, tt));
}

refresh-IsQuiet_example : IsQuiet parts tailing_laws Nobody (refresh parts before).1
refresh-IsQuiet_example =
    refresh-IsQuiet parts tailing_laws Nobody before
      (memory-IsSteadyForScans filled filled-IsConsistent) before-IsQuiet

-- Both tails are closed, since the one scan has changed and the other is gone.
closes : (refresh parts before).1.files ≡ (3, [])
unfolding refresh refresh_names cleanup cleanup_loop consider_all consider update build_scanner add
    start from_config add_counters lookup insert remove get_scan get_scan_names get_names sort
    string_le
closes = refl

-- A scanner that is stopped before its goroutine runs opens its file all the same.
late :
    (scan parts (record (scanner_of 1 auth_log) { tail = none; pending = true }) (5, [])).0.tail
    ≡ some 5
unfolding scan
late = refl
