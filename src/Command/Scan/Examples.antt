-- ===== src/Command/Scan/Examples.antt =====
-- admin.go: two rounds of the test of a scan.
use visus.Prelude.{
  ◌≡◌, ◌≢◌, refl, true, none, some, [], ◌∷◌, pos, String, if◌then◌else◌, ◌==◌, nat_eq, string_eq,
  starts,
}
use visus.Result.{ok, err}
use visus.Dict.{lookup}
use visus.Store.Memory.{Memory, memory_store, get_scan}
use visus.Store.Memory.Sample.{filled}
use visus.Sample.{sample_prometheus}
use visus.Scanner.Build.{from_config}
use visus.Scanner.Lines.{parse_lines}
use visus.Command.Trials.{scan_test-ne-none}
use visus.Command.Rounds.{rounds}
use visus.Command.Scan.Test.{Parts, Trial, test_cmd}

abbrev parts : Parts
parts = record {
  S = Memory;
  store = memory_store;
  prometheus = sample_prometheus;
  compile = λ s. ok (record { source = s; matches = λ line. true });
  unmarshal = λ s. err "no object";
  error_counts = ("errors", 1);
  gatherer = record {
    Family = String;
    gather = λ w. (ok ("auth_failed" ∷ "up" ∷ []), w);
    name = λ f. f;
    text = λ f. f;
  };
  wait = λ i. if i == 3 then some "canceled" else none;
  time = λ i. "noon";
  lines = λ i. "I250407 20:23 4 4@a.go:39 x" ∷ [];
  stop = none;
}

abbrev trial : Trial parts
trial = record { store = filled; world = ([], λ _ _. true); out = [] }

two_rounds : (test_cmd parts (ok tt) "auth" (pos 2) 2 trial).0 ≡ ok (some tt)
unfolding test_cmd get_scan from_config parse_lines rounds lookup starts
two_rounds = refl

printed :
    (test_cmd parts (ok tt) "auth" (pos 1) 1 trial).1.out
    ≡ "\n---- noon auth -----\n" ∷ "auth_failed" ∷ []
unfolding test_cmd get_scan from_config parse_lines rounds lookup starts
printed = refl

canceled : (test_cmd parts (ok tt) "auth" (pos 0) 9 trial).0 ≡ err "canceled"
unfolding test_cmd get_scan from_config parse_lines rounds lookup starts
canceled = refl

not_found :
    (test_cmd parts (ok tt) "missing" (pos 1) 1 trial).1.out ≡ "Scan missing not found\n" ∷ []
unfolding test_cmd get_scan lookup
not_found = refl

scan_test-ne-none_example : (test_cmd parts (ok tt) "auth" (pos 2) 2 trial).0 ≢ ok none
scan_test-ne-none_example = scan_test-ne-none parts 2 2 refl refl (ok tt) "auth" trial
