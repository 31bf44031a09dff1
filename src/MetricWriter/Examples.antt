-- ===== src/MetricWriter/Examples.antt =====
-- writer.go with one translator, over whole numbers for float64 numbers.
use visus.Prelude.{◌≡◌, refl, true, false, List, [], ◌∷◌, ◌++◌, none, some, ◌==◌, string_eq, pos}
use visus.Result.{ok, err}
use visus.Translator.Sample.{whole}
use visus.Translator.Bucket.{add_log10_buckets, run_bins, next_bound}
use visus.Translator.Load.{Translator}
use visus.Translator.Translate.{MetricFamily, translate_metrics, translate_metric, add_all}
use visus.MetricWriter.{Writer, new_writer, source_of, endpoint, set_translators}
use visus.MetricWriter.Written.{Writes, all_copies, copies, translations}
use visus.MetricWriter.Histograms.{
  Libraries, IsReliable, writer_parts, translators-IsPlain, copy-histograms,
}

abbrev Family : Type 0
Family = MetricFamily whole Unit

abbrev up : Family
up = record { name = "up"; is_histogram = false; buckets = []; other = tt }

-- A histogram with buckets up to 40 and without a bound.
abbrev latency : Family
latency = record {
  name = "latency";
  is_histogram = true;
  buckets =
      (record { upper_bound = 40; cumulative_count = 10 }
        ∷ record { upper_bound = 10_000; cumulative_count = 12 }
        ∷ [])
      ∷ [];
  other = tt;
}

abbrev translated : Family
translated = record latency {
  buckets =
      (record { upper_bound = 40; cumulative_count = 12 }
        ∷ record { upper_bound = 50; cumulative_count = 12 }
        ∷ record { upper_bound = 60; cumulative_count = 12 }
        ∷ [])
      ∷ [];
}

abbrev libraries : Libraries Family (List Family)
libraries = record {
  Bytes = List Family;
  parse_url = λ url. ok (record { scheme = "http"; path = "/vars" });
  open_file = λ path. err "no such file";
  get = λ url. ok (record { status_code = 200; status = "OK"; body = up ∷ latency ∷ [] });
  text_to_metric_families = λ b. ok b;
  metric_family_to_text = λ mf out. (ok tt, out ++ (mf ∷ []));
}

abbrev reliable : IsReliable libraries
reliable = record { written = λ out. out; writes = λ mf out. (refl, refl) }

abbrev translator : Translator
translator = record {
  histogram = record {
    enabled = true;
    name = "latency";
    bins = pos 10;
    start = pos 20;
    end = pos 60;
    regex = "latency";
    last_modified = record { time = 5; valid = true };
  };
  include = record { source = "latency"; matches = λ name. name == "latency" };
}

abbrev writer : Writer (writer_parts whole libraries 9)
writer = record { source = endpoint "http://node/vars"; translators = none }

built : new_writer (writer_parts whole libraries 9) "http://node/vars" none ≡ ok writer
unfolding new_writer source_of
built = refl

translates :
    all_copies
      (writer_parts whole libraries 9)
      (translators-IsPlain whole libraries 9 reliable)
      (some (translator ∷ []))
      (up ∷ latency ∷ [])
    ≡ some (up ∷ translated ∷ [])
unfolding all_copies copies translations translate_metrics translate_metric add_all
    add_log10_buckets run_bins next_bound
translates = refl

copy-histograms_example :
    Writes
      (writer_parts whole libraries 9)
      (translators-IsPlain whole libraries 9 reliable)
      []
      (visus.MetricWriter.copy
        (writer_parts whole libraries 9)
        (set_translators (writer_parts whole libraries 9) (some (translator ∷ [])) writer)
        [])
      (up ∷ translated ∷ [])
copy-histograms_example =
    copy-histograms whole libraries 9 reliable
      (set_translators (writer_parts whole libraries 9) (some (translator ∷ [])) writer)
      (up ∷ latency ∷ []) (up ∷ latency ∷ []) (up ∷ translated ∷ []) [] refl refl translates
