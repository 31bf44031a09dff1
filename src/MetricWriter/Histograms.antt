-- ===== src/MetricWriter/Histograms.antt =====
-- writer.go with the translators of internal/translator/translator.go. The rest of what the writer
-- calls are parameters.
use visus.Prelude.{
  ℕ, ◌≡◌, refl, ap, ◌∙◌, String, Bool, true, false, ◌&&◌, List, [], ◌∷◌, ◌++◌, Option, none, some,
}
use visus.Result.{Result, Op, ok, err, panic}
use visus.External.Float.{Float}
use visus.Translator.Bucket.{Bucket}
use visus.Translator.Load.{Translator}
use visus.Translator.Translate.{MetricFamily, translate_metrics, translate}
use visus.MetricWriter.{Parts, Writer, Url, Response, open_source, copy}
use visus.MetricWriter.Written.{IsPlain, all_copies, Writes, copy-Writes}

-- URLs, files, the HTTP client, and the text format.
pub record Libraries (Family Out : Type 0) : Type 1 where
  pub Bytes : Type 0
  pub parse_url : String → Result Url
  pub open_file : String → Result Bytes
  pub get : String → Result (Response Bytes)
  pub text_to_metric_families : Bytes → Result (List Family)
  pub metric_family_to_text : Family → Op Out (Unit {0})

-- An output that never fails, and is the list of what was written to it.
pub record IsReliable {Family Out : Type 0} (l : Libraries Family Out) : Type 0 where
  pub written : Out → List Family
  pub writes :
      (mf : Family) (out : Out)
      → ((l.metric_family_to_text mf out).0 ≡ ok tt)
        × (written (l.metric_family_to_text mf out).1 ≡ written out ++ (mf ∷ []))

module _ (p : Float) {Other Out : Type 0} (l : Libraries (MetricFamily p Other) Out)
    (fuel : ℕ) where
  abbrev pub writer_parts : Parts
  writer_parts = record {
    Bytes = l.Bytes;
    Family = MetricFamily p Other;
    Out = Out;
    Translator = Translator;
    parse_url = l.parse_url;
    open_file = l.open_file;
    get = l.get;
    text_to_metric_families = l.text_to_metric_families;
    is_histogram = λ mf. mf.is_histogram;
    metric_family_to_text = l.metric_family_to_text;
    translate = translate p l.metric_family_to_text fuel;
  }

  abbrev pub selects : Translator → MetricFamily p Other → Bool
  selects tr mf = mf.is_histogram && tr.include.matches mf.name

  -- The family with the buckets that were made, if they were.
  abbrev pub with_buckets :
      MetricFamily p Other → Result (List (List (Bucket p))) → Option (MetricFamily p Other)
  with_buckets mf (ok bs) = some (record mf { buckets = bs })
  with_buckets mf (err e) = none
  with_buckets mf panic = none

  with_buckets-some :
      (mf next : MetricFamily p Other) (r : Result (List (List (Bucket p))))
      → with_buckets mf r ≡ some next
      → (bs : List (List (Bucket p))) × (r ≡ ok bs) × (record mf { buckets = bs } ≡ next)
  with_buckets-some mf next (ok bs) h =
      let changed : MetricFamily p Other = record mf { buckets = bs } in
      (bs, refl, let z : changed ≡ next = cc in z)
  with_buckets-some mf next (err e) h = cc
  with_buckets-some mf next panic h = cc

  module _ (r : IsReliable l) where
    pub translate-writes :
        (tr : Translator) (mf next : MetricFamily p Other) (out : Out)
        → selects tr mf ≡ true
        → with_buckets mf (translate_metrics p fuel tr mf.buckets) ≡ some next
        → ((translate p l.metric_family_to_text fuel tr mf out).0 ≡ ok next)
          × (r.written (translate p l.metric_family_to_text fuel tr mf out).1
              ≡ r.written out ++ (next ∷ []))
    unfolding translate
    translate-writes tr mf next out m h =
        let (bs, e, z) = with_buckets-some mf next (translate_metrics p fuel tr mf.buckets) h in
        let changed : MetricFamily p Other = record mf { buckets = bs } in
        let (w, v) = r.writes changed out in
        rw (m, e, w) (ap ok z, v ∙ ap (λ mf. r.written out ++ (mf ∷ [])) z)

    pub translate-leaves :
        (tr : Translator) (mf : MetricFamily p Other) (out : Out)
        → selects tr mf ≡ false
        → translate p l.metric_family_to_text fuel tr mf out ≡ (ok mf, out)
    unfolding translate
    translate-leaves tr mf out m = rw m refl

    -- The translators of the program as the writer has them.
    abbrev pub translators-IsPlain : IsPlain writer_parts
    translators-IsPlain = record {
      written = r.written;
      matches = selects;
      rewrite = λ tr mf. with_buckets mf (translate_metrics p fuel tr mf.buckets);
      writes = r.writes;
      translates = translate-writes;
      leaves = translate-leaves;
    }

    pub copy-histograms :
        (w : Writer writer_parts) (b : l.Bytes) (mfs fs : List (MetricFamily p Other)) (out : Out)
        → open_source writer_parts w.source ≡ ok b
        → l.text_to_metric_families b ≡ ok mfs
        → all_copies writer_parts translators-IsPlain w.translators mfs ≡ some fs
        → Writes writer_parts translators-IsPlain out (copy writer_parts w out) fs
    copy-histograms w b mfs fs out o q h =
        copy-Writes writer_parts translators-IsPlain w b mfs fs out o q h
