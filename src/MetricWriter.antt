-- ===== src/MetricWriter.antt =====
-- internal/metric/writer.go: metrics are copied from where CockroachDB shows them, and histograms go
-- through the translators, which the writer has by their interface. Reading and printing the text
-- format, URLs, files and the HTTP client are parameters.
mod Written
mod Histograms
mod Examples
use visus.Prelude.{
  ℕ, String, Bool, true, false, ◌&&◌, List, [], ◌∷◌, Option, none, some, is_some, if◌then◌else◌,
  ◌==◌, string_eq, nat_eq, ◌||◌,
}
use visus.Result.{Result, Op, ok, err, chain, pure, lift, ◌>>=◌, ◌>>◌}

pub record Url : Type 0 where
  pub scheme : String
  pub path : String

pub record Response (Bytes : Type 0) : Type 0 where
  pub status_code : ℕ
  pub status : String
  pub body : Bytes

-- The interface `Translator`, and the packages that the writer calls. A translator may change the
-- family that it is given, and writes to `Out`.
pub record Parts : Type 1 where
  pub Bytes : Type 0
  pub Family : Type 0
  pub Out : Type 0
  pub Translator : Type 0
  pub parse_url : String → Result Url
  pub open_file : String → Result Bytes
  pub get : String → Result (Response Bytes)
  pub text_to_metric_families : Bytes → Result (List Family)
  pub is_histogram : Family → Bool
  pub metric_family_to_text : Family → Op Out (Unit {0})
  pub translate : Translator → Family → Op Out Family

-- What `open` is set to.
pub data Source : Type 0 where
  file : String → Source
  endpoint : String → Source

pub record Writer (t : Parts) : Type 0 where
  pub source : Source
  pub translators : Option (List t.Translator)

-- By the scheme of the URL.
unfoldable pub source_of : String → Url → Result Source
source_of url u =
    if u.scheme == "file"
    then ok (Source.file u.path)
    else if u.scheme == "http" || u.scheme == "https"
    then ok (Source.endpoint url)
    else err "protocol not supported"

module _ (t : Parts) where
  unfoldable pub new_writer : String → Option (List t.Translator) → Result (Writer t)
  unfolding source_of
  new_writer url ts =
      chain (t.parse_url url)
        (λ u. chain (source_of url u) (λ s. ok (record { source = s; translators = ts })))

  abbrev pub checked : Response t.Bytes → Result t.Bytes
  checked r = if r.status_code == 200 then ok r.body else err r.status

  abbrev pub open_source : Source → Result t.Bytes
  open_source (Source.file path) = t.open_file path
  open_source (Source.endpoint url) = chain (t.get url) checked

  -- The loop over the translators; each has the family as the one before it left it.
  unfoldable pub translate_all : List t.Translator → t.Family → Op t.Out (Unit {0})
  translate_all [] mf = pure tt
  translate_all (tr ∷ trs) mf = do mf' ← t.translate tr mf; translate_all trs mf'

  unfoldable pub copy_family : Option (List t.Translator) → t.Family → Op t.Out (Unit {0})
  unfolding translate_all
  copy_family none mf = t.metric_family_to_text mf
  copy_family (some trs) mf =
      if t.is_histogram mf then translate_all trs mf else t.metric_family_to_text mf

  unfoldable pub copy_families : Option (List t.Translator) → List t.Family → Op t.Out (Unit {0})
  unfolding copy_family
  copy_families ts [] = pure tt
  copy_families ts (mf ∷ mfs) = do copy_family ts mf; copy_families ts mfs

  unfoldable pub copy : Writer t → Op t.Out (Unit {0})
  unfolding copy_families
  copy w = do
    in_ ← lift (open_source w.source)
    families ← lift (t.text_to_metric_families in_)
    copy_families w.translators families

  abbrev pub set_translators : Option (List t.Translator) → Writer t → Writer t
  set_translators ts w = record w { translators = ts }
