-- ===== src/Command/Histogram/Test.antt =====
-- internal/cmd/histogram/admin.go: the command that tries the stored histograms on an endpoint.
use visus.Prelude.{String, List, [], ◌∷◌, Option, none, some}
use visus.Result.{Result, Op, err, lift, ◌>>=◌, ◌>>◌}
use visus.Store.Types.{Store}
use visus.Scanner.Crdb.{Regexp}
use visus.Translator.Load.{Translator, load}
use visus.MetricWriter.{Parts, new_writer, copy}

pub record Trial (S Out : Type 0) : Type 0 where
  pub store : S
  pub out : Out

module _ {S : Type 0} (store : Store S) (compile : String → Result Regexp) (t : Parts)
    (translator : Translator → t.Translator) where
  abbrev pub Run : Type 0 → Type 0
  Run A = Op (Trial S t.Out) A

  abbrev on_store : {A : Type 0} → Op S A → Run A
  on_store call s = let (r, st) = call s.store in (r, record s { store = st })

  abbrev on_out : {A : Type 0} → Op t.Out A → Run A
  on_out call s = let (r, o) = call s.out in (r, record s { out = o })

  abbrev as_interface : List Translator → List t.Translator
  as_interface [] = []
  as_interface (x ∷ xs) = translator x ∷ as_interface xs

  abbrev with_translators : String → Option (List Translator) → Run (Unit {0})
  with_translators url none = lift (err "found no histograms")
  with_translators url (some []) = lift (err "found no histograms")
  with_translators url (some (x ∷ xs)) = do
    w ← lift (new_writer t url (some (as_interface (x ∷ xs))))
    on_out (copy t w)

  unfoldable pub test_cmd : Result (Unit {0}) → String → Run (Unit {0})
  test_cmd provided url = do
    lift provided
    translators ← on_store (load compile store)
    with_translators url translators
