-- ===== src/Translator/Load.antt =====
-- internal/translator/translator.go: `New` and `Load`. Compiling a regular expression is a parameter.
use visus.Prelude.{String, List, [], ◌∷◌, ◌++◌, Option, none, some, if◌then◌else◌}
use visus.Result.{Result, Op, ok, chain, deref, pure, lift, ◌>>=◌}
use visus.Store.Types.{Store, Histogram}
use visus.Scanner.Crdb.{Regexp}

pub record Translator : Type 0 where
  pub histogram : Histogram
  pub include : Regexp

module _ (compile : String → Result Regexp) where
  abbrev pub new : Histogram → Result Translator
  new h = chain (compile h.regex) (λ include. ok (record { histogram = h; include = include }))

  abbrev pub load_one : {S : Type 0} → Histogram → List Translator → Op S (List Translator)
  load_one h ts = if h.enabled then (do t ← lift (new h); pure (ts ++ (t ∷ []))) else pure ts

  -- The loop over the names, with the translators so far.
  unfoldable pub load_all :
      {S : Type 0} → Store S → List String → List Translator → Op S (List Translator)
  load_all store [] ts = pure ts
  load_all store (name ∷ names) ts = do
    found ← store.get_histogram name
    h ← lift (deref found)
    ts' ← load_one h ts
    load_all store names ts'

  abbrev pub load_names : {S : Type 0} → Store S → List String → Op S (Option (List Translator))
  load_names store [] = pure none
  load_names store (name ∷ names) = do ts ← load_all store (name ∷ names) []; pure (some ts)

  -- A nil slice is none.
  unfoldable pub load : {S : Type 0} → Store S → Op S (Option (List Translator))
  load store = do names ← store.get_histogram_names; load_names store names
