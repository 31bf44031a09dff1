-- ===== src/MetricWriter/Written.antt =====
-- writer.go: what `Copy` writes, over an output that never fails.
use visus.Prelude.{
  ◌≡◌, refl, sym, ap, subst, Option-cases, ◌∙◌, Bool, true, false, List, [], ◌∷◌, ◌++◌, Option,
  none, some, if◌then◌else◌, Bool-cases, inl, inr,
}
use mathlib.Core.List.{append-nil, append_assoc}
use visus.Result.{Result, Op, ok, continue}
use visus.MetricWriter.{Parts, Writer, open_source, translate_all, copy_family, copy_families, copy}

-- The output is a list of what was written. A translator writes what it makes of a family, if the
-- family matches it and can be translated, and leaves a family alone that does not match.
pub record IsPlain (t : Parts) : Type 0 where
  pub written : t.Out → List t.Family
  pub matches : t.Translator → t.Family → Bool
  pub rewrite : t.Translator → t.Family → Option t.Family
  pub writes :
      (mf : t.Family) (out : t.Out)
      → ((t.metric_family_to_text mf out).0 ≡ ok tt)
        × (written (t.metric_family_to_text mf out).1 ≡ written out ++ (mf ∷ []))
  pub translates :
      (tr : t.Translator) (mf next : t.Family) (out : t.Out)
      → matches tr mf ≡ true
      → rewrite tr mf ≡ some next
      → ((t.translate tr mf out).0 ≡ ok next)
        × (written (t.translate tr mf out).1 ≡ written out ++ (next ∷ []))
  pub leaves :
      (tr : t.Translator) (mf : t.Family) (out : t.Out)
      → matches tr mf ≡ false
      → t.translate tr mf out ≡ (ok mf, out)

abbrev pub onto : {A : Type 0} → List A → Option (List A) → Option (List A)
onto xs none = none
onto xs (some ys) = some (xs ++ ys)

abbrev pub both : {A : Type 0} → Option (List A) → Option (List A) → Option (List A)
both none o = none
both (some xs) o = onto xs o

both-some :
    {A : Type 0} (o o' : Option (List A)) (zs : List A)
    → both o o' ≡ some zs
    → (xs : List A) × (ys : List A) × (o ≡ some xs) × (o' ≡ some ys) × (xs ++ ys ≡ zs)
both-some none o' zs h = cc
both-some (some xs) none zs h = cc
both-some (some xs) (some ys) zs h = (xs, ys, refl, refl, let z : xs ++ ys ≡ zs = cc in z)

module _ (t : Parts) (plain : IsPlain t) where
  -- What comes of a histogram: one family for each translator that it matches, each made from the last;
  -- `none` if one of these cannot be made.
  unfoldable pub translations : List t.Translator → t.Family → Option (List t.Family)
  translations [] mf = some []
  translations (tr ∷ trs) mf =
      let skipped = translations trs mf in
      if plain.matches tr mf
      then elim (plain.rewrite tr mf) [
        | none ↦ none
        | some next ↦ onto (next ∷ []) (translations trs next)
      ]
      else skipped

  unfoldable pub copies : Option (List t.Translator) → t.Family → Option (List t.Family)
  unfolding translations
  copies none mf = some (mf ∷ [])
  copies (some trs) mf = if t.is_histogram mf then translations trs mf else some (mf ∷ [])

  unfoldable pub all_copies : Option (List t.Translator) → List t.Family → Option (List t.Family)
  unfolding copies
  all_copies ts [] = some []
  all_copies ts (mf ∷ mfs) = both (copies ts mf) (all_copies ts mfs)

  -- A call succeeds and writes these families.
  abbrev pub Writes : t.Out → Result (Unit {0}) × t.Out → List t.Family → Type 0
  Writes out r fs = (r.0 ≡ ok tt) × (plain.written r.1 ≡ plain.written out ++ fs)

  Writes-nothing :
      (out : t.Out) (fs : List t.Family) → some [] ≡ some fs → Writes out (ok tt, out) fs
  Writes-nothing out fs h =
      let z : [] ≡ fs = cc in
      (refl, sym (append-nil (plain.written out)) ∙ ap (λ fs. plain.written out ++ fs) z)

  Writes-one :
      (mf : t.Family) (out : t.Out) (fs : List t.Family)
      → some (mf ∷ []) ≡ some fs
      → Writes out (t.metric_family_to_text mf out) fs
  Writes-one mf out fs h =
      let z : mf ∷ [] ≡ fs = cc in
      subst (Writes out (t.metric_family_to_text mf out)) z (plain.writes mf out)

  -- One call after another.
  Writes-then :
      {A : Type 0} (r : Result A × t.Out) (a : A) (f : A → Op t.Out (Unit {0})) (out : t.Out)
      (xs ys : List t.Family)
      → r.0 ≡ ok a
      → plain.written r.1 ≡ plain.written out ++ xs
      → Writes r.1 (f a r.1) ys
      → Writes out (continue r.0 f r.1) (xs ++ ys)
  Writes-then r a f out xs ys e w (g, v) =
      rw e (g, v ∙ rw w (append_assoc (plain.written out) xs ys))

  translate_all-Writes :
      (trs : List t.Translator) (mf : t.Family) (out : t.Out) (fs : List t.Family)
      → translations trs mf ≡ some fs
      → Writes out (translate_all t trs mf out) fs
  unfolding translate_all translations
  translate_all-Writes [] mf out fs h = Writes-nothing out fs h
  translate_all-Writes (tr ∷ trs) mf out fs h = elim (Bool-cases (plain.matches tr mf)) [
    | inl p ↦ elim (Option-cases (plain.rewrite tr mf)) [
      | inl q ↦ let z : ◌≡◌ {A = Option (List t.Family)} none (some fs) = rw (p, q) at h in cc
      | inr (next, q) ↦
          let z : both (some (next ∷ [])) (translations trs next) ≡ some fs = rw (p, q) at h in
          let (xs, ys, a, b, c) = both-some (some (next ∷ [])) (translations trs next) fs z in
          let (e, w) = plain.translates tr mf next out p q in
          let r = t.translate tr mf out in
          let first : next ∷ [] ≡ xs = cc in
          subst (Writes out (translate_all t (tr ∷ trs) mf out)) (ap (λ xs. xs ++ ys) first ∙ c) (
            Writes-then r next (translate_all t trs) out (next ∷ []) ys e w
              (translate_all-Writes trs next r.1 ys b))
    ]
    | inr p ↦ rw (plain.leaves tr mf out p) (translate_all-Writes trs mf out fs (rw p at h))
  ]

  copy_family-Writes :
      (ts : Option (List t.Translator)) (mf : t.Family) (out : t.Out) (fs : List t.Family)
      → copies ts mf ≡ some fs
      → Writes out (copy_family t ts mf out) fs
  unfolding copy_family copies
  copy_family-Writes none mf out fs h = Writes-one mf out fs h
  copy_family-Writes (some trs) mf out fs h = elim (Bool-cases (t.is_histogram mf)) [
    | inl p ↦ rw p (translate_all-Writes trs mf out fs (rw p at h))
    | inr p ↦ rw p (Writes-one mf out fs (rw p at h))
  ]

  copy_families-Writes :
      (ts : Option (List t.Translator)) (mfs : List t.Family) (out : t.Out) (fs : List t.Family)
      → all_copies ts mfs ≡ some fs
      → Writes out (copy_families t ts mfs out) fs
  unfolding copy_families all_copies
  copy_families-Writes ts [] out fs h = Writes-nothing out fs h
  copy_families-Writes ts (mf ∷ mfs) out fs h =
      let (xs, ys, p, q, z) = both-some (copies ts mf) (all_copies ts mfs) fs h in
      let (e, w) = copy_family-Writes ts mf out xs p in
      let r = copy_family t ts mf out in
      subst (Writes out (copy_families t ts (mf ∷ mfs) out)) z (
        Writes-then r tt (λ u. copy_families t ts mfs) out xs ys e w
          (copy_families-Writes ts mfs r.1 ys q))

  -- `Copy`, where its source can be opened and read, writes what `all_copies` makes of the families.
  pub copy-Writes :
      (w : Writer t) (b : t.Bytes) (mfs fs : List t.Family) (out : t.Out)
      → open_source t w.source ≡ ok b
      → t.text_to_metric_families b ≡ ok mfs
      → all_copies w.translators mfs ≡ some fs
      → Writes out (copy t w out) fs
  unfolding copy
  copy-Writes w b mfs fs out o p h = rw (o, p) (copy_families-Writes w.translators mfs out fs h)
