-- ===== src/Http/Refresh.antt =====
-- server.go: a refresh that fails.
use visus.Prelude.{
  suc, ◌≡◌, refl, ap, String, Bool, true, false, not, ◌&&◌, ◌||◌, List, Option, none, some, is_some,
  ◌==◌, string_eq, Bool-cases, inl, inr,
}
use visus.Result.{Result, ok, err, panic, continue}
use visus.Translator.Load.{Translator, load}
use visus.MetricWriter.{Writer}
use visus.Http.{
  Parts, Server, KeyPair, load_key_pair, load_client_tls, refresh, refresh_parts, refresh_writer,
  read_pair, set_writer,
}

module _ (t : Parts) where
  -- A certificate that was there is not lost.
  abbrev pub kept : Option t.Cert → Option t.Cert → Bool
  kept old new = not (is_some old) || is_some new

  kept_refl : (o : Option t.Cert) → kept o o ≡ true
  kept_refl none = refl
  kept_refl (some c) = refl

  kept_some : (o : Option t.Cert) (c : t.Cert) → kept o (some c) ≡ true
  kept_some none c = refl
  kept_some (some d) c = refl

  read_pair-kept : (k : KeyPair t) (r : Result t.Cert) → kept k.cert (read_pair t k r).1.cert ≡ true
  read_pair-kept k (ok c) = kept_some k.cert c
  read_pair-kept k (err e) = kept_refl k.cert
  read_pair-kept k panic = kept_refl k.cert

  load_key_pair-kept :
      (k : KeyPair t) (disk : t.Disk) → kept k.cert (load_key_pair t disk k).1.cert ≡ true
  unfolding load_key_pair
  load_key_pair-kept k disk = elim (Bool-cases (k.cert_path == "" && k.key_path == "")) [
    | inl p ↦ rw p (kept_refl k.cert)
    | inr p ↦ rw p (read_pair-kept k (t.load_key_pair k.cert_path k.key_path disk))
  ]

  -- What a part of a refresh leaves alone: the certificate and the counts, and where it fails the writer.
  record Leaves (s : Server t) (r : Result (Unit {0}) × Server t) : Type 0 where
    pub cert : r.1.key_pair.cert ≡ s.key_pair.cert
    pub counts : (r.1.refresh_errors ≡ s.refresh_errors) × (r.1.refresh_counts ≡ s.refresh_counts)
    pub writer : (e : String) → r.0 ≡ err e → r.1.metrics_writer ≡ s.metrics_writer

  Leaves-refl :
      (s s' : Server t) (r : Result (Unit {0}))
      → s'.key_pair ≡ s.key_pair
      → s'.refresh_errors ≡ s.refresh_errors
      → s'.refresh_counts ≡ s.refresh_counts
      → s'.metrics_writer ≡ s.metrics_writer
      → Leaves s (r, s')
  Leaves-refl s s' r k e c w = record {
    cert = ap (λ p. p.cert) k;
    counts = (e, c);
    writer = λ x q. w;
  }

  abbrev loaded :
      Writer t.writing → Result (Option (List Translator)) → Server t → Result (Unit {0}) × Server t
  loaded w r s = continue r (λ ts. set_writer t ts w) s

  loaded-Leaves :
      (w : Writer t.writing) (r : Result (Option (List Translator))) (s : Server t)
      → Leaves s (loaded w r s)
  loaded-Leaves w (ok ts) s = record { cert = refl; counts = (refl, refl); writer = λ e q. cc }
  loaded-Leaves w (err x) s = Leaves-refl s s (err x) refl refl refl refl
  loaded-Leaves w panic s = Leaves-refl s s panic refl refl refl refl

  refresh_writer-Leaves :
      (rewrite : Bool) (w : Option (Writer t.writing)) (s : Server t)
      → Leaves s (refresh_writer t rewrite w s)
  refresh_writer-Leaves rewrite none s = Leaves-refl s s (ok tt) refl refl refl refl
  refresh_writer-Leaves false (some w) s = record {
    cert = refl;
    counts = (refl, refl);
    writer = λ e q. cc;
  }
  refresh_writer-Leaves true (some w) s =
      let l =
        loaded-Leaves w (load t.compile t.store s.store).0
          (record s { store = (load t.compile t.store s.store).1 }) in
      record { cert = l.cert; counts = l.counts; writer = l.writer }

  abbrev last : Result (Unit {0}) → Server t → Result (Unit {0}) × Server t
  last r s = continue r (λ _ s. refresh_writer t s.config.rewrite_histograms s.metrics_writer s) s

  last-Leaves : (r : Result (Unit {0})) (s : Server t) → Leaves s (last r s)
  last-Leaves (ok u) s = refresh_writer-Leaves s.config.rewrite_histograms s.metrics_writer s
  last-Leaves (err e) s = Leaves-refl s s (err e) refl refl refl refl
  last-Leaves panic s = Leaves-refl s s panic refl refl refl refl

  abbrev with_tls : Server t → Server t
  with_tls s = record s { client_tls = (load_client_tls t s.disk s.client_tls).1 }

  abbrev later : Result (Unit {0}) → Server t → Result (Unit {0}) × Server t
  later r s = continue r (λ _ s. last (load_client_tls t s.disk s.client_tls).0 (with_tls s)) s

  later-Leaves : (r : Result (Unit {0})) (s : Server t) → Leaves s (later r s)
  later-Leaves (ok u) s =
      let l = last-Leaves (load_client_tls t s.disk s.client_tls).0 (with_tls s) in
      record { cert = l.cert; counts = l.counts; writer = l.writer }
  later-Leaves (err e) s = Leaves-refl s s (err e) refl refl refl refl
  later-Leaves panic s = Leaves-refl s s panic refl refl refl refl

  -- A refresh of the HTTP server that fails counts one error and no success, leaves the writer with the
  -- translators that it had, and does not lose a certificate.
  pub refresh_err :
      (s : Server t) (e : String)
      → (refresh t s).0 ≡ err e
      → ((refresh t s).1.refresh_errors ≡ suc s.refresh_errors)
        × ((refresh t s).1.refresh_counts ≡ s.refresh_counts)
        × ((refresh t s).1.metrics_writer ≡ s.metrics_writer)
        × (kept s.key_pair.cert (refresh t s).1.key_pair.cert ≡ true)
  unfolding refresh refresh_parts
  refresh_err s e h =
      let (r, k) = load_key_pair t s.disk s.key_pair in
      let l = later-Leaves r (record s { key_pair = k }) in
      rw h (
        ap (λ n. suc n) l.counts.0,
        l.counts.1,
        l.writer e h,
        rw l.cert (load_key_pair-kept s.key_pair s.disk),
      )
