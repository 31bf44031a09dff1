-- ===== src/Process/Safety.antt =====
-- server.go: what ends a process.
use visus.Prelude.{◌≢◌, String, Bool, true, false, if◌then◌else◌, List, [], ◌∷◌}
use visus.Result.{Result, Op, ok, err, panic, attempted, continue}
use visus.Process.{Parts, Running, Event, logged, reload, handle, serve}

continue-ne-err :
    {S A B : Type 0} (r : Result A) (f : A → Op S B) (s : S) (e : String)
    → r ≢ err e
    → ((a : A) (s : S) → (f a s).0 ≢ err e)
    → (continue r f s).0 ≢ err e
continue-ne-err (ok a) f s e h k q = k a s q
continue-ne-err (err x) f s e h k q = h (cc)
continue-ne-err panic f s e h k q = cc

attempted-ne-err : {A : Type 0} (r : Result A) (e : String) → attempted r ≢ err e
attempted-ne-err (ok a) e q = cc
attempted-ne-err (err x) e q = cc
attempted-ne-err panic e q = cc

module _ (t : Parts) where
  logged-ne-err : (m : Op t.W (Unit {0})) (s : t.W) (e : String) → (logged t m s).0 ≢ err e
  logged-ne-err m s e =
      continue-ne-err (attempted (m s).0) (λ o s. (ok tt, s)) (m s).1 e (attempted-ne-err (m s).0 e)
        (λ a s q. cc)

  then-ne-err :
      {B : Type 0} (m : Op t.W (Unit {0})) (k : Op t.W B) (s : t.W) (e : String)
      → ((s : t.W) → (k s).0 ≢ err e)
      → (continue (logged t m s).0 (λ u. k) (logged t m s).1).0 ≢ err e
  then-ne-err m k s e h =
      continue-ne-err (logged t m s).0 (λ u. k) (logged t m s).1 e (logged-ne-err m s e) (λ u. h)

  reload-ne-err : (r : Running t.W) (s : t.W) (e : String) → (reload t r s).0 ≢ err e
  unfolding reload
  reload-ne-err r s e = then-ne-err r.coll.refresh _ s e (λ s.
      then-ne-err r.scanner.refresh _ s e (λ s.
        then-ne-err r.http.refresh _ s e
          (λ s. then-ne-err t.refresh_ro_conn _ s e (λ s. logged-ne-err t.refresh_admin_conn s e))))

  handle-ne-err : (r : Running t.W) (v : Event) (s : t.W) (e : String) → (handle t r v s).0 ≢ err e
  unfolding handle
  handle-ne-err r (Event.minute now) s e =
      then-ne-err (t.store.heartbeat r.node_id now) (λ s. (ok true, s)) s e (λ s q. cc)
  handle-ne-err r Event.hangup s e =
      continue-ne-err (reload t r s).0 (λ u s. (ok true, s)) (reload t r s).1 e
        (reload-ne-err r s e) (λ u s q. cc)
  handle-ne-err r Event.stopping s e =
      then-ne-err (t.store.delete_node r.node_id) (λ s. (ok false, s)) s e (λ s q. cc)

  go_on-ne-err :
      (rest : Op t.W (Unit {0})) (e : String)
      → ((s : t.W) → (rest s).0 ≢ err e)
      → (b : Bool) (s : t.W) → ((if b then rest else λ s. (ok tt, s)) s).0 ≢ err e
  go_on-ne-err rest e h true s q = h s q
  go_on-ne-err rest e h false s q = cc

  pub serve-ne-err :
      (r : Running t.W) (vs : List Event) (s : t.W) (e : String) → (serve t r vs s).0 ≢ err e
  unfolding serve
  serve-ne-err r [] s e q = cc
  serve-ne-err r (v ∷ vs) s e q =
      continue-ne-err (handle t r v s).0 (λ b. if b then serve t r vs else λ s. (ok tt, s))
        (handle t r v s).1 e (handle-ne-err r v s e)
        (go_on-ne-err (serve t r vs) e (λ s. serve-ne-err r vs s e)) q
