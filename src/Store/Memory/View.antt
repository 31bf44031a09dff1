-- ===== src/Store/Memory/View.antt =====
-- memory.go against a specification: the store as four finite functions and an injected error.
use visus.Prelude.{
  ap, ◌∙◌, nat_beq_iff, ℕ, ◌+◌, ◌%◌, ◌^◌, String, ◌≡◌, refl, Bool, false, Option, none, some, List,
  [], ◌∷◌, arith, is_some, Eq, ◌==◌, string_eq, nat_eq, if◌then◌else◌,
}
use visus.Dict.{lookup-insert, dict_laws}
use visus.Result.{Result, ok, panic}
use visus.Store.Types.{Collection, Histogram, Scan, NodeInfo}
use visus.Store.Memory.{Memory}
use visus.Store.Memory.Calls.{Call, exec, run, IsReady, found}
use visus.Store.Memory.Errors.{exec-IsReady}

pub record Contents : Type 0 where
  pub collections : String → Option Collection
  pub histograms : String → Option Histogram
  pub scans : String → Option Scan
  pub nodes : ℕ → Option NodeInfo
  pub error : Option String
  pub last_id : ℕ

abbrev pub view : Memory → Contents
view m = record {
  collections = found m.collections;
  histograms = found m.histograms;
  scans = found m.scans;
  nodes = found m.nodes;
  error = m.error;
  last_id = m.next_node_id;
}

-- A function changed at one key.
abbrev pub at {ℓ κ} :
    {K : Type ℓ} {V : Type κ} ⦃e : Eq K⦄ → K → Option V → (K → Option V) → K → Option V
at k v f j = if k == j then v else f j

abbrev beat : ℕ → Option NodeInfo → Option NodeInfo
beat now none = none
beat now (some n) = some (record n { updated = now })

-- What a call does to the contents when no error is injected.
abbrev pub effect : Call → Contents → Contents
effect (Call.delete_collection name) c = record c { collections = at name none c.collections }
effect (Call.delete_histogram name) c = record c { histograms = at name none c.histograms }
effect (Call.delete_scan name) c = record c { scans = at name none c.scans }
effect (Call.put_collection x) c = record c { collections = at x.name (some x) c.collections }
effect (Call.put_histogram x) c = record c { histograms = at x.name (some x) c.histograms }
effect (Call.put_scan x) c = record c { scans = at x.name (some x) c.scans }
effect (Call.register_node hostname pid version now) c =
    let id = (c.last_id + 1) % 2 ^ 64 in
    record c {
      nodes =
          at id
            (some (record {
              id = id;
              hostname = hostname;
              pid = pid;
              version = version;
              updated = now;
            }))
            c.nodes;
      last_id = id;
    }
effect (Call.heartbeat id now) c = record c { nodes = at id (beat now (c.nodes id)) c.nodes }
effect (Call.delete_node id) c = record c { nodes = at id none c.nodes }
effect Call.init c = record {
  collections = λ _. none;
  histograms = λ _. none;
  scans = λ _. none;
  nodes = λ _. none;
  error = none;
  last_id = c.last_id;
}
effect (Call.inject_error e) c = record c { error = e }
effect _ c = c

-- An injected error blocks every call but `Init` and `InjectError`.
abbrev pub blocked : Call → Option String → Bool
blocked Call.init e = false
blocked (Call.inject_error _) e = false
blocked _ e = is_some e

abbrev pub spec : Call → Contents → Contents
spec call c = if blocked call c.error then c else effect call c

pub spec_run : List Call → Contents → Contents
spec_run [] c = c
spec_run (call ∷ cs) c = spec_run cs (spec call c)

-- A field of what a pointer shows.
abbrev pub part {ℓ κ} : {A : Type ℓ} {B : Type κ} → (A → B) → Option A → Result B
part f none = panic
part f (some a) = ok (f a)

-- Contents are equal if they agree at every key.
pub record Same (a b : Contents) : Type 0 where
  pub collections : (k : String) → a.collections k ≡ b.collections k
  pub histograms : (k : String) → a.histograms k ≡ b.histograms k
  pub scans : (k : String) → a.scans k ≡ b.scans k
  pub nodes : (k : ℕ) → a.nodes k ≡ b.nodes k
  pub error : a.error ≡ b.error
  pub last_id : a.last_id ≡ b.last_id

Same-eq : (a b : Contents) → Same a b → a ≡ b
Same-eq a b s = λ i. record {
  collections = λ k. s.collections k i;
  histograms = λ k. s.histograms k i;
  scans = λ k. s.scans k i;
  nodes = λ k. s.nodes k i;
  error = s.error i;
  last_id = s.last_id i;
}

exec-Same : (m : Memory) (c : Call) → IsReady m → Same (view (exec c m).1) (spec c (view m))
unfolding exec
exec-Same m (Call.heartbeat id now) h = record {
  collections = λ k. ground arith;
  histograms = λ k. ground arith;
  scans = λ k. ground arith;
  nodes = λ k. grind (arith, lookup-insert, nat_beq_iff);
  error = ground arith;
  last_id = ground arith;
}
exec-Same m _ h = record {
  collections = λ k. grind (arith, dict_laws);
  histograms = λ k. grind (arith, dict_laws);
  scans = λ k. grind (arith, dict_laws);
  nodes = λ k. grind (arith, dict_laws);
  error = ground arith;
  last_id = ground arith;
}

-- A call changes the contents as the specification says.
pub view-exec : (m : Memory) (c : Call) → IsReady m → view (exec c m).1 ≡ spec c (view m)
view-exec m c h = Same-eq _ _ (exec-Same m c h)

-- Once `Init` has run, any sequence of calls changes the contents of the store, read as four partial
-- functions and an injected error, exactly as the specification changes those.
pub view-run : (cs : List Call) (m : Memory) → IsReady m → view (run cs m) ≡ spec_run cs (view m)
unfolding run spec_run
view-run [] m h = refl
view-run (c ∷ cs) m h =
    view-run cs (exec c m).1 (exec-IsReady m c h) ∙ ap (spec_run cs) (view-exec m c h)
