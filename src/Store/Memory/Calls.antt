-- ===== src/Store/Memory/Calls.antt =====
-- The calls of the interface `Store` on a `Memory`, and of `InjectError`, as data: histories of the
-- store are lists of these.
use visus.Prelude.{ℕ, String, ◌≡◌, true, Option, none, some, List, [], ◌∷◌, ℤ, Eq, is_some}
use visus.Dict.{Dict, lookup}
use visus.Result.{Op, pure, ◌>>=◌}
use visus.Store.Types.{Collection, Histogram, Scan, NodeInfo, Metric, Pattern}
use visus.Store.Memory
use visus.Store.Memory.{Memory}

pub data Call : Type 0 where
  delete_collection delete_histogram delete_scan : String → Call
  get_collection get_histogram get_scan get_metrics get_scan_patterns : String → Call
  get_collection_names get_histogram_names get_scan_names get_nodes init : Call
  register_node : String → ℤ → String → ℕ → Call
  heartbeat : ℕ → ℕ → Call
  delete_node : ℕ → Call
  put_collection : Collection → Call
  put_histogram : Histogram → Call
  put_scan : Scan → Call
  inject_error : Option String → Call

-- What a call returns when it succeeds.
pub data Reply : Type 0 where
  done : Reply
  names : List String → Reply
  collection : Option Collection → Reply
  histogram : Option Histogram → Reply
  scan : Option Scan → Reply
  metrics : List Metric → Reply
  patterns : List Pattern → Reply
  nodes : List NodeInfo → Reply
  node_id : ℕ → Reply

abbrev as_reply {ℓ} : {A : Type ℓ} → (A → Reply) → Op Memory A → Op Memory Reply
as_reply f m = m >>= λ a. pure (f a)

unfoldable pub exec : Call → Op Memory Reply
unfolding Memory.delete_collection Memory.delete_histogram Memory.delete_scan Memory.get_collection
    Memory.get_histogram Memory.get_scan Memory.get_metrics Memory.get_scan_patterns
    Memory.get_collection_names Memory.get_histogram_names Memory.get_scan_names Memory.get_nodes
    Memory.init Memory.register_node Memory.heartbeat Memory.delete_node Memory.put_collection
    Memory.put_histogram Memory.put_scan Memory.inject_error
exec (delete_collection name) = as_reply (λ _. done) (Memory.delete_collection name)
exec (delete_histogram name) = as_reply (λ _. done) (Memory.delete_histogram name)
exec (delete_scan name) = as_reply (λ _. done) (Memory.delete_scan name)
exec (get_collection name) = as_reply collection (Memory.get_collection name)
exec (get_histogram name) = as_reply histogram (Memory.get_histogram name)
exec (get_scan name) = as_reply scan (Memory.get_scan name)
exec (get_metrics name) = as_reply metrics (Memory.get_metrics name)
exec (get_scan_patterns name) = as_reply patterns (Memory.get_scan_patterns name)
exec get_collection_names = as_reply names Memory.get_collection_names
exec get_histogram_names = as_reply names Memory.get_histogram_names
exec get_scan_names = as_reply names Memory.get_scan_names
exec get_nodes = as_reply nodes Memory.get_nodes
exec init = as_reply (λ _. done) Memory.init
exec (register_node hostname pid version now) =
    as_reply node_id (Memory.register_node hostname pid version now)
exec (heartbeat id now) = as_reply (λ _. done) (Memory.heartbeat id now)
exec (delete_node id) = as_reply (λ _. done) (Memory.delete_node id)
exec (put_collection c) = as_reply (λ _. done) (Memory.put_collection c)
exec (put_histogram h) = as_reply (λ _. done) (Memory.put_histogram h)
exec (put_scan s) = as_reply (λ _. done) (Memory.put_scan s)
exec (inject_error e) = as_reply (λ _. done) (Memory.inject_error e)

unfoldable pub run : List Call → Memory → Memory
run [] m = m
run (c ∷ cs) m = run cs (exec c m).1

-- `Init` has run: no map is nil.
pub record IsReady (m : Memory) : Type 0 where
  pub collections : is_some m.collections ≡ true
  pub histograms : is_some m.histograms ≡ true
  pub scans : is_some m.scans ≡ true
  pub nodes : is_some m.nodes ≡ true

-- The entry under a key; a nil map has none.
abbrev pub found {ℓ κ} : {K : Type ℓ} {V : Type κ} ⦃e : Eq K⦄ → Option (Dict K V) → K → Option V
found none k = none
found (some d) k = lookup k d
