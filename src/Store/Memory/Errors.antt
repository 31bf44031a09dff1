-- ===== src/Store/Memory/Errors.antt =====
-- memory.go: the calls that fail and the calls that panic.
use visus.Prelude.{String, ◌≡◌, ◌↔◌, Bool, true, false, some, arith, is_some, not, ◌&&◌, string_eq}
use visus.Result.{err, panic}
use visus.Store.Memory.{Memory}
use visus.Store.Memory.Calls.{Call, exec, IsReady, found}

-- The calls that do not look at the injected error.
abbrev pub resets : Call → Bool
resets Call.init = true
resets (Call.inject_error e) = true
resets _ = false

-- While an error is injected, every call but `Init` and `InjectError` returns that error and leaves
-- the store as it was.
pub exec_injected :
    (m : Memory) (c : Call) (e : String)
    → m.error ≡ some e
    → resets c ≡ false
    → exec c m ≡ (err e, m)
unfolding exec
exec_injected m Call.init e h r = cc
exec_injected m (Call.inject_error _) e h r = cc
exec_injected m _ e h r = rw h

-- The calls that read a field through the nil pointer that a missing name gives.
abbrev pub dangling : Memory → Call → Bool
dangling m (Call.get_metrics name) =
    not (is_some m.error) && not (is_some (found m.collections name))
dangling m (Call.get_scan_patterns name) =
    not (is_some m.error) && not (is_some (found m.scans name))
dangling m _ = false

-- Once `Init` has run, a call panics exactly when it is `GetMetrics` or `GetScanPatterns` for a
-- name that is not stored, and no error is injected.
pub exec-panic :
    (m : Memory) (c : Call) → IsReady m → ((exec c m).0 ≡ panic) ↔ (dangling m c ≡ true)
unfolding exec
exec-panic m (Call.get_metrics name) h = ground arith
exec-panic m (Call.get_scan_patterns name) h = ground arith
exec-panic m _ h = ground arith

-- `Init` makes any store ready, and no call undoes that.
pub exec-IsReady : (m : Memory) (c : Call) → IsReady m → IsReady (exec c m).1
unfolding exec
exec-IsReady m (Call.get_metrics name) h = ground arith
exec-IsReady m _ h = ground arith

pub init-IsReady : (m : Memory) → IsReady (exec Call.init m).1
unfolding exec
init-IsReady m = ground arith
