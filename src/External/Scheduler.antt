-- ===== src/External/Scheduler.antt =====
-- github.com/go-co-op/gocron: jobs that run every so many seconds. `State` is the scheduler's.
use visus.Prelude.{◌⊎◌, ◌≡◌, ◌≢◌, Bool, true, false, ℤ, Option, none, some}

pub record Scheduler (Task : Type 0) : Type 1 where
  pub State : Type 0
  pub Job : Type 0
  -- `Every(n).Second().Do(task)`; `none` is an error.
  pub every : ℤ → Task → State → Option Job × State
  pub remove_by_reference : Job → State → State
  -- Whether the job will run.
  pub active : Job → State → Bool

-- What the documentation of gocron says of these: a job that `Do` returns is scheduled, and
-- starts no other; a failing `Do` schedules nothing; `RemoveByReference` stops that job alone.
pub record SchedulerLaws {Task : Type 0} (s : Scheduler Task) : Type 0 where
  pub every-some :
      (n : ℤ) (t : Task) (st : s.State) (j i : s.Job)
      → (s.every n t st).0 ≡ some j
      → s.active i (s.every n t st).1 ≡ true
      → (i ≡ j) ⊎ (s.active i st ≡ true)
  pub every-active :
      (n : ℤ) (t : Task) (st : s.State) (j : s.Job)
      → (s.every n t st).0 ≡ some j
      → s.active j (s.every n t st).1 ≡ true
  pub every-none :
      (n : ℤ) (t : Task) (st : s.State) (i : s.Job)
      → (s.every n t st).0 ≡ none
      → s.active i (s.every n t st).1 ≡ s.active i st
  pub remove_self : (j : s.Job) (st : s.State) → s.active j (s.remove_by_reference j st) ≡ false
  pub remove_other :
      (i j : s.Job) (st : s.State) → i ≢ j → s.active i (s.remove_by_reference j st) ≡ s.active i st
