-- ===== src/Runner/Reap.antt =====
-- ReapOnce of internal/jobs/runner.go, and the runs in flight that it asks. Its calls of the store
-- are made one after another, and none of them fails but for a job that is not there or cannot be
-- read; `wall` is their time. `backoff` is the executor's, `reason` the text of a reap (fmt.Sprintf),
-- by the limit and whether the run is this runner's own, and `decodes` says whether the row of a job
-- can be read.
pub mod Sweep
use tend.Prelude.{
  inl, inr, ℕ, Option, none, some, Bool, true, false, not, ◌&&◌, List, [], ◌∷◌, ◌==◌, if◌then◌else◌,
  find,
}
use tend.Prelude.Int.{ℤ, negsuc}
use tend.Core.Tail.{Text}
use tend.Clock.{Time, is_zero, since}
use tend.Event.{Event, failed}
use tend.Jobs.{Job, Run}
use tend.Jobs.Limits.{max_run_duration, within_window}
use tend.Jobs.Failure.{failure_detail}
use tend.Store.Schema.{Db, JobRow}
use tend.Store.Table.{delete_where}
use tend.Store.JobRows.{get_job}
use tend.Store.Runs.{list_running_runs, reap_stale_run, terminal_event}

-- inFlight: the runs that this process is executing, with their limits from when they were claimed.
abbrev pub InFlight : Type 0
InFlight = List (ℕ × ℕ)

unfoldable pub remove : ℕ → InFlight → InFlight
remove id fs = delete_where (λ f. f.0 == id) fs

unfoldable pub add : ℕ → ℕ → InFlight → InFlight
unfolding remove
add id limit fs = (id, limit) ∷ remove id fs

unfoldable pub limit_of : ℕ → InFlight → Option ℕ
limit_of id fs = elim (find (λ f. f.0 == id) fs) [ none ↦ none | some f ↦ some f.1 ]

module _ (decodes : Job → Bool) (backoff : ℕ → ℤ) (reason : ℕ → Bool → Text) where
  -- The end of a round: the run is failed, with its event.
  unfoldable pub reap : Time → ℕ → Bool → Run → JobRow → Db → Db
  reap wall limit ours r j db =
      let output = reason limit ours in
      (reap_stale_run wall db r.id output (
        terminal_event r j.name failed (negsuc 0)
          (failure_detail j.job failed (negsuc 0) output false))).0

  -- One round of the loop over the running runs: the store, and whether a job could not be loaded.
  unfoldable pub reap_one : Time → Time → InFlight → Run → Db → Bool → Db × Bool
  unfolding limit_of reap get_job
  reap_one wall now flights r db err =
      let elapsed = since now r.started_at in
      if is_zero r.started_at then (db, err) else elim (limit_of r.id flights) [
        | some limit ↦
            if within_window elapsed limit
            then (db, err)
            else elim (get_job decodes r.org_id r.job_id db) [
              | inl e ↦ (db, true)
              | inr j ↦ (reap wall limit true r j db, err)
            ]
        | none ↦ elim (get_job decodes r.org_id r.job_id db) [
          | inl e ↦ (db, true)
          | inr j ↦
              let limit = max_run_duration backoff j.job in
              if within_window elapsed limit then (db, err) else (reap wall limit false r j db, err)
        ]
      ]

  unfoldable pub reap_each : Time → Time → InFlight → List Run → Db → Bool → Db × Bool
  unfolding reap_one
  reap_each wall now flights [] db err = (db, err)
  reap_each wall now flights (r ∷ rs) db err =
      let (db', err') = reap_one wall now flights r db err in reap_each wall now flights rs db' err'

  unfoldable pub reap_once : Time → Time → InFlight → Db → Db × Bool
  unfolding reap_each
  reap_once wall now flights db = reap_each wall now flights (list_running_runs db) db false
