-- ===== src/Store/JobRows.antt =====
-- internal/store/sqlite.go: the rows of jobs. A job is stored with its settings beside it; the
-- command of a job that has settings is read back as empty.
use Prim.Native.String.{String}
use text.Mathlib.Text.{◌==◌ as str_eq}
use tend.Prelude.{
  ◌⊎◌, inl, inr, not, ℕ, suc, Option, none, some, Bool, ◌&&◌, List, [], ◌∷◌, ◌++◌, ◌==◌,
  if◌then◌else◌, find, select, any,
}
use tend.Clock.{Time, zero_time}
use tend.Jobs.{Job, has_spec}
use tend.Store.Schema.{Db, JobRow}
use tend.Store.Table.{update_where}
use tend.Store.Streak.{is_job}

abbrev pub is_job_named : ℕ → String → JobRow → Bool
is_job_named org name j = (j.org_id == org) && str_eq j.name name

-- storedCommand, as scanJob reads it back.
abbrev pub stored_command : Job → String
stored_command j = if has_spec j.job_type then "" else j.command

-- CreateJob: none where the name is taken in the org.
unfoldable pub create_job : Time → Job → Db → Option (Db × ℕ)
create_job wall j db =
    if any (is_job_named j.org_id j.name) db.jobs
    then none
    else some (
      record db {
        jobs =
            db.jobs
            ++ record {
              job = record j {
                id = db.next_job_id;
                command = stored_command j;
                created_at = wall;
                updated_at = wall;
              };
              failed_runs = 0;
              failing_since = zero_time;
            }
              ∷ [];
        next_job_id = suc db.next_job_id;
      },
      db.next_job_id,
    )

-- Why a job cannot be had: ErrNotFound, or an UnreadableJobError.
pub data JobError : Type 0 where
  not_found unreadable : JobError

-- Whether the columns of a row that hold a job's definition decode (its times, its env and its
-- settings), as scanJob needs them to.
module _ (decodes : Job → Bool) where
  -- scanJob of the row found, if any.
  abbrev pub scanned : Option JobRow → JobError ⊎ JobRow
  scanned none = inl not_found
  scanned (some j) = if decodes j.job then inr j else inl unreadable

  -- GetJob and GetJobByName.
  unfoldable pub get_job : ℕ → ℕ → Db → JobError ⊎ JobRow
  get_job org id db = scanned (find (is_job org id) db.jobs)

  unfoldable pub get_job_by_name : ℕ → String → Db → JobError ⊎ JobRow
  get_job_by_name org name db = scanned (find (is_job_named org name) db.jobs)

  -- ListJobs: the jobs that can be read, and the others, which its UnreadableJobsError names.
  unfoldable pub list_jobs : ℕ → Db → List JobRow × List JobRow
  list_jobs org db =
      let rows = select (λ j. j.org_id == org) db.jobs in
      (select (λ j. decodes j.job) rows, select (λ j. not (decodes j.job)) rows)

-- What UpdateJob sets: everything but the keys, the time of creation and the streak.
abbrev pub set_job : Time → Job → JobRow → JobRow
set_job wall j r = record r {
  job = record j {
    id = r.id;
    org_id = r.org_id;
    command = stored_command j;
    created_at = r.created_at;
    updated_at = wall;
  };
}

-- UpdateJob: none for ErrNotFound. The name is taken to be free: the callers here do not change it.
unfoldable pub update_job : Time → Job → Db → Option Db
update_job wall j db =
    if any (is_job j.org_id j.id) db.jobs
    then some (record db { jobs = update_where (is_job j.org_id j.id) (set_job wall j) db.jobs })
    else none
