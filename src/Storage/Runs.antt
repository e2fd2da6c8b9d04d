-- ===== src/Storage/Runs.antt =====
-- storage/repository.py: `save_run` and `get_run`.
use agentic_test_system.Prelude.{
  String, Bool, Option, none, some, strip, is_missing, is_some, or_else, if◌then◌else◌,
}
use agentic_test_system.Core.{FilePath, Timestamp, value_error, Result, ok, err, Action}
use agentic_test_system.Storage.Table.{find_row, upsert}
use agentic_test_system.Storage.Database.{RunRecord, Database}

abbrev pub run_key : RunRecord → String
run_key r = r.run_id

-- Whether a foreign key to `runs` is met.
abbrev pub has_run : Database → String → Bool
has_run db k = is_some (find_row run_key k db.runs)

-- The keyword arguments of `save_run`.
pub record RunFields : Type 0 where
  pub run_id : Option String
  pub repo_path : Option FilePath
  pub current_commit : Option String
  pub base_commit : Option String
  pub branch_name : Option String
  pub route_selected : Option String
  pub started_at : Option Timestamp
  pub completed_at : Option Timestamp
  pub final_status : String
  pub error_message : Option String

-- The three texts of Git metadata, all given or not.
git_meta : Option String → Option String → Option String → Option (String × String × String)
git_meta (some c) (some b) (some n) = some (c, b, n)
git_meta _ _ _ = none

unfoldable pub build_run :
    String
    → Option FilePath
    → Option (String × String × String)
    → RunFields
    → Timestamp
    → Result RunRecord
build_run k none meta f now = err (value_error "repo_path must be provided when run is omitted")
build_run k (some path) none f now =
    err (value_error "Git metadata (current_commit, base_commit, branch_name) must be provided")
build_run k (some path) (some (commit, base, branch)) f now = ok (record {
  run_id = strip k;
  repo_path = path;
  current_commit = strip commit;
  base_commit = strip base;
  branch_name = strip branch;
  route_selected = f.route_selected;
  started_at = or_else f.started_at now;
  completed_at = f.completed_at;
  final_status = f.final_status;
  error_message = f.error_message;
})

-- The record that the keyword arguments describe, or the complaint about a missing one; `now` is
-- what the clock shows, should `started_at` be left out.
unfoldable pub target_run : RunFields → Timestamp → Result RunRecord
unfolding build_run git_meta
target_run f now = elim f.run_id [
  | none ↦ err (value_error "run_id must be provided when run is omitted")
  | some k ↦
      if is_missing k
      then err (value_error "run_id must be provided when run is omitted")
      else build_run k f.repo_path (git_meta f.current_commit f.base_commit f.branch_name) f now
]

-- The statement on the table `runs`, its commit, and the record that is returned.
unfoldable pub store_run : Result RunRecord → Action Database RunRecord
store_run (ok r) db = (ok r, record db { runs = upsert run_key r db.runs })
store_run (err e) db = (err e, db)

unfoldable pub save_run : Option RunRecord → RunFields → Timestamp → Action Database RunRecord
unfolding store_run target_run
save_run (some r) f now = store_run (ok r)
save_run none f now = store_run (target_run f now)

unfoldable pub get_run : String → Action Database (Option RunRecord)
get_run k db =
    if is_missing k
    then (err (value_error "run_id must be a non-empty string"), db)
    else (ok (find_row run_key (strip k) db.runs), db)
