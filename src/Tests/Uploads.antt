-- ===== src/Tests/Uploads.antt =====
-- Sessions that are uploaded to greenboard.
use couchbase_lite_tests.Prelude.{
  ℕ, ◌≡◌, refl, Bool, true, false, List, [], ◌∷◌, none, some, codes, pos, nat_eq, string_eq,
  text_eq,
}
use couchbase_lite_tests.Prelude.Result.{ok}
use couchbase_lite_tests.Greenboard.{
  GreenboardUploader, TestReport, passed, failed, RunResult, not_available, JunitSuite,
  upload_from_junit_file,
}
use couchbase_lite_tests.Greenboard.Upgrade.{
  Iteration, ResultsFile, missing, holds, UpgradeStep, upload_upgrade_batch, record_upgrade_step,
}
use couchbase_lite_tests.Greenboard.Upgrade.Batch.{
  record_all, some_attempted, some_wrong, Summary, upload_upgrade_batch-record_all,
}

abbrev call : TestReport
call = record { is_call = true; outcome = passed; has_marker = false }

abbrev teardown : TestReport
teardown = record { is_call = false; outcome = passed; has_marker = false }

abbrev reports : List TestReport
reports = teardown ∷ call ∷ teardown ∷ record call { outcome = failed } ∷ []

abbrev suites : List JunitSuite
suites = record { tests = some 5; failures = some 1; errors = some 1; skipped = none } ∷ []

abbrev fresh : GreenboardUploader
fresh = record {
  url = codes "couchbase://host";
  fail_count = 0;
  pass_count = 0;
  overall_fail = false;
  test_ran = false;
  has_sgw_marker = false;
}

abbrev uploaded : RunResult
uploaded = record {
  build = pos 12;
  version = codes "3.2.0";
  sgw_version = not_available;
  fail_count = 2;
  pass_count = 3;
  platform = "ios";
  os = "iOS";
  job_url = codes "local";
}

is_uploaded :
    upload_from_junit_file none "ios" "iOS" (codes "3.2.0-b12") none (some suites) fresh
    ≡ some uploaded
unfolding upload_from_junit_file
is_uploaded = refl

abbrev step : GreenboardUploader → UpgradeStep
step u = record {
  uploader = u;
  sgw_version = none;
  upgrade_versions_str = codes "3.3.0, 4.0.0";
  phase = none;
  node_index = some (codes "1");
  under_test = some (codes "4.0.0");
}

abbrev steps : List UpgradeStep
steps =
    step (record fresh { test_ran = true; pass_count = 4 })
    ∷ step (record fresh { test_ran = true; fail_count = 1 })
    ∷ []

abbrev iteration : (pass_count fail_count : ℕ) → Bool → Iteration
iteration pass_count fail_count is_bad = record {
  phase = none;
  node_index = some (pos 1);
  upgrade_from = codes "3.3.0";
  upgrade_to = codes "4.0.0";
  build = pos 0;
  pass_count = pass_count;
  fail_count = fail_count;
  failed = is_bad;
}

abbrev recorded : ResultsFile
recorded = holds (record {
  upgrade_path = some (codes "3.3.0" ∷ codes "4.0.0" ∷ []);
  iterations = some (iteration 4 0 false ∷ iteration 0 1 true ∷ []);
})

are_recorded : record_all steps missing ≡ ok recorded
unfolding record_upgrade_step
are_recorded = refl

upload_upgrade_batch-record_all_example :
    Summary (some_attempted steps) (some_wrong steps) (upload_upgrade_batch none recorded)
upload_upgrade_batch-record_all_example =
    upload_upgrade_batch-record_all none steps recorded are_recorded
