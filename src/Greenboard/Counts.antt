-- ===== src/Greenboard/Counts.antt =====
-- The counts that reach a document of greenboard.
use couchbase_lite_tests.Prelude.{
  ℕ, ◌+◌, ◌<◌, ◌≡◌, refl, ◌∙◌, Bool, false, not, ◌&&◌, ◌||◌, Option, none, some, List, [], ◌∷◌,
  String, Text, nat_eq, arith, if◌then◌else◌,
}
use couchbase_lite_tests.Greenboard.{
  GreenboardUploader, new_uploader, TestReport, is_passed, is_failed, pytest_runtest_makereport,
  CouchbaseVersion, RunResult, upload, JunitSuite, count_from_junit_xml, upload_from_junit_file,
}

-- The reports of a session, one after the other.
abbrev pub session : List TestReport → GreenboardUploader → GreenboardUploader
session [] u = u
session (report ∷ reports) u = session reports (pytest_runtest_makereport report u)

-- Whether a setup or a teardown failed.
abbrev pub has_crash : List TestReport → Bool
has_crash [] = false
has_crash (report ∷ reports) = (not report.is_call && is_failed report.outcome) || has_crash reports

abbrev pub count_calls : (TestReport → Bool) → List TestReport → ℕ
count_calls p [] = 0
count_calls p (report ∷ reports) =
    (if report.is_call && p report then 1 else 0) + count_calls p reports

overall_fail-session :
    (reports : List TestReport) (u : GreenboardUploader)
    → (session reports u).overall_fail ≡ (u.overall_fail || has_crash reports)
overall_fail-session [] u = ground arith
overall_fail-session (report ∷ reports) u =
    let step : (pytest_runtest_makereport report u).overall_fail
        ≡ (u.overall_fail || (not report.is_call && is_failed report.outcome)) =
      unfold pytest_runtest_makereport in ground arith in
    ground (arith, step, overall_fail-session reports (pytest_runtest_makereport report u))

report_counts :
    (report : TestReport) (u : GreenboardUploader)
    → u.overall_fail ≡ false
    → (not report.is_call && is_failed report.outcome) ≡ false
    → let next = pytest_runtest_makereport report u in
      (next.overall_fail ≡ false)
      × (next.pass_count
          ≡ u.pass_count + (if report.is_call && is_passed report.outcome then 1 else 0))
      × (next.fail_count
          ≡ u.fail_count + (if report.is_call && is_failed report.outcome then 1 else 0))
unfolding pytest_runtest_makereport
report_counts report u fine no_crash = ground arith

upload_fine :
    (build_url : Option Text) (platform os_name : String) (version : Text)
    (sgw_version : Option CouchbaseVersion) (u : GreenboardUploader)
    → u.overall_fail ≡ false
    → (doc : RunResult) × (upload build_url platform os_name version sgw_version none none u
        ≡ some doc)
      × (doc.pass_count ≡ u.pass_count)
      × (doc.fail_count ≡ u.fail_count)
unfolding upload
upload_fine build_url platform os_name version sgw_version u fine = rw fine (_, refl, refl, refl)

session_counts :
    (reports : List TestReport) (u : GreenboardUploader)
    → u.overall_fail ≡ false
    → has_crash reports ≡ false
    → ((session reports u).pass_count
        ≡ u.pass_count + count_calls (λ r. is_passed r.outcome) reports)
      × ((session reports u).fail_count
          ≡ u.fail_count + count_calls (λ r. is_failed r.outcome) reports)
session_counts [] u fine none_crashed = (omega arith, omega arith)
session_counts (report ∷ reports) u fine none_crashed =
    let next = pytest_runtest_makereport report u in
    let (go_on, passes, fails) = report_counts report u fine (ground arith) in
    let (more_passes, more_fails) = session_counts reports next go_on (ground arith) in
    (ground (arith, passes, more_passes), ground (arith, fails, more_fails))

-- A session in which no setup and no teardown failed uploads the numbers of the tests that passed and
-- that failed.
pub upload-session :
    (build_url : Option Text) (platform os_name : String) (version : Text)
    (sgw_version : Option CouchbaseVersion) (url : Text) (reports : List TestReport)
    → has_crash reports ≡ false
    → (doc : RunResult) × (upload build_url platform os_name version sgw_version none none
          (session reports (new_uploader url))
        ≡ some doc)
      × (doc.pass_count ≡ count_calls (λ r. is_passed r.outcome) reports)
      × (doc.fail_count ≡ count_calls (λ r. is_failed r.outcome) reports)
upload-session build_url platform os_name version sgw_version url reports none_crashed =
    let fresh = new_uploader url in
    let u = session reports fresh in
    let (passes, fails) = session_counts reports fresh (unfold new_uploader in refl) none_crashed in
    let fine : u.overall_fail ≡ false =
      overall_fail-session reports fresh ∙ (unfold new_uploader in none_crashed) in
    let (doc, e, p, f) = upload_fine build_url platform os_name version sgw_version u fine in
    (
      doc,
      e,
      p ∙ passes ∙ (unfold new_uploader in omega arith),
      f ∙ fails ∙ (unfold new_uploader in omega arith),
    )

-- A document that comes from a JUnit file counts all passed, failed and broken tests of the file, at
-- least one of which passed or failed.
pub upload_from_junit_file-counts :
    (build_url : Option Text) (platform os_name : String) (version : Text)
    (sgw_version : Option CouchbaseVersion) (xml : List JunitSuite) (u : GreenboardUploader)
    (doc : RunResult)
    → upload_from_junit_file build_url platform os_name version sgw_version (some xml) u ≡ some doc
    → let c = count_from_junit_xml xml in
      (doc.pass_count + doc.fail_count ≡ c.passes + c.failures + c.errors)
      × (0 < c.passes + c.failures)
      × (u.overall_fail ≡ false)
unfolding upload_from_junit_file upload
upload_from_junit_file-counts build_url platform os_name version sgw_version xml u doc h =
    ground arith
