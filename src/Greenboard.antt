-- ===== src/Greenboard.antt =====
-- client/src/cbltest/greenboarduploader.py: the counts of a test session, and the document that is
-- uploaded for it.
--
-- An upload is its document: the time stamps and the database are not modelled. The environment
-- variables and the JUnit file are arguments.
pub mod Counts
pub mod Upgrade
use couchbase_lite_tests.Prelude.{
  ℕ, zero, suc, ◌+◌, ◌-◌, ◌≡◌, Bool, true, false, not, ◌&&◌, ◌||◌, Option, none, some, List, [],
  ◌∷◌, ◌++◌, String, ◌==◌, nat_eq, string_eq, text_eq, Text, codes, split, has_text, starts_with,
  lstrip, parse_int, ℤ, pos, if◌then◌else◌, ltb, drop, length, nat_beq,
}

-- `a or b` of two optional texts, where the empty text counts as none.
abbrev pub or_else : Option Text → Option Text → Option Text
or_else (some (c ∷ s)) b = some (c ∷ s)
or_else _ b = b

unfoldable pub resolve_job_url : (build_url : Option Text) → Text
resolve_job_url (some (c ∷ s)) = c ∷ s
resolve_job_url _ = codes "local"

-- `s.removeprefix(prefix)`
abbrev removeprefix : (prefix s : Text) → Text
removeprefix prefix s = if starts_with s prefix then drop (length prefix) s else s

abbrev branch_of : Option Text → Option Text
branch_of (some (c ∷ s)) = or_else (some (removeprefix (codes "origin/") (c ∷ s))) none
branch_of _ = none

unfoldable pub resolve_branch : (override git_branch branch_name : Option Text) → Option Text
unfolding starts_with
resolve_branch override git_branch branch_name =
    branch_of (or_else override (or_else git_branch branch_name))

pub record GreenboardUploader : Type 0 where
  pub url : Text
  pub fail_count : ℕ
  pub pass_count : ℕ
  pub overall_fail : Bool
  pub test_ran : Bool
  pub has_sgw_marker : Bool

unfoldable pub new_uploader : Text → GreenboardUploader
unfolding has_text
new_uploader url = record {
  url = if has_text url (codes "://") then url else codes "couchbase://" ++ url;
  fail_count = 0;
  pass_count = 0;
  overall_fail = false;
  test_ran = false;
  has_sgw_marker = false;
}

pub data TestOutcome : Type 0 where
  passed failed skipped : TestOutcome

abbrev pub is_passed : TestOutcome → Bool
is_passed passed = true
is_passed _ = false

abbrev pub is_failed : TestOutcome → Bool
is_failed failed = true
is_failed _ = false

-- A report of pytest: whether it is about the call of a test (or its setup or teardown), how that went,
-- and whether the test has a marker `sgw` or `upg_sgw`.
pub record TestReport : Type 0 where
  pub is_call : Bool
  pub outcome : TestOutcome
  pub has_marker : Bool

abbrev count_outcome : TestOutcome → GreenboardUploader → GreenboardUploader
count_outcome passed u = record u { pass_count = u.pass_count + 1 }
count_outcome failed u = record u { fail_count = u.fail_count + 1 }
count_outcome skipped u = u

abbrev see_marker : Bool → GreenboardUploader → GreenboardUploader
see_marker true u = record u { has_sgw_marker = true }
see_marker false u = u

unfoldable pub pytest_runtest_makereport : TestReport → GreenboardUploader → GreenboardUploader
pytest_runtest_makereport report u =
    if not report.is_call
    then (if is_failed report.outcome then record u { overall_fail = true } else u)
    else let ran : GreenboardUploader = record u { test_ran = true } in
      if u.overall_fail
      then ran
      else count_outcome report.outcome (see_marker report.has_marker ran)

pub record CouchbaseVersion : Type 0 where
  pub version : Text
  pub build_number : ℤ

-- `sgwVersion`: "n/a", or the version, a dash and the build number.
pub data SgwVersion : Type 0 where
  not_available : SgwVersion
  version_and_build : Text → ℤ → SgwVersion

pub record RunResult : Type 0 where
  pub build : ℤ
  pub version : Text
  pub sgw_version : SgwVersion
  pub fail_count : ℕ
  pub pass_count : ℕ
  pub platform : String
  pub os : String
  pub job_url : Text

abbrev sgw_text : Option CouchbaseVersion → SgwVersion
sgw_text none = not_available
sgw_text (some v) = version_and_build v.version v.build_number

abbrev known_version : Text → Text
known_version [] = codes "0.0.0"
known_version (c ∷ s) = if c ∷ s == codes "unknown" then codes "0.0.0" else c ∷ s

abbrev first_part : List Text → Text
first_part ((c ∷ s) ∷ parts) = c ∷ s
first_part _ = codes "0.0.0"

abbrev build_or_zero : Option ℤ → ℤ
build_or_zero none = pos 0
build_or_zero (some n) = n

abbrev second_part : List Text → ℤ
second_part (v ∷ b ∷ parts) = build_or_zero (parse_int (lstrip (λ c. nat_beq c b'b') b))
second_part _ = pos 0

abbrev from_version : Text → Text × ℤ
from_version version = let parts = split b'-' version in (first_part parts, second_part parts)

-- The version and the build of the document.
unfoldable pub parsed : String → Text → Option CouchbaseVersion → Text × ℤ
unfolding split lstrip parse_int
parsed platform version none = from_version version
parsed platform version (some sgw) =
    if platform == "sync-gateway"
    then (known_version sgw.version, sgw.build_number)
    else from_version version

abbrev or_counter : Option ℕ → ℕ → ℕ
or_counter none counter = counter
or_counter (some n) counter = n

module _ (build_url : Option Text) (platform os_name : String) (version : Text)
    (sgw_version : Option CouchbaseVersion) where
  -- The document that is uploaded, if one is.
  unfoldable pub upload : (pass_count fail_count : Option ℕ) → GreenboardUploader → Option RunResult
  unfolding parsed resolve_job_url
  upload pass_count fail_count u =
      if u.overall_fail
      then none
      else let (parsed_version, parsed_build) = parsed platform version sgw_version in
        some (record {
          build = parsed_build;
          version = parsed_version;
          sgw_version = sgw_text sgw_version;
          fail_count = or_counter fail_count u.fail_count;
          pass_count = or_counter pass_count u.pass_count;
          platform = platform;
          os = os_name;
          job_url = resolve_job_url build_url;
        })

-- A `<testsuite>`: an attribute that is not there counts as 0.
pub record JunitSuite : Type 0 where
  pub tests : Option ℕ
  pub failures : Option ℕ
  pub errors : Option ℕ
  pub skipped : Option ℕ

abbrev pub or_zero : Option ℕ → ℕ
or_zero none = 0
or_zero (some n) = n

pub record JunitCounts : Type 0 where
  pub passes : ℕ
  pub failures : ℕ
  pub errors : ℕ

-- The subtraction of ℕ is the `max(0, ...)` of the source.
abbrev add_suite : JunitCounts → JunitSuite → JunitCounts
add_suite c s = record {
  passes = c.passes + (or_zero s.tests - or_zero s.failures - or_zero s.errors - or_zero s.skipped);
  failures = c.failures + or_zero s.failures;
  errors = c.errors + or_zero s.errors;
}

unfoldable pub count_suites : JunitCounts → List JunitSuite → JunitCounts
count_suites c [] = c
count_suites c (s ∷ xml) = count_suites (add_suite c s) xml

unfoldable pub count_from_junit_xml : List JunitSuite → JunitCounts
unfolding count_suites
count_from_junit_xml xml = count_suites (record { passes = 0; failures = 0; errors = 0 }) xml

module _ (build_url : Option Text) (platform os_name : String) (version : Text)
    (sgw_version : Option CouchbaseVersion) where
  -- `none` where there is no JUnit file.
  unfoldable pub upload_from_junit_file :
      Option (List JunitSuite) → GreenboardUploader → Option RunResult
  unfolding upload count_from_junit_xml
  upload_from_junit_file none u = upload build_url platform os_name version sgw_version none none u
  upload_from_junit_file (some xml) u =
      let c = count_from_junit_xml xml in
      if c.passes + c.failures + c.errors == 0
      then none
      else if c.passes == 0 && c.failures == 0 && ltb 0 c.errors
      then none
      else upload build_url platform os_name version sgw_version (some c.passes)
          (some (c.failures + c.errors)) u
