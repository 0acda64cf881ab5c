-- ===== src/Greenboard/Upgrade.antt =====
-- client/src/cbltest/greenboarduploader.py: the steps of an upgrade run, which are kept in a file, and
-- the one document that is uploaded for the run.
pub mod Batch
use couchbase_lite_tests.Prelude.{
  ℕ, ◌≡◌, Bool, true, false, not, ◌&&◌, ◌||◌, Option, none, some, List, [], ◌∷◌, ◌++◌, ◌==◌, nat_eq,
  text_eq, Text, codes, split, strip, parse_int, ℤ, pos, if◌then◌else◌, ltb,
}
use couchbase_lite_tests.Prelude.Result.{Result, ok, err, value_error, ◌>>=◌}
use couchbase_lite_tests.Greenboard.{GreenboardUploader, CouchbaseVersion, or_else, resolve_job_url}

pub record Iteration : Type 0 where
  pub phase : Option Text
  pub node_index : Option ℤ
  pub upgrade_from : Text
  pub upgrade_to : Text
  pub build : ℤ
  pub pass_count : ℕ
  pub fail_count : ℕ
  pub failed : Bool

-- The JSON object in the file, either key of which may not be there.
pub record UpgradeState : Type 0 where
  pub upgrade_path : Option (List Text)
  pub iterations : Option (List Iteration)

-- The file: it may not exist, or not be read as JSON.
pub data ResultsFile : Type 0 where
  missing unreadable : ResultsFile
  holds : UpgradeState → ResultsFile

-- `[v.strip() for v in s.split(",") if v.strip()]`
abbrev stripped : List Text → List Text
stripped [] = []
stripped (v ∷ vs) = let rest = stripped vs in if strip v == [] then rest else strip v ∷ rest

unfoldable pub path_of : Text → List Text
unfolding split strip
path_of upgrade_versions_str = stripped (split b',' upgrade_versions_str)

abbrev last_or : Text → List Text → Text
last_or default [] = default
last_or default (v ∷ []) = v
last_or default (v ∷ w ∷ vs) = last_or default (w ∷ vs)

abbrev fallback : (under_test : Option Text) → List Text → Text
fallback (some (c ∷ s)) path = c ∷ s
fallback _ path = last_or (codes "0.0.0") path

abbrev live_or : Text → ℤ → Text → Text × ℤ
live_or [] build other = (other, pos 0)
live_or (c ∷ s) build other = (c ∷ s, build)

-- The version that the step leads to, and its build.
unfoldable pub current_version :
    Option CouchbaseVersion → (under_test : Option Text) → List Text → Text × ℤ
current_version none under_test path = (fallback under_test path, pos 0)
current_version (some v) under_test path =
    live_or v.version v.build_number (fallback under_test path)

-- The `for` loop: the version before the first occurrence of the current one that is not at the start.
abbrev version_before : (current previous : Text) → List Text → Text
version_before current previous [] = codes "initial"
version_before current previous (v ∷ vs) =
    let rest = version_before current v vs in if v == current then previous else rest

unfoldable pub upgrade_from : Text → List Text → Text
upgrade_from current [] = codes "initial"
upgrade_from current (v ∷ vs) = version_before current v vs

abbrev pub index_of : Option Text → Result (Option ℤ)
index_of none = ok none
index_of (some s) = elim (parse_int s) [ none ↦ err value_error | some n ↦ ok (some n) ]

abbrev loaded : ResultsFile → UpgradeState
loaded (holds state) = state
loaded _ = record { upgrade_path = none; iterations = none }

-- `state.setdefault(key, default)`
abbrev pub setdefault : {A : Type 0} → A → Option A → A
setdefault default none = default
setdefault default (some a) = a

unfoldable pub add_iteration : List Text → Iteration → ResultsFile → ResultsFile
add_iteration path iteration file =
    let state = loaded file in
    holds (record {
      upgrade_path = some (setdefault path state.upgrade_path);
      iterations = some (setdefault [] state.iterations ++ (iteration ∷ []));
    })

-- What one pytest session hands over, its environment included.
pub record UpgradeStep : Type 0 where
  pub uploader : GreenboardUploader
  pub sgw_version : Option CouchbaseVersion
  pub upgrade_versions_str : Text
  pub phase : Option Text
  pub node_index : Option Text
  pub under_test : Option Text

-- Whether the session counts as failed.
abbrev pub step_failed : GreenboardUploader → Bool
step_failed u = ltb 0 u.fail_count || u.overall_fail

-- The entry that a session adds, where the number of the node was read.
unfoldable pub iteration_of : UpgradeStep → Option ℤ → Iteration
unfolding path_of current_version upgrade_from
iteration_of step index =
    let u = step.uploader in
    let path = path_of step.upgrade_versions_str in
    let (current, build) = current_version step.sgw_version step.under_test path in
    record {
      phase = step.phase;
      node_index = index;
      upgrade_from = upgrade_from current path;
      upgrade_to = current;
      build = build;
      pass_count = u.pass_count;
      fail_count = if step_failed u && u.fail_count == 0 then 1 else u.fail_count;
      failed = step_failed u;
    }

abbrev pub with_index : UpgradeStep → ResultsFile → Result (Option ℤ) → Result ResultsFile
with_index step file (err e) = err e
with_index step file (ok index) =
    ok (add_iteration (path_of step.upgrade_versions_str) (iteration_of step index) file)

unfoldable pub record_upgrade_step : UpgradeStep → ResultsFile → Result ResultsFile
unfolding iteration_of parse_int add_iteration
record_upgrade_step step file =
    if not step.uploader.test_ran && not step.uploader.overall_fail
    then ok file
    else with_index step file (index_of step.node_index)

-- The entry of the first iteration that failed.
pub record FailedAt : Type 0 where
  pub phase : Option Text
  pub upgrade_from : Text
  pub upgrade_to : Text
  pub node_index : Option ℤ

unfoldable pub first_failed : List Iteration → Option FailedAt
first_failed [] = none
first_failed (i ∷ iterations) =
    let rest = first_failed iterations in
    if i.failed
    then some (record {
      phase = i.phase;
      upgrade_from = i.upgrade_from;
      upgrade_to = i.upgrade_to;
      node_index = i.node_index;
    })
    else rest

pub record BatchDocument : Type 0 where
  pub build : ℤ
  pub version : Text
  pub upgrade_path : List Text
  pub iterations : List Iteration
  pub pass_count : ℕ
  pub fail_count : ℕ
  pub failed_at : Option FailedAt
  pub job_url : Text

-- The last iteration of a list that has one.
abbrev last_iteration : Iteration → List Iteration → Iteration
last_iteration i [] = i
last_iteration i (j ∷ iterations) = last_iteration j iterations

abbrev batch : Option Text → List Text → Iteration → List Iteration → BatchDocument
batch build_url path i iterations =
    let last = last_iteration i iterations in
    let at = first_failed (i ∷ iterations) in
    record {
      build = elim at [ none ↦ last.build | some _ ↦ pos 0 ];
      version = last_or last.upgrade_to path;
      upgrade_path = path;
      iterations = i ∷ iterations;
      pass_count = elim at [ none ↦ 1 | some _ ↦ 0 ];
      fail_count = elim at [ none ↦ 0 | some _ ↦ 1 ];
      failed_at = at;
      job_url = resolve_job_url build_url;
    }

abbrev pub batch_of : Option Text → List Text → List Iteration → Option BatchDocument
batch_of build_url path [] = none
batch_of build_url path (i ∷ iterations) = some (batch build_url path i iterations)

-- The document that is uploaded, if one is.
unfoldable pub upload_upgrade_batch : Option Text → ResultsFile → Option BatchDocument
unfolding first_failed resolve_job_url
upload_upgrade_batch build_url (holds state) =
    batch_of build_url (setdefault [] state.upgrade_path) (setdefault [] state.iterations)
upload_upgrade_batch build_url _ = none
