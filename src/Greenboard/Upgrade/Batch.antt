-- ===== src/Greenboard/Upgrade/Batch.antt =====
-- What the one document of an upgrade run says of its sessions.
use couchbase_lite_tests.Prelude.{
  ◌≡◌, refl, Bool, true, false, not, ◌&&◌, ◌||◌, ◌==◌, nat_eq, Option, none, some, List, [], ◌∷◌,
  ◌++◌, Text, arith, if◌then◌else◌, ◌⊎◌, ℤ, Bool-cases, inl, inr,
}
use couchbase_lite_tests.Prelude.Result.{Result, ok, err, ◌>>=◌, >>=-eq-ok}
use couchbase_lite_tests.Greenboard.Upgrade.{
  Iteration, ResultsFile, missing, unreadable, holds, setdefault, UpgradeStep, step_failed,
  record_upgrade_step, add_iteration, iteration_of, index_of, with_index, batch_of, path_of,
  first_failed, BatchDocument, upload_upgrade_batch,
}

-- The sessions of a run, each of which is recorded.
abbrev pub record_all : List UpgradeStep → ResultsFile → Result ResultsFile
record_all [] file = ok file
record_all (step ∷ steps) file = do next ← record_upgrade_step step file; record_all steps next

-- Whether a session ran a test or crashed.
abbrev pub attempted : UpgradeStep → Bool
attempted step = step.uploader.test_ran || step.uploader.overall_fail

abbrev pub some_attempted : List UpgradeStep → Bool
some_attempted [] = false
some_attempted (step ∷ steps) = attempted step || some_attempted steps

-- Whether a session crashed, or ran a test and counted a failure.
abbrev pub went_wrong : UpgradeStep → Bool
went_wrong step =
    step.uploader.overall_fail || (step.uploader.test_ran && not (step.uploader.fail_count == 0))

abbrev pub some_wrong : List UpgradeStep → Bool
some_wrong [] = false
some_wrong (step ∷ steps) = went_wrong step || some_wrong steps

failed-went_wrong :
    (step : UpgradeStep) → (attempted step && step_failed step.uploader) ≡ went_wrong step
failed-went_wrong step = ground arith

abbrev iterations_of : ResultsFile → List Iteration
iterations_of (holds state) = setdefault [] state.iterations
iterations_of _ = []

abbrev has_iteration : List Iteration → Bool
has_iteration [] = false
has_iteration (i ∷ iterations) = true

abbrev has_failed : List Iteration → Bool
has_failed [] = false
has_failed (i ∷ iterations) = i.failed || has_failed iterations

has_failed-append :
    (xs : List Iteration) (i : Iteration)
    → has_failed (xs ++ (i ∷ [])) ≡ (has_failed xs || i.failed)
has_failed-append [] i = ground arith
has_failed-append (x ∷ xs) i = ground (arith, has_failed-append xs i)

has_iteration-append : (xs : List Iteration) (i : Iteration) → has_iteration (xs ++ (i ∷ [])) ≡ true
has_iteration-append [] i = refl
has_iteration-append (x ∷ xs) i = refl

iterations-add :
    (path : List Text) (i : Iteration) (file : ResultsFile)
    → iterations_of (add_iteration path i file) ≡ iterations_of file ++ (i ∷ [])
unfolding add_iteration
iterations-add path i missing = refl
iterations-add path i unreadable = refl
iterations-add path i (holds state) = refl

-- A step leaves the file alone, or adds one iteration, which is marked as failed if the session is.
abbrev Recorded : UpgradeStep → (file next : ResultsFile) → Type 0
Recorded step file next =
    ((attempted step ≡ false) × (file ≡ next))
    ⊎ ((attempted step ≡ true)
        × ((path : List Text) × (i : Iteration) × (add_iteration path i file ≡ next)
            × (i.failed ≡ step_failed step.uploader)))

with_index-ok :
    (step : UpgradeStep) (file next : ResultsFile) (index : Result (Option ℤ))
    → with_index step file index ≡ ok next
    → (path : List Text) × (i : Iteration) × (add_iteration path i file ≡ next)
      × (i.failed ≡ step_failed step.uploader)
with_index-ok step file next (err e) h = cc
with_index-ok step file next (ok index) h =
    (path_of step.upgrade_versions_str, iteration_of step index, cc, unfold iteration_of in refl)

record_upgrade_step-Recorded :
    (step : UpgradeStep) (file next : ResultsFile)
    → record_upgrade_step step file ≡ ok next
    → Recorded step file next
unfolding record_upgrade_step
record_upgrade_step-Recorded step file next h = elim (Bool-cases (attempted step)) [
  | inl ran ↦ inr (ran, with_index-ok step file next (index_of step.node_index) (ground arith))
  | inr idle ↦ inl (idle, ground arith)
]

record_one :
    (step : UpgradeStep) (file next : ResultsFile)
    → record_upgrade_step step file ≡ ok next
    → (has_iteration (iterations_of next) ≡ (has_iteration (iterations_of file) || attempted step))
      × (has_failed (iterations_of next) ≡ (has_failed (iterations_of file) || went_wrong step))
record_one step file next h =
    rw (← failed-went_wrong step) (elim (record_upgrade_step-Recorded step file next h) [
      | inl (idle, same) ↦ rw (← same, idle) (ground arith, ground arith)
      | inr (ran, (path, i, added, marked)) ↦
          rw (← added, iterations-add path i file, ran)
            (
              ground (arith, has_iteration-append (iterations_of file) i),
              ground (arith, has_failed-append (iterations_of file) i),
            )
    ])

record_steps :
    (steps : List UpgradeStep) (file last : ResultsFile)
    → record_all steps file ≡ ok last
    → (has_iteration (iterations_of last)
        ≡ (has_iteration (iterations_of file) || some_attempted steps))
      × (has_failed (iterations_of last) ≡ (has_failed (iterations_of file) || some_wrong steps))
record_steps [] file last h =
    let same : file ≡ last = cc in rw (← same) (ground arith, ground arith)
record_steps (step ∷ steps) file last h =
    let (next, one, more) = >>=-eq-ok (record_upgrade_step step file) (record_all steps) h in
    let (a, b) = record_one step file next one in
    let (c, d) = record_steps steps next last more in (ground (arith, a, c), ground (arith, b, d))

first_failed-has_failed :
    (iterations : List Iteration)
    → (elim (first_failed iterations) [ none ↦ false | some _ ↦ true ]) ≡ has_failed iterations
unfolding first_failed
first_failed-has_failed [] = refl
first_failed-has_failed (i ∷ iterations) = ground (arith, first_failed-has_failed iterations)

-- One document where there is something to tell, which counts one pass or one failure.
abbrev pub Summary : (told failed : Bool) → Option BatchDocument → Type 0
Summary told failed uploaded =
    ((told ≡ false) × (uploaded ≡ none))
    ⊎ ((told ≡ true)
        × ((doc : BatchDocument) × (uploaded ≡ some doc)
            × (doc.fail_count ≡ (if failed then 1 else 0))
            × (doc.pass_count ≡ (if failed then 0 else 1))))

batch_of-Summary :
    (build_url : Option Text) (path : List Text) (iterations : List Iteration)
    → Summary
        (has_iteration iterations)
        (has_failed iterations)
        (batch_of build_url path iterations)
batch_of-Summary build_url path [] = inl (refl, refl)
batch_of-Summary build_url path (i ∷ iterations) =
    let e = first_failed-has_failed (i ∷ iterations) in
    inr (refl, (_, refl, ground (arith, e), ground (arith, e)))

upload-Summary :
    (build_url : Option Text) (file : ResultsFile)
    → Summary
        (has_iteration (iterations_of file))
        (has_failed (iterations_of file))
        (upload_upgrade_batch build_url file)
unfolding upload_upgrade_batch
upload-Summary build_url missing = inl (refl, refl)
upload-Summary build_url unreadable = inl (refl, refl)
upload-Summary build_url (holds state) =
    batch_of-Summary build_url (setdefault [] state.upgrade_path) (setdefault [] state.iterations)

-- After the sessions of a run were recorded in a new file, nothing is uploaded if no session ran a test
-- or crashed. Otherwise one document is uploaded, which counts one failure and no pass if some session
-- crashed, or ran a test and counted a failure, and one pass and no failure if none did.
pub upload_upgrade_batch-record_all :
    (build_url : Option Text) (steps : List UpgradeStep) (file : ResultsFile)
    → record_all steps missing ≡ ok file
    → Summary (some_attempted steps) (some_wrong steps) (upload_upgrade_batch build_url file)
upload_upgrade_batch-record_all build_url steps file h =
    let (a, b) = record_steps steps missing file h in rw (← a, ← b) (upload-Summary build_url file)
