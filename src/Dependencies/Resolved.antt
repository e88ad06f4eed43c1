-- ===== src/Dependencies/Resolved.antt =====
-- What uv has answered where the resolution has no issue.
use budget_analyzer_api_test.Base.{
  ◌≡◌, refl, ap, ◌↔◌, Bool, true, false, not, List, [], ◌∷◌, map, ◌==◌, if◌then◌else◌, Option, none,
  some, String, null, string_eq, nat_eq, ==_self, eq_of_==, bool_eq, option_eq,
}
use budget_analyzer_api_test.Base.Result.{Result, ok, ◌>>=◌, >>=-eq-ok, ok-injective}
use budget_analyzer_api_test.Base.Text.{strip}
use budget_analyzer_api_test.Base.Prefix.{before_part}
use budget_analyzer_api_test.Credentials.Line.{followed_by}
use budget_analyzer_api_test.Dependencies.Pins.{locked_requirement_eq}
use budget_analyzer_api_test.Dependencies.{
  ExportIssue, validate_hashed_export, CommandResult, ResolutionIssue, uv_unavailable,
  version_failed, wrong_version, stale_lock, export_failed, export_issue, RunnerError, run_found,
  lock_command, export_command, DependencyContract, validate_lock_and_export,
  validate_uv_resolution,
}
use budget_analyzer_api_test.Dependencies.Frozen.{IsFrozen, validate_hashed_export_iff}

-- The commands answer as for a lock that is fresh and frozen.
pub record IsResolved (run : List String → Option CommandResult) (contract : DependencyContract)
    (uv : String) : Type 0 where
  pub version : CommandResult
  pub lock : CommandResult
  pub export : CommandResult
  pub version_run : run (uv ∷ "--version" ∷ []) ≡ some version
  pub version_succeeded : version.succeeded ≡ true
  pub version_pinned :
      before_part " (" (strip version.stdout) ≡ followed_by "uv " contract.uv_version
  pub lock_run : run (lock_command uv contract.python_pin) ≡ some lock
  pub lock_succeeded : lock.succeeded ≡ true
  pub export_run : run (export_command uv contract.python_pin) ≡ some export
  pub export_succeeded : export.succeeded ≡ true
  pub frozen : IsFrozen export.stdout contract.locked_requirements

run_found-ok :
    (o : Option CommandResult) (result : CommandResult) → run_found o ≡ ok result → o ≡ some result
run_found-ok none result h = cc
run_found-ok (some other) result h = ap some (ok-injective other result h)

no_export_issue :
    (issues : List ExportIssue)
    → Path (Result RunnerError (List ResolutionIssue)) (ok (map export_issue issues)) (ok [])
    → issues ≡ []
no_export_issue [] h = refl
no_export_issue (issue ∷ issues) h =
    let wrong : null (map export_issue (issue ∷ issues)) ≡ true = ap null (ok-injective _ [] h) in
    cc

module _ (run : List String → Option CommandResult) (contract : DependencyContract)
    (uv : String) where
  resolution_clean : IsResolved run contract uv → validate_uv_resolution run contract uv ≡ ok []
  unfolding validate_uv_resolution validate_lock_and_export
  resolution_clean r =
      let clean =
        (validate_hashed_export_iff r.export.stdout contract.locked_requirements).1 r.frozen in
      let pinned : (before_part " (" (strip r.version.stdout)
            == followed_by "uv " contract.uv_version)
          ≡ true =
        rw r.version_pinned (==_self (followed_by "uv " contract.uv_version)) in
      rw
        (
          validate_uv_resolution, r.version_run, r.version_succeeded, pinned,
          validate_lock_and_export, r.lock_run, run_found, r.lock_succeeded, r.export_run,
          r.export_succeeded, clean,
        )
        refl

  -- The lock's and the export's part of `IsResolved`.
  record IsLocked : Type 0 where
    lock : CommandResult
    export : CommandResult
    lock_run : run (lock_command uv contract.python_pin) ≡ some lock
    lock_succeeded : lock.succeeded ≡ true
    export_run : run (export_command uv contract.python_pin) ≡ some export
    export_succeeded : export.succeeded ≡ true
    frozen : IsFrozen export.stdout contract.locked_requirements

  clean-IsLocked : validate_lock_and_export run contract uv ≡ ok [] → IsLocked
  unfolding validate_lock_and_export
  clean-IsLocked h =
      let (lock, lock_found, rest) =
        >>=-eq-ok (run_found (run (lock_command uv contract.python_pin))) _ h in
      locked lock (run_found-ok (run (lock_command uv contract.python_pin)) lock lock_found)
        lock.succeeded refl rest
    where
      exported :
          (lock export : CommandResult)
          → run (lock_command uv contract.python_pin) ≡ some lock
          → lock.succeeded ≡ true
          → run (export_command uv contract.python_pin) ≡ some export
          → (s : Bool) → export.succeeded ≡ s
          → let issues : Result RunnerError (List ResolutionIssue) =
              if not s
              then ok (export_failed ∷ [])
              else ok (
                  map export_issue
                    (validate_hashed_export export.stdout contract.locked_requirements)) in
            issues ≡ ok [] → IsLocked
      exported lock export lr ls er false es h =
          let wrong : null (export_failed ∷ []) ≡ true = ap null (ok-injective _ [] h) in cc
      exported lock export lr ls er true es h = record {
        lock = lock;
        export = export;
        lock_run = lr;
        lock_succeeded = ls;
        export_run = er;
        export_succeeded = es;
        frozen =
            (validate_hashed_export_iff export.stdout contract.locked_requirements).0 (
              no_export_issue (validate_hashed_export export.stdout contract.locked_requirements)
                h);
      }

      locked :
          (lock : CommandResult)
          → run (lock_command uv contract.python_pin) ≡ some lock
          → (s : Bool) → lock.succeeded ≡ s
          → let issues : Result RunnerError (List ResolutionIssue) =
              if not s then ok (stale_lock ∷ []) else (do
                export_result ← run_found (run (export_command uv contract.python_pin))
                if not export_result.succeeded
                    then ok (export_failed ∷ [])
                    else ok (
                        map export_issue (
                          validate_hashed_export export_result.stdout
                            contract.locked_requirements))) in
            issues ≡ ok [] → IsLocked
      locked lock lr false ls h =
          let wrong : null (stale_lock ∷ []) ≡ true = ap null (ok-injective _ [] h) in cc
      locked lock lr true ls h =
          let (export, export_found, rest) =
            >>=-eq-ok (run_found (run (export_command uv contract.python_pin))) _ h in
          exported lock export lr ls
            (run_found-ok (run (export_command uv contract.python_pin)) export export_found)
            export.succeeded refl rest

  clean-IsResolved : validate_uv_resolution run contract uv ≡ ok [] → IsResolved run contract uv
  unfolding validate_uv_resolution
  clean-IsResolved h = answered (run (uv ∷ "--version" ∷ [])) refl h
    where
      wrong_issue :
          (issue : ResolutionIssue)
          → Path (Result RunnerError (List ResolutionIssue)) (ok (issue ∷ [])) (ok [])
          → IsResolved run contract uv
      wrong_issue issue h =
          let wrong : null (issue ∷ []) ≡ true = ap null (ok-injective _ [] h) in cc

      checked :
          (version : CommandResult) (s t : Bool)
          → run (uv ∷ "--version" ∷ []) ≡ some version
          → version.succeeded ≡ s
          → (before_part " (" (strip version.stdout) == followed_by "uv " contract.uv_version) ≡ t
          → (if not s
              then ok (version_failed ∷ [])
              else if not t
              then ok (wrong_version ∷ [])
              else validate_lock_and_export run contract uv)
            ≡ ok []
          → IsResolved run contract uv
      checked version false t vr vs vp h = wrong_issue version_failed h
      checked version true false vr vs vp h = wrong_issue wrong_version h
      checked version true true vr vs vp h =
          let l = clean-IsLocked h in
          record {
            version = version;
            lock = l.lock;
            export = l.export;
            version_run = vr;
            version_succeeded = vs;
            version_pinned =
                eq_of_== (before_part " (" (strip version.stdout))
                  (followed_by "uv " contract.uv_version) vp;
            lock_run = l.lock_run;
            lock_succeeded = l.lock_succeeded;
            export_run = l.export_run;
            export_succeeded = l.export_succeeded;
            frozen = l.frozen;
          }

      answered :
          (o : Option CommandResult)
          → run (uv ∷ "--version" ∷ []) ≡ o
          → (let issues : Result RunnerError (List ResolutionIssue) = elim o [
            | none ↦ ok (uv_unavailable ∷ [])
            | some version_result ↦
                if not version_result.succeeded
                then ok (version_failed ∷ [])
                else if not (
                    before_part " (" (strip version_result.stdout)
                    == followed_by "uv " contract.uv_version)
                then ok (wrong_version ∷ [])
                else validate_lock_and_export run contract uv
          ] in
              issues ≡ ok [])
          → IsResolved run contract uv
      answered none e h = wrong_issue uv_unavailable h
      answered (some version) e h =
          checked version version.succeeded
            (before_part " (" (strip version.stdout) == followed_by "uv " contract.uv_version) e
            refl refl h

  -- The resolution has no issue exactly when uv is found and is the pinned version, the lock and the
  -- export succeed, and the export's requirements are those of the lock, as a set of canonical names
  -- and versions, each pinned with a SHA-256 hash and none continued before it begins.
  pub validate_uv_resolution_iff :
      (validate_uv_resolution run contract uv ≡ ok []) ↔ IsResolved run contract uv
  validate_uv_resolution_iff = (clean-IsResolved, resolution_clean)
