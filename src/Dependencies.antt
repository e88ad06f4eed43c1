-- ===== src/Dependencies.antt =====
-- src/api_tests/dependency_contract.py: the frozen export of the locked dependencies. The commands of
-- uv are run by a parameter, which answers a command's arguments with its result, or with none where
-- the executable is not found.
pub mod Pins
pub mod Frozen
pub mod Resolved
use budget_analyzer_api_test.Base.{
  ℕ, zero, suc, ◌+◌, ◌-◌, ◌≤◌, ◌<◌, ◌≡◌, refl, sym, ◌∙◌, ap, ◌≢◌, ◌↔◌, ◌⊎◌, Bool, true, false, ◌&&◌,
  ◌||◌, not, List, [], ◌∷◌, ◌++◌, map, arith, Eq, ◌==◌, contains, keep, if◌then◌else◌, Option, none,
  some, inl, inr, Bool-cases, Option-cases, String, ◌<>◌, contains-append, contains-keep,
  all-contains, all-ext, any-ext, null-keep-not, null-keep, all-map, any-map, null-map,
  contains-map-keep, all-and, All-map, All-of_contains, all_mono, all_of_contains, ltb, leb, all,
  any, null, nodup, length, All, string_eq, nat_eq, ==_self, eq_of_==, ne_of_==, implies,
  null-append, length-append, bool_eq, option_eq, are_fresh, are_fresh-cons, are_fresh-append,
  nodup-append, are_fresh_union,
}
use budget_analyzer_api_test.Base.Dict.{
  Dict, keys, lookup, get_or, insert, lookup-insert, contains-keys-insert, lookup-eq-none_iff,
  lookup-tabulate, keys-tabulate, length-insert, are_new, are_new-insert,
}
use budget_analyzer_api_test.Base.Result.{
  Result, ok, err, ◌>>=◌, ◌>>◌, raise_if, >>=-eq-ok, raise_if-eq-ok, raise_if-then, ok-injective,
}
use budget_analyzer_api_test.Base.Text.{strip, join}
use budget_analyzer_api_test.Base.Prefix.{has_part, before_part}
use budget_analyzer_api_test.Credentials.Line.{
  is_empty, starts_hash, starts_space, followed_by, without_end,
}
use budget_analyzer_api_test.Credentials.File.{split_lines}
use budget_analyzer_api_test.Dependencies.Pins.{
  LockedRequirement, locked_requirement_eq, canonicalize_name, pinned_export,
}

-- The messages of `_validate_hashed_export`, with the sets that `_format_locked` writes as lists.
pub data ExportIssue : Type 0 where
  orphaned_continuation no_requirements : ExportIssue
  not_exact no_hash : String → ExportIssue
  missing_locked unexpected_exported : List LockedRequirement → ExportIssue

-- The variables of the loop over the lines.
pub record Scan : Type 0 where
  pub issues : List ExportIssue
  pub blocks : List String
  pub current : List String

abbrev pub flushed : Scan → List String
flushed scan =
    if null scan.current then scan.blocks else scan.blocks ++ (join " " scan.current ∷ [])

abbrev pub scan_line : String → Scan → Scan
scan_line line scan =
    if is_empty (strip line) || starts_hash line
    then scan
    else if starts_space line
    then (if null scan.current
        then record scan { issues = scan.issues ++ (orphaned_continuation ∷ []) }
        else record scan { current = scan.current ++ (strip line ∷ []) })
    else record { issues = scan.issues; blocks = flushed scan; current = strip line ∷ [] }

abbrev pub scan_lines : List String → Scan → Scan
scan_lines [] scan = scan
scan_lines (line ∷ lines) scan = scan_lines lines (scan_line line scan)

-- The lines of the export, scanned.
unfoldable pub scanned : String → Scan
scanned export =
    scan_lines (map without_end (split_lines export))
      (record { issues = []; blocks = []; current = [] })

-- The loop over the blocks: what it reports, and the requirements that it collects.
abbrev pub block_issues : List String → List ExportIssue
block_issues [] = []
block_issues (block ∷ blocks) =
    let rest = block_issues blocks in
    elim (pinned_export block) [
      | none ↦ not_exact block ∷ rest
      | some pin ↦ if has_part "--hash=sha256:" block then rest else no_hash pin.name ∷ rest
    ]

abbrev pub exported_requirements : List String → List LockedRequirement
exported_requirements [] = []
exported_requirements (block ∷ blocks) =
    let rest = exported_requirements blocks in
    elim (pinned_export block) [
      | none ↦ rest
      | some pin ↦ record pin { name = canonicalize_name pin.name } ∷ rest
    ]

-- The comparison of the two sets.
abbrev pub set_issues : List LockedRequirement → List LockedRequirement → List ExportIssue
set_issues locked exported =
    let missing = keep (λ r. not (contains exported r)) locked in
    let unexpected = keep (λ r. not (contains locked r)) exported in
    (if null missing then [] else missing_locked missing ∷ [])
    ++ (if null unexpected then [] else unexpected_exported unexpected ∷ [])

unfoldable pub validate_hashed_export : String → List LockedRequirement → List ExportIssue
validate_hashed_export export locked =
    let scan = scanned export in
    let blocks = flushed scan in
    let issues = scan.issues ++ block_issues blocks in
    if null blocks
    then no_requirements ∷ []
    else if not (null issues)
    then issues
    else set_issues locked (exported_requirements blocks)

pub record CommandResult : Type 0 where
  pub succeeded : Bool
  pub stdout : String

pub data ResolutionIssue : Type 0 where
  uv_unavailable version_failed wrong_version stale_lock export_failed : ResolutionIssue
  export_issue : ExportIssue → ResolutionIssue

-- A command that is not found after the first one was raises.
pub data RunnerError : Type 0 where
  not_found : RunnerError

abbrev pub run_found : Option CommandResult → Result RunnerError CommandResult
run_found none = err not_found
run_found (some result) = ok result

abbrev pub lock_command : String → String → List String
lock_command uv python = uv ∷ "lock" ∷ "--check" ∷ "--python" ∷ python ∷ "--no-sources" ∷ []

abbrev pub export_command : String → String → List String
export_command uv python =
    uv ∷ "export" ∷ "--frozen" ∷ "--all-groups" ∷ "--no-emit-project" ∷ "--no-annotate"
    ∷ "--no-header" ∷ "--format" ∷ "requirements.txt" ∷ "--python" ∷ python ∷ []

-- The members of `DependencyContract` that the resolution reads.
pub record DependencyContract : Type 0 where
  pub python_pin : String
  pub uv_version : String
  pub locked_requirements : List LockedRequirement

-- The part of `validate_uv_resolution` after the version is found to be the pinned one.
unfoldable pub validate_lock_and_export :
    (List String → Option CommandResult)
    → DependencyContract
    → String
    → Result RunnerError (List ResolutionIssue)
validate_lock_and_export run contract uv = do
  lock_result ← run_found (run (lock_command uv contract.python_pin))
  if not lock_result.succeeded then ok (stale_lock ∷ []) else (do
    export_result ← run_found (run (export_command uv contract.python_pin))
    if not export_result.succeeded
        then ok (export_failed ∷ [])
        else ok (
            map export_issue
              (validate_hashed_export export_result.stdout contract.locked_requirements)))

unfoldable pub validate_uv_resolution :
    (List String → Option CommandResult)
    → DependencyContract
    → String
    → Result RunnerError (List ResolutionIssue)
validate_uv_resolution run contract uv = elim (run (uv ∷ "--version" ∷ [])) [
  | none ↦ ok (uv_unavailable ∷ [])
  | some version_result ↦
      if not version_result.succeeded
      then ok (version_failed ∷ [])
      else if not
          (before_part " (" (strip version_result.stdout) == followed_by "uv " contract.uv_version)
      then ok (wrong_version ∷ [])
      else validate_lock_and_export run contract uv
]
