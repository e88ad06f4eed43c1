-- ===== src/Tests/Dependencies.antt =====
-- A frozen export, and the answers of uv.
use budget_analyzer_api_test.Base.{
  ◌≡◌, refl, ◌↔◌, true, List, [], ◌∷◌, contains, if◌then◌else◌, Option, some, String, string_eq,
  nat_eq, bool_eq, option_eq,
}
use budget_analyzer_api_test.Base.Result.{ok}
use budget_analyzer_api_test.Base.Text.{strip}
use budget_analyzer_api_test.Credentials.File.{split_lines}
use budget_analyzer_api_test.Dependencies.Pins.{
  LockedRequirement, locked_requirement_eq, canonicalize_name, pinned_export,
}
use budget_analyzer_api_test.Dependencies.{
  scanned, validate_hashed_export, CommandResult, no_hash, orphaned_continuation,
  DependencyContract, validate_lock_and_export, validate_uv_resolution,
}
use budget_analyzer_api_test.Dependencies.Resolved.{IsResolved, validate_uv_resolution_iff}

abbrev locked : List LockedRequirement
locked = record { name = "foo-bar"; version = "1.0" } ∷ []

abbrev frozen_export : String
frozen_export = "# by uv\nFoo_Bar==1.0 \\\n    --hash=sha256:ab\n"

abbrev answers : List String → Option CommandResult
answers arguments =
    if contains arguments "--version"
    then some (record { succeeded = true; stdout = "uv 0.9.1 (abc)\n" })
    else if contains arguments "export"
    then some (record { succeeded = true; stdout = frozen_export })
    else some (record { succeeded = true; stdout = "" })

abbrev contract : DependencyContract
contract = record { python_pin = "3.12.4"; uv_version = "0.9.1"; locked_requirements = locked }

export_runs :
    (validate_hashed_export frozen_export locked ≡ [])
    × (validate_hashed_export "  --hash\nfoo-bar==1.0\n" locked
        ≡ orphaned_continuation ∷ no_hash "foo-bar" ∷ [])
unfolding validate_hashed_export scanned split_lines nat_eq strip pinned_export string_eq
    locked_requirement_eq canonicalize_name
export_runs = (refl, refl)

resolution_run : validate_uv_resolution answers contract "uv" ≡ ok []
unfolding validate_uv_resolution string_eq strip nat_eq validate_lock_and_export
    validate_hashed_export scanned split_lines pinned_export locked_requirement_eq canonicalize_name
resolution_run = refl

validate_uv_resolution_iff_example :
    (validate_uv_resolution answers contract "uv" ≡ ok []) ↔ IsResolved answers contract "uv"
validate_uv_resolution_iff_example = validate_uv_resolution_iff answers contract "uv"
