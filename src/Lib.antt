-- ===== src/Lib.antt =====
-- Verification library for budget-analyzer-api-tests, an external API test suite for the Budget
-- Analyzer gateway.
--
-- The suite decides which operations of the OpenAPI contracts are exercised by tests, which tests an
-- environment may run, and how requests and credentials are handled. This library models that
-- decision code; the HTTP client, the browser, pytest and the file system are outside of it.
--
-- The files and the code they model (paths from the repository's root):
--   OpenApi             src/api_tests/openapi.py: contracts, methods and operations
--   Coverage.Types      src/api_tests/coverage.py: the records of the reports
--   Coverage.Markers    coverage.py build_marker_counts
--   Coverage.Operations coverage.py _validate_inventory, build_operation_coverage, _coverage_status,
--                       missing_operation_ids, placeholder_operation_ids
--   Coverage.Forbidden  coverage.py build_forbidden_response_coverage, by its four stages
--   Coverage.Source     coverage.py, the readers of decorators and the three collectors
--   Config              src/api_tests/config.py: the configuration and its policy; Fields are the
--                       field validators and with_session_mode, which runs them again
--   MarkerPolicy        src/api_tests/pytest_plugin.py marker_policy_skip_reason and
--                       _validate_admin_deactivation_markers
--   OpenApi.Document    src/api_tests/openapi.py: JSON values, _validated_operation_entries and
--                       iter_operations
--   SessionGateway      src/api_tests/session_gateway_inventory.py: the inventory's records; Load
--                       reads it, Validate compares it with contract and tests, Report sums it up
--   Client              src/api_tests/client.py: rate policies, RequestPacer, GatewayRequestPacing
--   Identity            src/api_tests/session.py and session_gateway_assertions.py: requirements on
--                       sessions and identities
--   OpenApi.Drift       src/api_tests/openapi_drift.py: compare_openapi_documents and its parts
--   Coverage.Manifests  coverage.py load_deferred_admin_operations and openapi.py
--                       load_forbidden_response_deferrals
--   OpenApi.Requests    openapi.py operations_documenting_response and
--                       unauthenticated_request_safety_markers
--   Credentials         src/api_tests/local_credentials.py: Line and File are the credential file's
--                       text, Local the accounts of the roles, Naming, Disposable and Binding the
--                       account of one run and scenario
--   Auth                src/api_tests/auth.py: acquire_session, acquire_disposable_browser_target and
--                       their parts; Retry, Modes and Target are their properties
--   Dependencies        src/api_tests/dependency_contract.py: validate_uv_resolution and the frozen
--                       export; Frozen and Resolved are their properties
--   Base                equality, lists, dictionaries, stable sorting, results and text
--   Tests               runs on concrete data
--
-- How the parts interact: Coverage.Source reads markers, Coverage.Markers counts them, and the counts
-- feed the two reports of Coverage.Operations and Coverage.Forbidden. SessionGateway joins the
-- inventory file, the operations that OpenApi.Document reads and the counts of case markers, and its
-- report takes the rows of Coverage.Operations. Config decides which configurations exist, and
-- MarkerPolicy which tests run under one; Client paces their requests, and Identity checks whom they
-- run as. Auth acquires the sessions, from the environment or with the accounts of Credentials.
--
-- Conventions: a Python dict is an association list in insertion order, where an insertion of a
-- present key keeps its place; a set is used through membership only; `sorted` is a stable insertion
-- sort by the order of code points; a ValueError is an `err` of the component's error type, in the
-- order in which the code raises it. All recursion is structural, so there is no fuel.
--
-- In Client the time is counted in milliseconds and rates in tenths of a request per second, for which
-- all intervals of the code are exact; the readings of the clock and the path that urllib finds in a
-- target are parameters. A JSON document is the value that a parser returns, so the keys of an object
-- are distinct, and a number is the decimal text of its value.
--
-- Not modelled: file and network access, the parsing of Python, JSON and YAML text, pydantic's
-- checks of types and of unknown keys, the browser driver, pytest's own machinery, and the text of
-- error messages beyond the values they name. Of a configuration, only the first invalid field is
-- reported, where pydantic lists them all; its timeouts are counted in milliseconds.

pub mod Auth
pub mod Base
pub mod Client
pub mod Config
pub mod Coverage
pub mod Credentials
pub mod Dependencies
pub mod Identity
pub mod MarkerPolicy
pub mod OpenApi
pub mod SessionGateway
pub mod Tests
