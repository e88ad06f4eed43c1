-- ===== src/Coverage.antt =====
-- src/api_tests/coverage.py: which documented operations the tests exercise.
pub mod Types
pub mod Markers
pub mod Operations
pub mod Forbidden
pub mod Source
pub mod Manifests
