-- ===== src/Credentials.antt =====
-- src/api_tests/local_credentials.py: the credential file of the local target, and what is kept in it.
pub mod Line
pub mod File
pub mod Local
pub mod Naming
pub mod Disposable
pub mod Binding
