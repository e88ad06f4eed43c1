-- ===== src/Tests.antt =====
-- Runs of the model on concrete data, and the theorems at such data.
mod Coverage
mod Credentials
mod Disposable
mod Auth
mod Dependencies
mod Environment
mod Gateway
mod Requests
mod Documents
