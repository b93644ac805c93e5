-- ===== src/Tests.antt =====
-- Runs of the definitions on concrete data, and instances of the theorems.
mod Clock
mod Symbols
mod Paper
mod Accounts
mod Risk
mod Execution
mod Training
