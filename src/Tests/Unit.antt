-- ===== src/Tests/Unit.antt =====
-- The unit tests of the source, as Boolean functions that the model must answer by `true`.
mod Policies
mod Batches
mod Scopes
mod Stores
mod Keys
mod Hashes
mod Lists
mod Writers
mod Letters
mod Together
