-- ===== src/Tests.antt =====
-- The theorems at concrete inputs.
mod Data
mod Documents
mod Parts
mod Counting
mod Loading
mod Keyspaces
mod Sharing
mod Budgets
mod Serving
mod Bodies
mod Handling
