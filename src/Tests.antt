-- ===== src/Tests.antt =====
-- Runs on small inputs, and each theorem at an input that meets its hypotheses.
mod Sample
mod Accounts
mod Guests
mod Limits
mod Requests
mod Updates
mod Calls
mod Talks
