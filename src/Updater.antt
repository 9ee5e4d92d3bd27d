-- ===== src/Updater.antt =====
-- services/updater.py: the releases that an admin uploads, and that are applied at the next start.
pub mod Archive
pub mod Versions
pub mod Pending
pub mod Release
