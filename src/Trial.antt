-- ===== src/Trial.antt =====
-- Anonymous trials, app/core/trial_cleanup.py, and the job that deletes abandoned ones,
-- `reap_trial_keys` of app/core/worker.py.
pub mod Model
pub mod Selecting
pub mod Deleting
pub mod Reaping
mod Branches
mod Loop
mod Deletion
mod Owners
mod Selection
mod Reaper
mod Tests
