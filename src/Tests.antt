-- ===== src/Tests.antt =====
-- Runs of the model on concrete data, and each theorem at an input that meets its conditions.
pub mod Fixtures
mod Jobs
mod Scheduling
mod Quota
mod Tracking
pub mod Retrying
mod Arguments
mod Registration
mod Uploads
