-- ===== src/Applications.antt =====
-- services/application.py: create, list, approve and update job applications.
pub mod Index
pub mod Create
pub mod Review
pub mod Batch
pub mod Listing
