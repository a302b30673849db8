-- ===== src/Common.antt =====
-- The package common: business rules, archive manifests, report exports and their settings.
pub mod Publication
pub mod Archive
pub mod Domain
pub mod Expenses
