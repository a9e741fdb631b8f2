-- ===== src/Crm.antt =====
-- The package crm.
pub mod Records
pub mod Request
pub mod Deals
pub mod RequestForm
pub mod Payments
pub mod Rates
pub mod Duplicates
pub mod MassContacts
mod Examples
mod RequestExamples
mod OwnerExamples
mod DealExamples
