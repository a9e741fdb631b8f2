-- ===== src/Common.antt =====
-- The package common.
pub mod Base
pub mod Reminders
pub mod Letters
pub mod FullName
pub mod RemindMe
pub mod Transfer
mod Examples
mod TransferExamples
mod RemindMeExamples
mod NameExamples
