-- ===== src/Massmail.antt =====
-- The package massmail.
pub mod Queue
pub mod Ids
pub mod MailingOut
pub mod Exclude
pub mod Account
pub mod World
pub mod Send
pub mod BusinessTime
mod Examples
mod ExcludeExamples
