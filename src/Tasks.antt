-- ===== src/Tasks.antt =====
-- The package tasks: tasks, their stages and those who take part.
pub mod Models
pub mod Steps
pub mod Closing
pub mod Participants
pub mod Permissions
pub mod Memos
pub mod Saving
mod Examples
mod FormExamples
