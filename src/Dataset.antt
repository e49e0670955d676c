-- ===== src/Dataset.antt =====
-- The datasets of internal/util: a downloaded file is read row by row and written to the database
-- in batches, the whole of it or only what differs from the file before.
pub mod Diff
pub mod Writer
pub mod Process
pub mod Changes
pub mod Json
pub mod Simple
pub mod Files
pub mod Run
pub mod Examples
pub mod FormatExamples
