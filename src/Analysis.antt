-- ===== src/Analysis.antt =====
-- server-go/internal/analysis.
pub mod Sanitize
pub mod Dispatch
pub mod FailedTask
pub mod Status
pub mod Transcription
