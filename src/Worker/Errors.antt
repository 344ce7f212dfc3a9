-- ===== src/Worker/Errors.antt =====
-- pkg/worker/error_analyzer.go and error_interceptor.go: from what ffmpeg left to a classified error.
pub mod Patterns
pub mod Messages
pub mod Intercepting
pub mod Verdicts
