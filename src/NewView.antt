-- ===== src/NewView.antt =====
-- core/new-view.go: what a NewView message says about the requests of earlier views.
pub mod Extract
pub mod Sizes
pub mod Levels
pub mod Returns
pub mod Kept
pub mod Survives
pub mod Tests
