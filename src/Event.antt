-- ===== src/Event.antt =====
-- pkg/event/event.go: the input of an append, its client-side validation, and the shape of ids.
pub mod Types
pub mod Id
mod Tests
