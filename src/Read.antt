-- ===== src/Read.antt =====
-- services/read: the model behind the console, folded from the event stream.
pub mod Card
pub mod Projection
pub mod Eviction
