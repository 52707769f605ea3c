-- ===== src/Projection.antt =====
-- internal/projection: the read models and the projector that fills them from the events table.
pub mod ReadModel
pub mod Queries
pub mod Projector
