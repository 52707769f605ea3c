-- ===== src/Database.antt =====
-- internal/database: the migrations.
pub mod Migration
