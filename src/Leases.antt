-- ===== src/Leases.antt =====
-- src/llm_home_lab/leases: short leases that take one node out of ordinary routing.
pub mod Models
pub mod Book
pub mod Path
pub mod Runner
