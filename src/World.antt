-- ===== src/World.antt =====
-- The tables of the database, and the handle on each.
mod Tables
mod Slots
pub use Tables.*
pub use Slots.*
