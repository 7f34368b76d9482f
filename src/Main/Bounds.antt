-- ===== src/Main/Bounds.antt =====
-- The indices of the menus, the PIN's entry and the queue stay inside their arrays, whatever the
-- inputs.
mod Defs
mod Loading
mod Typing
mod Writing
mod Pin
mod Buttons
pub mod Round
pub use Defs.{InBounds}
