-- ===== src/Main/Unlock.antt =====
-- How a locked device is unlocked: rounds of the main loop, with any calls of the host and any
-- buttons, and the resets of the watchdog.
mod Defs
pub mod Waiting
mod Prompt
mod Entry
mod Poll
mod Round
pub mod Trace
pub use Defs.{EntryMenu, Locked, PinEntered}
pub use Round.{RoundOutcome, main_round-Locked}
