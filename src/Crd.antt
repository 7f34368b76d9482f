-- ===== src/Crd.antt =====
-- crd.h and crd.c: the list of credentials in flash, the menu that walks through it, and the typing
-- of a credential.
pub mod Apply
pub mod Load
pub mod Eos
pub mod Chain
pub mod Fields
pub mod Pieces
pub mod Step
pub mod Handed
pub mod Typed
pub mod Entry
pub mod Started
pub mod Rest
pub mod Reports
pub mod Menu
pub mod Start
pub mod Fsm
pub mod Buttons
