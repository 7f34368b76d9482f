-- ===== src/Tests.antt =====
-- Concrete boards and devices, the theorems at concrete inputs, and runs of the code.
mod Fixture
mod Flash
mod Protocol
mod Keyboard
mod Menus
mod Host
mod Oscillator
mod KeyboardSession
mod SetPin
mod Unlock
mod Late
mod Queue
mod Requests
mod Chain
mod Blink
mod Pause
mod Pins
mod Credential
