-- ===== src/Controller.antt =====
-- kytos/core/controller.py
pub mod Switches
pub mod Lookup
pub mod Listeners
pub mod MsgOut
pub mod Napps
mod Tests
