-- ===== src/Interface.antt =====
-- kytos/core/interface.py
pub mod State
mod ResizeTests
mod Tests
pub mod Given
pub mod UseTags
pub mod MakeAvailable
pub mod Restrict
pub mod Resize
pub mod Specials
pub mod Endpoints
pub mod Uni
pub mod Reach
pub mod Speed
