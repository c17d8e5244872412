-- ===== src/Display.antt =====
-- src/display: the framebuffer, the text drawn on it, and the writer of the kernel log.
pub mod Framebuffer
pub mod Bounds
pub mod Paint
pub mod Scroll
pub mod Font
pub mod Text
pub mod Writer
pub mod Log
pub mod Terminal
pub mod Console
pub mod Reports
pub mod Example
mod Tests
