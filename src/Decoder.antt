-- ===== src/Decoder.antt =====
-- internal/decoder: enum names, magic bytes, dialects and gimbal evidence.
pub mod Enums
pub mod FrameInspector
pub mod Dialects
pub mod Gimbal
pub mod Magic
pub mod Evidence
pub mod Names
