-- ===== src/Relocate.antt =====
-- app/src/main/cpp/inlineHook/relocate.c: the instructions that a hook overwrites are copied to a
-- trampoline, those that depend on the PC rewritten.
pub mod Classify
pub mod Common
pub mod Thumb16
pub mod Thumb32
pub mod Boundaries
pub mod Thumb
pub mod Arm
pub mod Entry
mod Examples
