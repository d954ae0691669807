-- ===== src/Tools.antt =====
-- app/src/main/cpp/Tools/tools.cpp: the text helpers that every injected library uses.
pub mod Utf8
pub mod Lower
pub mod Search
pub mod Hex
pub mod Rate
pub mod Dump
pub mod Junk
mod Examples
