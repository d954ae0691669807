-- ===== src/Localize.antt =====
-- app/src/main/cpp/inject_dobby.cpp and inject_inlinehook.cpp: the dictionary and the hooks that
-- replace texts.
pub mod Dictionary
pub mod Translate
pub mod Prefix
mod Examples
