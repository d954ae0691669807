-- ===== src/InlineHook.antt =====
-- app/src/main/cpp/inlineHook/inlineHook.c: the registry of hooks, the patch of the target's first
-- instructions, and the threads that are stopped while it is written.
pub mod World
pub mod Threads
pub mod Items
pub mod Operations
mod Examples
