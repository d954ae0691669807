-- ===== src/Inject.antt =====
-- How the libraries that are injected find and hook the functions of the game: inject_dobby.cpp,
-- inject_inlinehook.cpp, and the experiments inject_test.cpp and inject_test_dobby.cpp.
pub mod Startup
mod Examples
pub mod Inline
pub mod Experiment
