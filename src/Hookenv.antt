-- ===== src/Hookenv.antt =====
-- charmhelpers/core/hookenv.py: the persistent configuration and the run of a hook.
pub mod Config
mod Tests
pub mod Execute
pub mod Relations
