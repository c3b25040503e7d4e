-- ===== src/Host.antt =====
-- charmhelpers/core/host.py: restarts after a change of files, and the spreading of waits.
pub mod Restart
mod Tests
pub mod Spread
