-- ===== src/Deferred.antt =====
-- Deferred restarts: charmhelpers/contrib/openstack/policy_rcd.py, the script that it installs,
-- charmhelpers/contrib/openstack/files/policy_rc_d_script.py, and
-- charmhelpers/contrib/openstack/deferred_events.py.
pub mod Policy
mod Tests
pub mod Events
