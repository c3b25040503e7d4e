-- ===== src/Ceph.antt =====
-- charmhelpers/contrib/storage/linux/ceph.py: the requests that a charm sends to the broker.
mod Tests
pub mod Broker
