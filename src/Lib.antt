-- ===== src/Lib.antt =====
-- A verification library for charm-helpers, the Python library that Juju charms share. It follows
-- the code of the parts below statement by statement: an object is a record of its fields, a
-- method is a function from the state to the state after it with the result, an exception is an
-- absent result or a result of its own, and a dictionary is an association list in the order of
-- insertion (Prelude.Maps).
--
-- Coordinator models charmhelpers/coordinator.py: the units, their locks with timestamps, acquire,
-- handle, grant and release, and in Coordinator.Hook the hooks of several units, which see each
-- other through the peer relation and leader settings. A timestamp is a number of a clock that the
-- hooks share.
--
-- UnitData models class Storage of charmhelpers/core/unitdata.py: the tables as lists of rows, a
-- transaction as the working copy beside the saved one, the scope of a hook, its revisions and the
-- deltas. A value is its JSON text, except in delta, which is over any values, with json.loads and
-- the comparison of what it gives as arguments. The LIKE patterns of SQLite are written out for
-- the underscore and the case of ASCII letters.
--
-- Services models class ServiceManager of charmhelpers/core/services/base.py over an abstract
-- world that the callbacks act on, and Services.Ports the port manager with the port file.
-- Hookenv.Execute models how charmhelpers/core/hookenv.py runs the callbacks before and after a
-- hook, for Hooks.execute and for ServiceManager.manage, where a callback may add callbacks for
-- the end, exit or raise; Hookenv.Config models class Config and its file, which is saved by such
-- a callback.
--
-- Host.Restart models restart_on_change_helper of charmhelpers/core/host.py, which hashes files
-- before and after a call. Host.Spread models modulo_distribution of the same file, and the waits,
-- the oldest peer and the ports of charmhelpers/contrib/hahelpers/cluster.py; Cluster models
-- is_elected_leader of that file and the configuration of a cluster, over what one unit sees.
-- Retry models charmhelpers/core/decorators.py; its loops are recursive on the number of retries
-- that are left, so they end without fuel.
--
-- Ceph.Broker models the broker requests of charmhelpers/contrib/storage/linux/ceph.py, their
-- comparison and the conversation on the ceph relations. The hash that makes a request id is an
-- argument.
--
-- Workload models the workload status of charmhelpers/contrib/openstack/utils.py: the checks of
-- services and ports, the interfaces, the paused states and the charm's own check, with the parts
-- of the message as data and without their wording; Workload.Pause models pause, resume, the
-- series upgrade and is_hook_allowed. What the host does to a service is an argument, and the
-- complete contexts come from Templating.
--
-- PeerStorage models leader_get of charmhelpers/contrib/peerstorage/__init__.py, which moves
-- settings from the peer relation to the leader's settings and keeps a list of what it moved, and
-- the wrappers around it that store and retrieve one setting.
--
-- Hookenv.Relations models relation_get and relation_set of charmhelpers/core/hookenv.py with the
-- cache that the decorator cached keeps and flush clears. The tools of Juju are a record of
-- functions over a state of their own, and what they document is a hypothesis on it. A key of the
-- cache is the record of the arguments, so two calls that name the same arguments share one.
--
-- Policyd models charmhelpers/contrib/openstack/policyd.py: the files of the archive with their
-- names, the validation of a document, the directory policy.d as a list of files and folders with
-- their paths from it on, and the run that installs an archive. A path is the list of its
-- components; the readers of zip files and YAML are arguments or data.
--
-- Templating models OSConfigTemplate and OSConfigRenderer of
-- charmhelpers/contrib/openstack/templating.py over an engine that loads and renders templates,
-- and hands the complete contexts to the check of the interfaces in Workload. Contexts models, of
-- charmhelpers/contrib/openstack/context.py, the base class of the generators and the searches of
-- SharedDBContext, PostgresqlDBContext, IdentityCredentialsContext, AMQPContext and CephContext
-- through the units of their relations. The parser of the messaging flags is an argument.
--
-- Strutils models charmhelpers/core/strutils.py, BasicStringComparator with the list of the
-- OpenStack releases in charmhelpers/fetch/ubuntu.py, bool_from_string and bytes_from_string, on
-- texts of ASCII.
--
-- Neutron models the mappings of bridges, ports and ranges in
-- charmhelpers/contrib/openstack/neutron.py.
--
-- Fetch models, of charmhelpers/fetch/ubuntu.py, _run_with_retries, filter_installed_packages,
-- apt_install with fatal, and add_source with the functions that its patterns name. The machine is
-- a record: its codename and architecture, what is installed, the answers of gpg and the
-- keyserver, what each attempt of a command exits with, and what a command makes of the files
-- below /etc/apt. The loop of the retries has fuel for one attempt more than there are retries,
-- which is enough unless 0 is retried. The tables CLOUD_ARCHIVE_POCKETS and
-- UBUNTU_OPENSTACK_RELEASE are arguments.
--
-- Deferred.Policy models charmhelpers/contrib/openstack/policy_rcd.py together with the script
-- charmhelpers/contrib/openstack/files/policy_rc_d_script.py that reads its files, and
-- Deferred.Events models charmhelpers/contrib/openstack/deferred_events.py with the directory of
-- event files as a dictionary. YAML is the value that it stands for. The deletion of a part of a
-- text has the length of the text as fuel, since each step removes a part of it.
--
-- Not modelled: log messages, command lines and what external programs do, class HookData of
-- unitdata, the installation of the policy script, the deferred hooks in the store, and the
-- packages cli and payload, and the parts of contrib that drive other programs.
pub mod Prelude
pub mod Coordinator
pub mod UnitData
pub mod Services
pub mod Host
pub mod Ceph
pub mod Retry
pub mod Hookenv
pub mod Workload
pub mod Deferred
pub mod PeerStorage
pub mod Strutils
pub mod Policyd
pub mod Templating
pub mod Contexts
pub mod Fetch
pub mod Neutron
pub mod Cluster
