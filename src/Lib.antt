-- ===== src/Lib.antt =====
-- FreeBSD Laboratory runs Jupyter kernels in FreeBSD jails and bhyve guests and records what a learner
-- does as evidence. A root daemon (freebsd_laboratory/runtime_daemon.py) creates and destroys the
-- runtimes on request of unprivileged peers; it leases their addresses from the pool of
-- freebsd_laboratory/network.py and recognises their owners by freebsd_laboratory/process_identity.py.
-- The provisioner in the Jupyter server (freebsd_laboratory/remote_provisioner.py, with the kinds of
-- freebsd_laboratory/provisioner.py and bhyve.py) asks the daemon for a runtime through
-- freebsd_laboratory/runtime_client.py, reaches it by freebsd_laboratory/ssh_transport.py, rewrites
-- Jupyter's connection document (freebsd_laboratory/remote_connection.py) and reserves tunnel ports
-- (freebsd_laboratory/port_leases.py). Errors of kernels are reported by
-- freebsd_laboratory/kernel_telemetry.py. The server keeps an evidence stream
-- (freebsd_laboratory/service.py) whose exported bundle can be signed
-- (freebsd_laboratory/signing.py) and verified (freebsd_laboratory/verify.py).
--
-- Which file models what:
--   Base        lists, texts as lists of code points, integers, decimals, IPv4, Python's int(), split
--               and strip, JSON scalars, dictionaries as association lists, exceptions as results
--   Host        the operating system as the fields of a record over an abstract outside world, and
--               RuntimeManager._run; subprocess timeouts and failures to start are outcomes
--   Identity    process_identity.py; Identity/Laws its properties
--   Addresses   network.py, the lease directory as a state; Addresses/Allocation and
--               Addresses/Release its properties
--   Daemon      runtime_daemon.py: Names (validators), Config (configuration and records), State (the
--               manager's state and the runtime locks), Access (ownership), Registry, Teardown and
--               Destroy, Network, Reconcile, Create (create_jail, create_bhyve), Discover and Gc,
--               Handler (dispatch and handle); the modules called Effect say what an operation
--               changes, Rules how actions are composed, Isolation what peers can do to one another
--   Evidence    service.py: Json (payloads), Redact (redact_payload), Service (recording and stages)
--   Session     service.py: starting a session (LabService.__init__)
--   Connection  remote_connection.py: the documents that are written
--   Export      service.py: the signing configuration and its documents; Export/Steps is export;
--               Export/Signed and Export/Verifies its properties
--   Signing     signing.py, over a record of the operations of the cryptography package
--   Bundle      verify.py: the manifest and its artifacts; Bundle/Verify is verify_bundle as a whole
--   PortLeases  port_leases.py; sockets are a test of whether a port can be bound; Paths, Candidates,
--               Reservation and Releases its properties
--   Client      runtime_client.py: Read (the bounded reader), Request (request and the five calls);
--               Stream and Replies their properties
--   Transport   ssh_transport.py: the checks and the command; Transport/Wait the wait for the guest and
--               the staging; Transport/Forwards and Transport/Wait/Ends their properties
--   Provisioner remote_provisioner.py, provisioner.py, bhyve.py and the file handling of
--               remote_connection.py: Session (the provisioner's state and its setting), Runtime
--               (making and removing a runtime), Launch (pre_launch, launch_kernel, cleanup), Info (the
--               persisted information); Recovery, Document and Info/RoundTrip its properties
--   Telemetry   kernel_telemetry.py with capture_kernel_error of telemetry.py
--   Tests       a small host, and every property at concrete values
--
-- A method of the manager is a function from the manager's state (registry, leases, held locks, two
-- flags, outside world) to an end and a state. It returns, raises, or blocks for ever on a lock that
-- its own thread holds. The model is of one thread; the shared lock is reentrant and has no effect
-- there. The outside world is a parameter, so that nothing is assumed of a command but that it ends.
-- A method of the provisioner is a function from its session (its fields, the parent's document, the
-- tunnel leases, the outside world) to a result and a session. The two tasks that pre_launch runs
-- concurrently are taken in both orders of their ends, the one behind the other: of the session the
-- wait for the guest touches the outside world only, and no step of the preparation reads what it
-- changes there.
--
-- Bounds and fuel: numerals are printed with one round per unit of the number, which is more than one
-- per digit, and the names in the output of jls are searched with the length of the output as fuel, of
-- which each round uses one for at least one character. The wait for a guest has one round per tick of
-- its timeout and one more, and on a clock that moves on each round but the last takes a tick at least.
-- All other recursion is
-- structural.
--
-- Simplifications: the digits of a pattern and of int() are ASCII digits, but for the count of cells of
-- a notebook, where Python's tables are a parameter. The lock file of the address pool opens, its
-- directory can be listed, and what is read from it is UTF-8. A lease of tunnel ports that is there can
-- be removed. The constant keys schema, bridge and disk_backend of a
-- record, which are never read, are left out. Sleeping between retries has no effect. A request line
-- is given decoded, and a connection document as what the JSON parser makes of the file. A set in a
-- payload is left out, since JSON has none. The JSON encoder and decoder, SHA-256, base64 and the
-- cryptography package are parameters. A report to Sentry has no effect. The attributes in which
-- Jupyter's manager repeats the ports of its connection document are left out.
--
-- Not modelled: the socket set-up and the command lines, the state report of the evidence service, the
-- server extension with its handlers and installers, the set-up of Sentry with its scrubbing and
-- diagnostics, and the benchmark; much of them is calls of libraries.
pub mod Base
pub mod Host
pub mod Identity
pub mod Addresses
pub mod Daemon
pub mod Evidence
pub mod Connection
pub mod Bundle
pub mod PortLeases
pub mod Client
pub mod Telemetry
pub mod Transport
pub mod Signing
pub mod Provisioner
pub mod Export
pub mod Session
pub mod Tests
