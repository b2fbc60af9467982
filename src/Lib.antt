-- ===== src/Lib.antt =====
-- Verification of the native core of pyNetFT: the C++ client of ATI Net F/T sensors under core/, and the
-- queue and the client of its Python binding under bindings/python/.
--
-- The program. A sensor streams RDT records over UDP once it has been asked to. `Client` starts a worker
-- thread that connects, asks for the stream, receives and decodes records, tracks their two sequence
-- numbers, counts what it sees in a health snapshot, and hands each good record to a callback as a sample.
-- A session that fails is followed by another after a delay, or by a fault that ends the worker, by the
-- recovery policy. The Python binding's callback pushes samples into a bounded queue, from which readers
-- take them.
--
-- The files and the code.
--   Protocol: core/src/detail/protocol.cpp; `encode_request` and `decode_record` on lists of bytes.
--   Sequence: core/src/detail/sequence.cpp; `observe` is `rdt_observe` and `ft_observe`.
--   Status: core/src/status.cpp. FaultLatch: core/src/detail/fault_latch.cpp. Time: core/src/detail/time.hpp.
--   Types: core/include/netft/types.hpp, its default members in Types/Defaults; Types/Names and
--     Types/Validate: core/src/types.cpp.
--   Transport: core/src/detail/udp_transport_posix.cpp, where `poll` answers to a timeout in milliseconds;
--     Transport/Windows: udp_transport_windows.cpp, whose `receive` waits in slices.
--   XmlConfig: core/src/detail/xml_config.cpp. XmlConfig/Characters and XmlConfig/Scanner are the loop of
--     `extract_required_fields`, XmlConfig/Fields the checks after it, XmlConfig/Parser the units and
--     `parse_sensor_configuration`. A text is a list of characters, and the fuel of the loop is its length
--     and one, which is enough since each round takes a character at least.
--   Discovery: core/src/discovery.cpp, with `append_response` in Discovery/Response and `validate_options`
--     in Discovery/Options.
--   Client: core/src/detail/client_impl.hpp and client_impl.cpp. Client/State has the members, as the
--     record `Impl`; Client/Lifecycle the constructor, `start` and `wait_for_first_sample`; Client/Command
--     `stop`, `bias`, `health` and `close_session`; Client/Accounting and Client/Record `handle_record`; Client/Session
--     `receive_session`; Client/Worker `run`, `set_fault` and `finish_session`. Client/Threads has the steps
--     of the threads and joins of one client, and Client/Destroyer core/src/client.cpp. The other files are
--     proofs.
--   Bindings: bindings/python/. SampleQueue is sample_queue.cpp, NativeClient native_client.cpp, with the
--     callback that feeds the queue in NativeClient/Callback. Python has the declarations for pybind11:
--     module.cpp, and bind_types.cpp with its enumerations in Python/Enums, the attributes that are
--     assigned in Python/Config and those that are only read in Python/Views. The other files are proofs.
--   Common, Exception and Double are shared: lists, words, results that may throw, and floating point.
--   Tests holds the runs at concrete values.
--
-- How state and time are modelled. An operation takes the state and returns it. A lock makes the code under
-- it one step; where the worker holds no lock, a list of `Call`s of other threads, or of the callback, may
-- come in between (`interlude`): `bias`, `health` and the locked part of `stop`. What the operating system
-- and the sensor do is an argument: a `Start` and a list of `Round`s drive a session, and a list of `Pass`es
-- drives the worker. A session or a run that has used up its list is reported as still running, so the
-- length of the list is the fuel, and no theorem takes a run that is still going for one that has ended.
-- A time point is a count of nanoseconds; the 32-bit and 64-bit counters wrap.
--
-- In Client/Threads the steps of several threads come in any order: what `start` and `stop` do up to the
-- release of the lifecycle lock, what they do after a join, the worker's own steps, its store of
-- `worker_exited_` and its end. The worker leaves its loop only where a stop has been asked of it or a fault is
-- latched, and a join comes back when its thread has ended.
--
-- Parameters. `Double` stands for `double` and `long double`: its operations, and no laws, save those of
-- Discovery/Validated and Client/Backoff, which are hypotheses there. libcurl answers a `Request` by a
-- `Curl`, `<cfenv>` by a `FloatingEnvironment`, and a number is read from a text by a function `read`.
-- The result of `discover_sensor` is part of a `Start`, so that a session may be given any.
--
-- Not modelled: the test hooks, the deleter of module.cpp and what pybind11 itself does with a
-- declaration, and the Python package. A member of the facade in core/src/client.cpp that passes the call
-- on to `Impl` has no definition of its own. A `long` has 64 bits, as on Linux and macOS.
pub mod Common
pub mod Protocol
pub mod Status
pub mod Sequence
pub mod Exception
pub mod Double
pub mod Time
pub mod Types
pub mod XmlConfig
pub mod Discovery
pub mod FaultLatch
pub mod Transport
pub mod Client
pub mod Bindings
pub mod Tests
