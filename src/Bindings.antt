-- ===== src/Bindings.antt =====
-- bindings/python/: the queue of samples between the client's worker and the readers, the native client that
-- Python calls, and what the module declares.
pub mod SampleQueue
pub mod NativeClient
pub mod Python
