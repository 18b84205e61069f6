-- ===== src/Bindings.antt =====
-- utils/python/libhw: the Python bindings. The C library that they load is a parameter, a record of
-- its entry points over a state of the world that holds the target.
pub mod Action
pub mod Structs
pub mod Library
pub mod StateDb
pub mod Flash
pub mod Connection
pub mod Snapshot
pub mod Closed
pub mod Views
pub mod Loader
pub mod Probe
