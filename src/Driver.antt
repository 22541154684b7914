-- ===== src/Driver.antt =====
-- The driver of src/opends_aisio.c as a whole: its configuration, and what it acquires and releases
-- when it is opened, when streams are registered and when it is closed.
--
-- The C library, homic, libxnvme, pthreads and the accelerator are not part of the repository: what
-- their calls return is an argument, and what they acquire and release is listed.
pub mod Config
pub mod Cpus
pub mod Resources
pub mod Open
pub mod Setup
pub mod Success
pub mod Opening
pub mod Streams
pub mod Closing
pub mod Registered
pub mod Kept
pub mod Blocks
pub mod Files
mod Tests
