-- ===== src/Examples.antt =====
-- The theorems at concrete inputs: one host, one stream, a few terms.
pub mod Data
pub mod Receiving
pub mod Events
pub mod Options
pub mod Listening
pub mod Connections
pub mod Connecting
pub mod Datagrams
pub mod Registering
pub mod Setting
pub mod Certificates
