-- ===== src/Connection.antt =====
-- The connection: c_src/quicer_connection.c, the connection's context of c_src/quicer_ctx.c, and the
-- callbacks of its resource in c_src/quicer_nif.c.
pub mod State
pub mod Incoming
pub mod Security
pub mod Handlers
pub mod Events
pub mod Open
pub mod Connect
pub mod Stages
pub mod Opening
pub mod Ending
pub mod Connecting
pub mod Lifecycle
pub mod Freeing
pub mod Counting
pub mod Liveness
pub mod Calls
pub mod Holding
pub mod Closing
pub mod Farewell
pub mod Serving
