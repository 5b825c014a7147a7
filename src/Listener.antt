-- ===== src/Listener.antt =====
-- The listener: c_src/quicer_listener.c, the listener's context of c_src/quicer_ctx.c, and the
-- callbacks of its resource in c_src/quicer_nif.c.
pub mod State
pub mod Calls
pub mod Open
pub mod Accept
pub mod System
pub mod Lifecycle
pub mod Settling
