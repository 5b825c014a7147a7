-- ===== src/Stream.antt =====
-- c_src/quicer_stream.c, and the stream options of c_src/quicer_config.c.
pub mod State
pub mod Receive
pub mod Buffers
pub mod Flow
pub mod Delivery
pub mod History
pub mod Events
pub mod Closing
pub mod Send
pub mod Open
pub mod Csend
pub mod Contexts
pub mod Ownership
pub mod Holding
pub mod Options
pub mod RoundTrip
pub mod Numbers
